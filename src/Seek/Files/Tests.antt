-- ===== src/Seek/Files/Tests.antt =====
-- Reads of a file of three bytes, by a WinRT that never fails and whose streams are positions.
use kiruna.Base
use kiruna.Base.{
  ℕ, ◌+◌, ◌^◌, ◌<◌, u32, List, [], ◌∷◌, length, take, total, false, ok, returns, ◌≡◌, ◌↔◌, refl, ap,
  sym, ◌∙◌, arith,
}
use kiruna.Base.Priority.{user_waiting, testing}
use kiruna.Seek.Front.{Imp, all, new, read, async_clone}
use kiruna.Seek.Files.{Winrt, Filled, Read, drop, windows}
use kiruna.Seek.Files.Slices.{
  Serves, InPlace, Slices, read_each, all-whole_iff, read_each-slices_iff,
}

abbrev content : List ℕ
content = 7 ∷ 8 ∷ 9 ∷ []

abbrev filled : ℕ → ℕ → Filled
filled s n = record {
  returned = take n (Base.drop s content);
  given = take n (Base.drop s content);
}

abbrev disk : Winrt ℕ Unit ℕ
disk = record {
  get_file_from_path = λ path. ok (ok tt);
  get_basic_properties = λ file. ok (ok (ok 3));
  open_sequential_read = λ file. ok (ok 0);
  open_read = λ file. ok (ok 0);
  create_buffer = λ n. ok tt;
  read_async = λ s n. ok (ok (filled s n), s + length (take n (Base.drop s content)));
  seek = λ s o. ok o;
  close = λ s. ok tt;
}

disk-Serves : (path : List ℕ) → Serves disk path content
disk-Serves path = record {
  file = tt;
  position = λ s. s;
  finds = refl;
  sizes = refl;
  opens_sequential = (0, refl, refl);
  opens = (0, refl, refl);
  creates = λ n h. refl;
  reads = λ s n h. (filled s n, s + length (take n (Base.drop s content)), refl, refl);
  seeks = λ s o. (o, refl, refl);
  closes = λ s. refl;
}

disk-InPlace : InPlace disk
disk-InPlace before s s' offset n f sought h e =
    let same : filled s n ≡ f = cc e in ap (λ x. x.given) (sym same) ∙ ap (λ x. x.returned) same

abbrev file_imp : Imp ℕ (Read ℕ)
file_imp = windows disk (λ p. false) (λ p. p)

all-whole_iff_example :
    (all file_imp (67 ∷ []) testing ≡ returns (ok (take (u32 (length content)) content)))
    × ((all file_imp (67 ∷ []) testing ≡ returns (ok content)) ↔ (length content < 2 ^ 32))
all-whole_iff_example =
    all-whole_iff disk (λ p. false) (λ p. p) (67 ∷ []) content testing (disk-Serves _)

read_each-slices_iff_example :
    (opened cloned : Read ℕ) × (new file_imp (67 ∷ []) testing ≡ returns (ok opened))
    × (async_clone file_imp opened user_waiting ≡ returns (ok cloned))
    × (Slices disk (λ p. false) (λ p. p) (67 ∷ []) content (disk-Serves _) ↔ InPlace disk)
read_each-slices_iff_example =
    read_each-slices_iff disk (λ p. false) (λ p. p) (67 ∷ []) content (disk-Serves _) testing
      user_waiting

-- The disk reads in place, so that its slices can be read.
read_each_run :
    (r : Read ℕ) × (read_each
        (read file_imp)
        (1 ∷ 4 ∷ [])
        1
        (record { input_stream = 0; initial_path = 67 ∷ [] })
      ≡ returns (ok (take (total (λ n. n) (1 ∷ 4 ∷ [])) (Base.drop 1 content)), r))
    × (drop disk r ≡ returns tt)
read_each_run =
    let (opened, cloned, made, again, both) =
      read_each-slices_iff disk (λ p. false) (λ p. p) (67 ∷ []) content (disk-Serves _) testing
        testing in
    both.1 disk-InPlace (1 ∷ 4 ∷ []) 1 (record { input_stream = 0; initial_path = 67 ∷ [] })
      (omega arith, (omega arith, tt))
