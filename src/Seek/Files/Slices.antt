-- ===== src/Seek/Files/Slices.antt =====
-- What the reads of seek/src/windows/mod.rs give, over a WinRT that serves a file.
use kiruna.Base.{
  ℕ, ◌+◌, ◌^◌, ◌<◌, u32, List, [], ◌∷◌, ◌++◌, length, length-take_le, take-length_le, take,
  take-add, All, total, Bool, Result, ok, err, Outcome, returns, ◌>>=◌, ◌≡◌, ◌↔◌, refl, ap, sym,
  subst, append-nil, ◌∙◌, arith,
}
use kiruna.Base
use kiruna.Seek.{fix_path}
use kiruna.Base.Priority.{Priority}
use kiruna.Seek.Files
use kiruna.Seek.Files.{Winrt, Filled, Read, drop, windows}
use kiruna.Seek.Front.{Imp, all, new, read, async_clone}

-- What the documentation of WinRT says of a file whose content does not change: it opens at its
-- start, `Seek` goes to an offset, and `ReadAsync` without `Partial` reads up to the number of bytes
-- it is given or the end of the file.
pub record Serves {E File Stream : Type 0} (w : Winrt E File Stream) (path content : List ℕ)
    : Type 0 where
  pub file : File
  pub position : Stream → ℕ
  pub finds : w.get_file_from_path path ≡ ok (ok file)
  pub sizes : w.get_basic_properties file ≡ ok (ok (ok (length content)))
  pub opens_sequential : (s : Stream) × (w.open_sequential_read file ≡ ok (ok s)) × (position s ≡ 0)
  pub opens : (s : Stream) × (w.open_read file ≡ ok (ok s)) × (position s ≡ 0)
  pub creates : (n : ℕ) → n < 2 ^ 32 → w.create_buffer n ≡ ok tt
  pub reads :
      (s : Stream) (n : ℕ)
      → n < 2 ^ 32
      → (f : Filled) × (s' : Stream) × (w.read_async s n ≡ ok (ok f, s'))
        × (f.returned ≡ take n (Base.drop (position s) content))
  pub seeks : (s : Stream) (o : ℕ) → (s' : Stream) × (w.seek s o ≡ ok s') × (position s' ≡ o)
  pub closes : (s : Stream) → w.close s ≡ ok tt

module _ {E File Stream : Type 0} (w : Winrt E File Stream) (is_relative : List ℕ → Bool)
    (absolute : List ℕ → List ℕ) (path content : List ℕ) (priority : Priority)
    (serves : Serves w (fix_path is_relative absolute path) content) where
  all-take :
      all (windows w is_relative absolute) path priority
      ≡ returns (ok (take (u32 (length content)) content))
  unfolding all Files.all
  all-take =
      let (s, opened, start) = serves.opens_sequential in
      let (f, s', filled, bytes) = serves.reads s (u32 (length content)) (omega arith) in
      rw
        (
          serves.finds,
          serves.sizes,
          opened,
          serves.creates (u32 (length content)) (omega arith),
          filled,
          serves.closes s',
          bytes,
          start,
        )
        refl

  -- `Read::all` on Windows, of a file that is served, gives the first n bytes of the content, where n
  -- is its size modulo 2^32: the whole content exactly where the file has less than 2^32 bytes.
  pub all-whole_iff :
      (all (windows w is_relative absolute) path priority
        ≡ returns (ok (take (u32 (length content)) content)))
      × ((all (windows w is_relative absolute) path priority ≡ returns (ok content))
          ↔ (length content < 2 ^ 32))
  all-whole_iff = (all-take, (whole, λ h. all-take ∙ ap (λ bytes. returns (ok bytes)) (fits h)))
    where
      fits : length content < 2 ^ 32 → take (u32 (length content)) content ≡ content
      fits h = take-length_le (u32 (length content)) content (omega arith)

      whole :
          all (windows w is_relative absolute) path priority ≡ returns (ok content)
          → length content < 2 ^ 32
      whole h =
          let same : take (u32 (length content)) content ≡ content = cc all-take in
          omega (arith, length-take_le (u32 (length content)) content, ap length same)

-- Behind a `Seek`, `ReadAsync` leaves the bytes that it returns in the buffer that it is given, too. WinRT
-- does not promise that.
abbrev pub InPlace : {E File Stream : Type 0} → Winrt E File Stream → Type 0
InPlace {E} {File} {Stream} w =
    (before s s' : Stream) (offset n : ℕ) (f : Filled)
    → w.seek before offset ≡ ok s
    → n < 2 ^ 32
    → w.read_async s n ≡ ok (ok f, s')
    → f.given ≡ f.returned

-- Reads of slices that lie behind each other from an offset on, joined.
abbrev pub read_each :
    {E R : Type 0}
    → (ℕ → ℕ → R → Outcome (Result (List ℕ) E × R))
    → List ℕ
    → ℕ
    → R
    → Outcome (Result (List ℕ) E × R)
read_each read [] offset r = returns (ok [], r)
read_each read (size ∷ sizes) offset r = read offset size r >>= λ (first, r'). elim first [
  | err e ↦ returns (err e, r')
  | ok bytes ↦ read_each read sizes (offset + size) r' >>= λ (rest, r''). elim rest [
    | err e ↦ returns (err e, r'')
    | ok more ↦ returns (ok (bytes ++ more), r'')
  ]
]

module _ {E File Stream : Type 0} (w : Winrt E File Stream) (is_relative : List ℕ → Bool)
    (absolute : List ℕ → List ℕ) (path content : List ℕ)
    (serves : Serves w (fix_path is_relative absolute path) content) where
  abbrev imp : Imp E (Read Stream)
  imp = windows w is_relative absolute

  -- Reads of slices of less than 2^32 bytes each, from any offset on, give the content from there on,
  -- up to the end of the file, and leave a stream that can be dropped.
  abbrev pub Slices : Type 0
  Slices =
      (sizes : List ℕ) (offset : ℕ) (r : Read Stream)
      → All (λ n. n < 2 ^ 32) sizes
      → (r' : Read Stream) × (read_each (read imp) sizes offset r
          ≡ returns (ok (take (total (λ n. n) sizes) (Base.drop offset content)), r'))
        × (drop w r' ≡ returns tt)

  -- A read gives what is then in the buffer that it made, where the system returns the slice.
  read-given :
      (offset size : ℕ) (r : Read Stream)
      → size < 2 ^ 32
      → (f : Filled) × (s s' : Stream) × (w.seek r.input_stream offset ≡ ok s)
        × (w.read_async s size ≡ ok (ok f, s'))
        × (f.returned ≡ take size (Base.drop offset content))
        × (read imp offset size r ≡ returns (ok f.given, record r { input_stream = s' }))
  unfolding read Files.read
  read-given offset size r h =
      let (s, sought, at) = serves.seeks r.input_stream offset in
      let (f, s', filled, bytes) = serves.reads s size h in
      let size_u32 : u32 size ≡ size = omega arith in
      (
        f,
        s,
        s',
        sought,
        filled,
        bytes ∙ ap (λ o. take size (Base.drop o content)) at,
        rw (sought, size_u32, serves.creates size h, size_u32, filled) refl,
      )

  read_each-take : InPlace w → Slices
  unfolding drop
  read_each-take in_place [] offset r h = (r, refl, rw (serves.closes r.input_stream) refl)
  read_each-take in_place (size ∷ sizes) offset r h =
      let (f, s, s', sought, filled, bytes, first) = read-given offset size r h.0 in
      let (r'', rest, closed) =
        read_each-take in_place sizes (offset + size) (record r { input_stream = s' }) h.1 in
      let slice : f.given ≡ take size (Base.drop offset content) =
        in_place r.input_stream s s' offset size f sought h.0 filled ∙ bytes in
      (
        r'',
        rw (first, rest, slice, take-add size (total (λ n. n) sizes) offset content) refl,
        closed,
      )

  -- One slice, read at the offset.
  Slices-InPlace : Slices → InPlace w
  Slices-InPlace slices before s s' offset n f sought h filled =
      let r : Read Stream = record { input_stream = before; initial_path = path } in
      let (g, t, t', sought', filled', bytes, first) = read-given offset n r h in
      let same : t ≡ s = cc in
      let refilled : w.read_async s n ≡ ok (ok g, t') =
        subst (λ x. w.read_async x n ≡ ok (ok g, t')) same filled' in
      let twice : g ≡ f = cc in
      let (r', read_it, closed) = slices (n ∷ []) offset r (h, tt) in
      let alone : read_each (read imp) (n ∷ []) offset r
          ≡ returns (ok (g.given ++ []), record r { input_stream = t' }) =
        rw first refl in
      let joined : g.given ++ [] ≡ take (total (λ k. k) (n ∷ [])) (Base.drop offset content) = cc in
      let just : total (λ k. k) (n ∷ []) ≡ n = omega arith in
      let slice : g.given ≡ take n (Base.drop offset content) =
        sym (append-nil g.given) ∙ joined ∙ ap (λ k. take k (Base.drop offset content)) just in
      ap (λ x. x.given) (sym twice) ∙ slice ∙ sym bytes ∙ ap (λ x. x.returned) twice

  new-opens :
      (priority : Priority)
      → (r : Read Stream) × (new imp path priority ≡ returns (ok r)) × (r.initial_path ≡ path)
  unfolding new Files.new
  new-opens priority =
      let (s, opens, start) = serves.opens in
      (record { input_stream = s; initial_path = path }, rw (serves.finds, opens) refl, refl)

  async_clone-new :
      (priority : Priority) (r : Read Stream)
      → r.initial_path ≡ path
      → async_clone imp r priority ≡ new imp path priority
  unfolding async_clone new Files.async_clone
  async_clone-new priority r e = rw e refl

  -- On Windows, over a file that is served, `Read::new` and `Read::async_clone` each open a stream.
  -- Streams can be read in slices of less than 2^32 bytes each, those that lie behind each other from an
  -- offset on making up the content from there on, up to the end of the file, and be dropped without a
  -- panic after that: this holds of all streams, offsets and sizes exactly if the system leaves
  -- what it reads in the buffer that it is given.
  pub read_each-slices_iff :
      (p q : Priority)
      → (opened cloned : Read Stream) × (new imp path p ≡ returns (ok opened))
        × (async_clone imp opened q ≡ returns (ok cloned))
        × (Slices ↔ InPlace w)
  read_each-slices_iff p q =
      let (opened, made, at) = new-opens p in
      let (cloned, again, _) = new-opens q in
      (opened, cloned, made, async_clone-new q opened at ∙ again, (Slices-InPlace, read_each-take))
