-- ===== src/Tpc/Platform/Cpus/Bounds.antt =====
-- What `threadpool_size` of tpc/src/platform/windows/physical_cpus.rs counts in a buffer that
-- elements of positive sizes tile.
use kiruna.Base.{
  ℕ, suc, ◌+◌, ◌/◌, ◌^◌, ◌<◌, ◌≤◌, ltb, ◌==◌, ==→eq, true, false, Bool-cases, if◌then◌else◌, List,
  [], ◌∷◌, length, Has, total, none, some, returns, ◌≡◌, ◌↔◌, refl, arith, ◌⊎◌, inl, inr, u32,
  subst, sym, ap,
}
use kiruna.Tpc.Platform.Cpus.{
  CpuSetInformation, contains, insert, Counts, count, scan, average, threadpool_size,
}

-- The elements lie behind each other from an offset on.
abbrev pub Tiled : (ℕ → CpuSetInformation) → ℕ → List CpuSetInformation → Type 0
Tiled element offset [] = Unit
Tiled element offset (x ∷ xs) =
    (element offset ≡ x) × (0 < x.size) × Tiled element (offset + x.size) xs

abbrev pub size_of : CpuSetInformation → ℕ
size_of e = e.size

-- The core indexes of the recognised elements, one for each logical core.
abbrev pub cores : List CpuSetInformation → List ℕ
cores [] = []
cores (e ∷ es) = if e.kind == 0 then e.core_index ∷ cores es else cores es

abbrev no_cores : Counts
no_cores = record { unique_cores = []; logical_cores = 0 }

abbrev count_all : List CpuSetInformation → Counts → Counts
count_all [] c = c
count_all (e ∷ es) c = count_all es (count e c)

abbrev pub Distinct : List ℕ → Type 0
Distinct [] = Unit
Distinct (x ∷ xs) = (¬ Has x xs) × Distinct xs

scan-Tiled :
    (element : ℕ → CpuSetInformation) (es : List CpuSetInformation) (offset len : ℕ) (c : Counts)
    → Tiled element offset es
    → len ≡ offset + total size_of es
    → len < 2 ^ 32
    → scan element len (suc (length es)) offset c ≡ some (count_all es c)
unfolding scan
scan-Tiled element [] offset len c t e h = ground arith
scan-Tiled element (x ∷ xs) offset len c t e h =
    let inside : ltb offset len ≡ true = ground arith in
    let next : u32 (offset + x.size) ≡ offset + x.size = omega arith in
    let rest = scan-Tiled element xs (offset + x.size) len (count x c) t.2 (omega arith) h in
    rw (inside, t.0, next) rest

contains-Has : (c : ℕ) (xs : List ℕ) → contains c xs ≡ true → Has c xs
contains-Has c [] h = cc
contains-Has c (x ∷ xs) h = elim (Bool-cases (x == c)) [
  | inl e ↦ inl (==→eq x c e)
  | inr e ↦ inr (contains-Has c xs (ground (arith)))
]

contains-not_Has : (c : ℕ) (xs : List ℕ) → contains c xs ≡ false → ¬ Has c xs
contains-not_Has c [] h p = p
contains-not_Has c (x ∷ xs) h (inl e) = ground (arith)
contains-not_Has c (x ∷ xs) h (inr p) = contains-not_Has c xs (ground arith) p

abbrev insert_all : List ℕ → List ℕ → List ℕ
insert_all [] u = u
insert_all (k ∷ ks) u = insert_all ks (insert k u)

unique_cores-count_all :
    (es : List CpuSetInformation) (c : Counts)
    → (count_all es c).unique_cores ≡ insert_all (cores es) c.unique_cores
unfolding count
unique_cores-count_all [] c = refl
unique_cores-count_all (e ∷ es) c = let ih = unique_cores-count_all es (count e c) in ground arith

logical_cores-count_all :
    (es : List CpuSetInformation) (c : Counts)
    → c.logical_cores + length (cores es) < 2 ^ 16
    → (count_all es c).logical_cores ≡ c.logical_cores + length (cores es)
unfolding count
logical_cores-count_all [] c h = omega arith
logical_cores-count_all (e ∷ es) c h = elim (Bool-cases (e.kind == 0)) [
  | inl q ↦ let ih = logical_cores-count_all es (count e c) (ground arith) in ground arith
  | inr q ↦ let ih = logical_cores-count_all es (count e c) (ground arith) in ground arith
]

Has-insert : (j k : ℕ) (u : List ℕ) → Has j (insert k u) ↔ (Has j u ⊎ (k ≡ j))
unfolding insert
Has-insert j k u = elim (Bool-cases (contains k u)) [
  | inl h ↦
      rw h (
        λ p. inl p,
        λ p. elim p [ inl q ↦ q | inr e ↦ subst (λ x. Has x u) e (contains-Has k u h) ],
      )
  | inr h ↦
      rw h (
        λ p. elim p [ inl e ↦ inr e | inr q ↦ inl q ],
        λ p. elim p [ inl q ↦ inr q | inr e ↦ inl e ],
      )
]

insert-Distinct : (k : ℕ) (u : List ℕ) → Distinct u → Distinct (insert k u)
unfolding insert
insert-Distinct k u d = elim (Bool-cases (contains k u)) [
  | inl h ↦ rw h d
  | inr h ↦ rw h (contains-not_Has k u h, d)
]

length-insert : (k : ℕ) (u : List ℕ) → length (insert k u) ≤ suc (length u)
unfolding insert
length-insert k u = ground arith

insert_all-Distinct : (ks u : List ℕ) → Distinct u → Distinct (insert_all ks u)
insert_all-Distinct [] u d = d
insert_all-Distinct (k ∷ ks) u d = insert_all-Distinct ks (insert k u) (insert-Distinct k u d)

length-insert_all : (ks u : List ℕ) → length (insert_all ks u) ≤ length u + length ks
length-insert_all [] u = omega arith
length-insert_all (k ∷ ks) u = omega (arith, length-insert_all ks (insert k u), length-insert k u)

Has-insert_all : (ks u : List ℕ) (j : ℕ) → Has j (insert_all ks u) ↔ (Has j u ⊎ Has j ks)
Has-insert_all [] u j = (λ p. inl p, λ p. elim p [ inl q ↦ q | inr q ↦ absurd q ])
Has-insert_all (k ∷ ks) u j =
    let after = Has-insert_all ks (insert k u) j in
    let here = Has-insert j k u in
    (
      λ p. elim (after.0 p) [
        | inl q ↦ elim (here.0 q) [ inl r ↦ inl r | inr e ↦ inr (inl e) ]
        | inr q ↦ inr (inr q)
      ],
      λ p. elim p [
        | inl q ↦ after.1 (inl (here.1 (inl q)))
        | inr (inl e) ↦ after.1 (inl (here.1 (inr e)))
        | inr (inr q) ↦ after.1 (inr q)
      ],
    )

-- For a buffer that elements of positive sizes fill, of less than 2^32 bytes and with less than 2^15
-- recognised elements, the loop ends after as many rounds as there are elements, and the size is the
-- mean of the number of recognised elements and of the number of the different core indexes among
-- them, which is at most the first: it lies between the two, and nothing overflows or panics.
pub threadpool_size-mean :
    (element : ℕ → CpuSetInformation) (es : List CpuSetInformation)
    → Tiled element 0 es
    → total size_of es < 2 ^ 32
    → length (cores es) < 2 ^ 15
    → (u : List ℕ) × (size : ℕ) × (threadpool_size none
          (record { succeeded = true; returned_len = total size_of es; element = element })
          (suc (length es))
        ≡ returns (some size))
      × (size ≡ (length u + length (cores es)) / 2)
      × Distinct u
      × ((k : ℕ) → Has k u ↔ Has k (cores es))
      × (length u ≤ size)
      × (size ≤ length (cores es))
unfolding threadpool_size average
threadpool_size-mean element es t b h =
    let c = count_all es no_cores in
    let unique : c.unique_cores ≡ insert_all (cores es) [] = unique_cores-count_all es no_cores in
    let logical : c.logical_cores ≡ length (cores es) =
      omega (arith, logical_cores-count_all es no_cores (omega arith)) in
    let few : length c.unique_cores ≤ length (cores es) =
      subst (λ u. length u ≤ length (cores es)) (sym unique)
        (omega (arith, length-insert_all (cores es) [])) in
    let fits : ltb (length c.unique_cores) (2 ^ 16) ≡ true = ground arith in
    (
      c.unique_cores,
      (length c.unique_cores + length (cores es)) / 2,
      rw (scan-Tiled element es 0 (total size_of es) no_cores t (omega arith) b, fits)
          (ap (λ n. returns (some n)) (omega arith)),
      refl,
      subst Distinct (sym unique) (insert_all-Distinct (cores es) [] tt),
      subst (λ u. (k : ℕ) → Has k u ↔ Has k (cores es)) (sym unique)
          (λ k.
            let p = Has-insert_all (cores es) [] k in
            (λ q. elim (p.0 q) [ inl x ↦ absurd x | inr x ↦ x ], λ q. p.1 (inr q))),
      omega arith,
      omega arith,
    )
