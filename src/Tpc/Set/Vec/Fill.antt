-- ===== src/Tpc/Set/Vec/Fill.antt =====
-- What the jobs of `set_sync` write, in whatever order they run.
use kiruna.Base.{
  ℕ, zero, suc, ◌+◌, ◌≤◌, ◌<◌, List, [], ◌∷◌, Option, none, some, returns, get_elem?, length, All,
  Has, ◌≡◌, ◌⊎◌, inl, inr, false, refl, sym, ap, subst, ◌∙◌, arith, get_elem?-some,
}
use native.Mathlib.Decide.{dec_lt, ℕ_discrete}
use kiruna.Tpc.Set.Vec.{ChildPlan, Memory, empty, placed, write, fill, job, run_jobs}
use kiruna.Tpc.Set.Vec.Plan.{Tiles}

abbrev pub Covers : ChildPlan → ℕ → Type 0
Covers p j = (p.base_offset ≤ j) × (j < p.base_offset + p.len)

abbrev pub Misses : ChildPlan → ℕ → Type 0
Misses p j = (j < p.base_offset) ⊎ (p.base_offset + p.len ≤ j)

Covers-or_Misses : (p : ChildPlan) (j : ℕ) → Covers p j ⊎ Misses p j
Covers-or_Misses p j = elim (dec_lt j p.base_offset) [
  | yes a ↦ inr (inl a)
  | no a ↦ elim (dec_lt j (p.base_offset + p.len)) [
    | yes b ↦ inl (omega arith, b)
    | no b ↦ inr (inr (omega arith))
  ]
]

module _ {ℓ} {O : Type ℓ} (f : ℕ → O) where
  -- What the loop of a job makes of the memory where no drop is in its way.
  abbrev pub filled : ℕ → ℕ → Memory O → Memory O
  filled zero slot mem = mem
  filled (suc n) slot mem = filled n (slot + 1) (placed mem slot (f slot))

  write-placed :
      (mem : Memory O) (slot : ℕ) (val : O)
      → write false mem slot val ≡ returns (placed mem slot val)
  unfolding write
  write-placed mem slot val = go (mem slot)
    where
      go :
          (o : Option O)
          → elim o [
            | some old ↦ returns (placed mem slot val)
            | none ↦ returns (placed mem slot val)
          ]
            ≡ returns (placed mem slot val)
      go none = refl
      go (some old) = refl

  fill-filled :
      (n slot : ℕ) (mem : Memory O) → fill false f n slot mem ≡ returns (filled n slot mem)
  unfolding fill
  fill-filled zero slot mem = refl
  fill-filled (suc n) slot mem =
      rw (write-placed mem slot (f slot)) (fill-filled n (slot + 1) (placed mem slot (f slot)))

  filled_outside :
      (n slot : ℕ) (mem : Memory O) (j : ℕ)
      → (j < slot) ⊎ (slot + n ≤ j)
      → filled n slot mem j ≡ mem j
  filled_outside zero slot mem j h = refl
  filled_outside (suc n) slot mem j h =
      ground (arith, filled_outside n (slot + 1) (placed mem slot (f slot)) j)

  filled_inside :
      (n slot : ℕ) (mem : Memory O) (j : ℕ)
      → slot ≤ j
      → j < slot + n
      → filled n slot mem j ≡ some (f j)
  filled_inside zero slot mem j h k = absurd (omega arith)
  filled_inside (suc n) slot mem j h k = elim (ℕ_discrete slot j) [
    | yes e ↦ ground (arith, filled_outside n (slot + 1) (placed mem slot (f slot)) j)
    | no e ↦ filled_inside n (slot + 1) (placed mem slot (f slot)) j (omega arith) (omega arith)
  ]

  -- What a run of the jobs in `order` makes of the memory.
  record Ran (plans : List ChildPlan) (order : List ℕ) (mem mem' : Memory O) : Type ℓ where
    kept : (j : ℕ) → mem j ≡ some (f j) → mem' j ≡ some (f j)
    built :
        (i j : ℕ) (p : ChildPlan)
        → Has i order
        → get_elem? plans i ≡ some p
        → Covers p j
        → mem' j ≡ some (f j)
    untouched :
        (j : ℕ)
        → ((i : ℕ) (p : ChildPlan) → get_elem? plans i ≡ some p → Misses p j)
        → mem' j ≡ mem j

  filled_kept :
      (p : ChildPlan) (mem : Memory O) (j : ℕ)
      → mem j ≡ some (f j)
      → filled p.len p.base_offset mem j ≡ some (f j)
  filled_kept p mem j e = elim (Covers-or_Misses p j) [
    | inl c ↦ filled_inside p.len p.base_offset mem j c.0 c.1
    | inr m ↦ filled_outside p.len p.base_offset mem j m ∙ e
  ]

  filled_covered :
      (p p' : ChildPlan) (mem : Memory O) (j : ℕ)
      → p ≡ p'
      → Covers p' j
      → filled p.len p.base_offset mem j ≡ some (f j)
  filled_covered p p' mem j e c =
      subst (λ q. filled q.len q.base_offset mem j ≡ some (f j)) (sym e)
        (filled_inside p'.len p'.base_offset mem j c.0 c.1)

  same_plan :
      (plans : List ChildPlan) (i i' : ℕ) (p p' : ChildPlan)
      → i ≡ i'
      → get_elem? plans i ≡ some p
      → get_elem? plans i' ≡ some p'
      → p ≡ p'
  same_plan plans i i' p p' q e e' = cc (ap (get_elem? plans) q)

  Ran-cons :
      (plans : List ChildPlan) (i : ℕ) (order : List ℕ) (p : ChildPlan) (mem mem' : Memory O)
      → get_elem? plans i ≡ some p
      → Ran plans order (filled p.len p.base_offset mem) mem'
      → Ran plans (i ∷ order) mem mem'
  Ran-cons plans i order p mem mem' e r = record {
    kept = λ j h. r.kept j (filled_kept p mem j h);
    built = λ i' j p' has e' c. elim has [
      | inl q ↦ r.kept j (filled_covered p p' mem j (same_plan plans i i' p p' q e e') c)
      | inr later ↦ r.built i' j p' later e' c
    ];
    untouched =
        λ j miss. r.untouched j miss ∙ filled_outside p.len p.base_offset mem j (miss i p e);
  }

  run_jobs-Ran :
      (plans : List ChildPlan) (order : List ℕ) (mem : Memory O)
      → All (λ i. i < length plans) order
      → (mem' : Memory O) × (run_jobs false f plans order mem ≡ returns mem')
        × Ran plans order mem mem'
  unfolding run_jobs
  run_jobs-Ran plans [] mem h = (
    mem,
    refl,
    record { kept = λ j e. e; built = λ i j p b e c. absurd b; untouched = λ j miss. refl },
  )
  run_jobs-Ran plans (i ∷ order) mem h =
      let (p, e) = get_elem?-some plans i h.0 in
      let (mem', q, r) = run_jobs-Ran plans order (filled p.len p.base_offset mem) h.1 in
      (
        mem',
        rw (e, job, fill-filled p.len p.base_offset mem) q,
        Ran-cons plans i order p mem mem' e r,
      )

tile_of :
    (base end j : ℕ) (plans : List ChildPlan)
    → Tiles base end plans
    → base ≤ j
    → j < end
    → (i : ℕ) × (p : ChildPlan) × (i < length plans) × (get_elem? plans i ≡ some p) × Covers p j
tile_of base end j [] t h k = absurd (omega arith)
tile_of base end j (p ∷ ps) t h k = elim (dec_lt j (base + p.len)) [
  | yes inside ↦ (0, p, omega arith, refl, (omega (arith, t.0), omega (arith, t.0)))
  | no beyond ↦
      let (i, q, lt, e, c) = tile_of (base + p.len) end j ps t.1 (omega arith) k in
      (suc i, q, omega arith, e, c)
]

Tiles-le : (base end : ℕ) (plans : List ChildPlan) → Tiles base end plans → base ≤ end
Tiles-le base end [] t = omega arith
Tiles-le base end (p ∷ ps) t = omega (arith, Tiles-le (base + p.len) end ps t.1)

tile_below :
    (base end i : ℕ) (p : ChildPlan) (plans : List ChildPlan)
    → Tiles base end plans
    → get_elem? plans i ≡ some p
    → p.base_offset + p.len ≤ end
tile_below base end i p [] t e = cc
tile_below base end zero p (q ∷ ps) t e =
    let same : q ≡ p = cc in
    subst (λ r. r.base_offset + r.len ≤ end) same
      (omega (arith, t.0, Tiles-le (base + q.len) end ps t.1))
tile_below base end (suc i) p (q ∷ ps) t e = tile_below (base + q.len) end i p ps t.1 e

-- Plans that lie end to end over `len` slots, run in any order in which each is run at least once
-- and nothing else is, panic nowhere, leave in every slot below `len` the value that `f` builds for
-- that slot, and write to no slot from `len` on.
pub run_jobs-fills {ℓ} :
    {O : Type ℓ} (f : ℕ → O) (len : ℕ) (plans : List ChildPlan) (order : List ℕ)
    → Tiles 0 len plans
    → All (λ i. i < length plans) order
    → ((i : ℕ) → i < length plans → Has i order)
    → (out : Memory O) × (run_jobs false f plans order empty ≡ returns out)
      × ((j : ℕ) → j < len → out j ≡ some (f j))
      × ((j : ℕ) → len ≤ j → out j ≡ none)
run_jobs-fills f len plans order t known each =
    let (out, e, r) = run_jobs-Ran f plans order empty known in
    (
      out,
      e,
      λ j h.
          let (i, p, lt, q, c) = tile_of 0 len j plans t (omega arith) h in
          r.built i j p (each i lt) q c,
      λ j h. r.untouched j (λ i p q. inr (omega (arith, tile_below 0 len i p plans t q))),
    )
