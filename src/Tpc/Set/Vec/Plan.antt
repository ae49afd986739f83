-- ===== src/Tpc/Set/Vec/Plan.antt =====
-- The plans of a `ChildPlanner` divide the vector.
use kiruna.Base.{
  ℕ, zero, suc, ◌+◌, ◌-◌, ◌/◌, ◌%◌, ◌^◌, ◌≤◌, ◌<◌, min, List, [], ◌∷◌, none, some, returns, panics,
  Fault, length, All, ◌≡◌, refl, ap, subst, ◌↔◌, ◌⊎◌, arith,
}
use native.Mathlib.Nat.{mod-lt, div-add-mod}
use kiruna.Tpc.Set.Vec.{
  Strategy, ChildPlan, ChildPlanner, proposed, target, new, offset, next, collect,
}

-- The plans lie end to end, from `base` to `end`.
abbrev pub Tiles : ℕ → ℕ → List ChildPlan → Type 0
Tiles base end [] = base ≡ end
Tiles base end (p ∷ ps) = (p.base_offset ≡ base) × Tiles (base + p.len) end ps

abbrev pub Balanced : ℕ → List ChildPlan → Type 0
Balanced k = All λ p. (k ≤ p.len) × (p.len ≤ k + 1)

offset_step :
    (p : ChildPlanner) (i : ℕ)
    → (offset p i + p.k ≤ offset p (i + 1)) × (offset p (i + 1) ≤ offset p i + p.k + 1)
unfolding offset
offset_step p i = omega arith

record Divides (n : ℕ) (p : ChildPlanner) (plans : List ChildPlan) : Type 0 where
  count : length plans ≡ n
  tiles : Tiles (offset p p.i) (offset p p.target_jobs) plans
  balanced : Balanced p.k plans

abbrev step_on : ChildPlanner → ChildPlanner
step_on p = record p { i = p.i + 1 }

abbrev this_plan : ChildPlanner → ChildPlan
this_plan p = record { base_offset = offset p p.i; len = offset p (p.i + 1) - offset p p.i }

next-here : (p : ChildPlanner) → p.i < p.target_jobs → next p ≡ some (this_plan p, step_on p)
unfolding next
next-here p h = ground arith

next-end : (p : ChildPlanner) → p.i ≡ p.target_jobs → next p ≡ none
unfolding next
next-end p h = ground arith

offset-step_on : (p : ChildPlanner) (j : ℕ) → offset (step_on p) j ≡ offset p j
unfolding offset
offset-step_on p j = refl

Tiles-cons : (a b e : ℕ) (ps : List ChildPlan) → a ≤ b → Tiles b e ps → Tiles (a + (b - a)) e ps
Tiles-cons a b e ps h t = let q : a + (b - a) ≡ b = omega arith in rw q t

Divides-cons :
    (n : ℕ) (p : ChildPlanner) (plans : List ChildPlan)
    → Divides n (step_on p) plans
    → Divides (suc n) p (this_plan p ∷ plans)
unfolding offset
Divides-cons n p plans d = record {
  count = omega (arith, d.count);
  tiles = (
    refl,
    Tiles-cons (offset p p.i) (offset p (p.i + 1)) (offset p p.target_jobs) plans (omega arith)
        d.tiles,
  );
  balanced = (omega (arith, offset_step p p.i), d.balanced);
}

collect-Divides :
    (n fuel : ℕ) (p : ChildPlanner)
    → p.i + n ≡ p.target_jobs
    → n < fuel
    → (plans : List ChildPlan) × (collect fuel p ≡ some plans) × Divides n p plans
unfolding collect
collect-Divides n zero p e h = absurd (omega arith)
collect-Divides zero (suc fuel) p e h = (
  [],
  rw (next-end p (omega arith), collect),
  record { count = refl; tiles = ap (offset p) (omega arith); balanced = tt },
)
collect-Divides (suc n) (suc fuel) p e h =
    let (plans, q, d) = collect-Divides n fuel (step_on p) (omega arith) (omega arith) in
    (
      this_plan p ∷ plans,
      rw (next-here p (omega arith), collect, q, collect),
      Divides-cons n p plans d,
    )

target-min :
    (cpus : ℕ) (s : Strategy) (len : ℕ)
    → proposed cpus s < 2 ^ 32
    → target cpus s len ≡ min (proposed cpus s) len
unfolding target
target-min cpus s len h = ground arith

-- `new` panics, by a division by zero, exactly for a vector of length 0 or a request for 0 jobs.
pub new-panics_iff :
    (cpus : ℕ) (s : Strategy) (len : ℕ)
    → proposed cpus s < 2 ^ 32
    → (new cpus s len ≡ panics Fault.division_by_zero) ↔ ((len ≡ 0) ⊎ (proposed cpus s ≡ 0))
unfolding new
new-panics_iff cpus s len h =
    (λ e. ground (arith, target-min cpus s len h), λ z. ground (arith, target-min cpus s len h))

abbrev planner : ℕ → ℕ → ChildPlanner
planner n len = record { i = 0; k = len / n; m = len % n; target_jobs = n }

offset_last : (n len : ℕ) → 0 < n → offset (planner n len) n ≡ len
unfolding offset
offset_last n len h = grind (arith, div-add-mod, mod-lt)

offset_first : (n len : ℕ) → offset (planner n len) 0 ≡ 0
unfolding offset
offset_first n len = omega arith

whole :
    (n len : ℕ) (plans : List ChildPlan)
    → 0 < n
    → n ≤ len
    → Divides n (planner n len) plans
    → Tiles 0 len plans × Balanced (len / length plans) plans × (0 < len / length plans)
whole n len plans h hn d = (
  subst (λ b. Tiles b len plans) (offset_first n len)
      (subst (λ e. Tiles (offset (planner n len) 0) e plans) (offset_last n len h) d.tiles),
  rw d.count d.balanced,
  rw d.count (grind arith),
)

-- Of a vector of `len` slots and a request of `proposed` jobs, neither of them 0, the planner makes
-- the smaller number of jobs, and its loop ends within that many rounds and one. The jobs lie end to
-- end, from slot 0 to slot `len`, none is empty, and no two sizes differ by more than one.
pub new-collect :
    (cpus : ℕ) (s : Strategy) (len : ℕ)
    → proposed cpus s < 2 ^ 32
    → 0 < len
    → 0 < proposed cpus s
    → (p : ChildPlanner) × (plans : List ChildPlan) × (new cpus s len ≡ returns p)
      × (collect (suc p.target_jobs) p ≡ some plans)
      × (length plans ≡ min (proposed cpus s) len)
      × Tiles 0 len plans
      × Balanced (len / length plans) plans
      × (0 < len / length plans)
unfolding new
new-collect cpus s len h hl hp =
    let n = min (proposed cpus s) len in
    let (plans, q, d) = collect-Divides n (suc n) (planner n len) (omega arith) (omega arith) in
    let (tiles, balanced, some_work) = whole n len plans (omega arith) (omega arith) d in
    (
      planner n len,
      plans,
      ground (arith, target-min cpus s len h),
      q,
      d.count,
      tiles,
      balanced,
      some_work,
    )
