-- ===== src/Tpc/Set/Vec/Build.antt =====
-- `set_sync` of tpc/src/set/vec.rs as a whole.
use kiruna.Base.{
  ℕ, ◌≤◌, ◌<◌, ◌^◌, min, List, [], ◌∷◌, true, false, Has, All, some, none, returns, panics, Fault,
  refl, suc, zero, get_elem?, get_elem?-some, ◌≡◌, arith, subst, sym,
}
use kiruna.Tpc.Set.Vec.{
  Strategy, ChildPlan, Memory, empty, write, fill, job, run_jobs, proposed, set_sync,
}
use kiruna.Tpc.Set.Vec.Plan.{Balanced, new-collect}
use kiruna.Tpc.Set.Vec.Fill.{run_jobs-fills}

-- `set_sync` builds the vector of a type whose drop does nothing: for a length and a request of jobs that are not 0, and for every order
-- in which the workers run its jobs, each of them at least once, it returns `len` slots that
-- hold the values that `f` builds for them, and has written to no other slot.
pub set_sync-builds {ℓ} :
    {O : Type ℓ} (f : ℕ → O) (cpus : ℕ) (s : Strategy) (len : ℕ) (order : List ℕ)
    → proposed cpus s < 2 ^ 32
    → 0 < len
    → 0 < proposed cpus s
    → All (λ i. i < min (proposed cpus s) len) order
    → ((i : ℕ) → i < min (proposed cpus s) len → Has i order)
    → (output : Memory O) × (set_sync false f cpus s len order ≡ returns (some (output, len)))
      × ((j : ℕ) → j < len → output j ≡ some (f j))
      × ((j : ℕ) → len ≤ j → output j ≡ none)
unfolding set_sync
set_sync-builds f cpus s len order h hl hp known each =
    let (p, plans, made, collected, count, tiles, balanced, work) =
      new-collect cpus s len h hl hp in
    let (output, ran, inside, outside) =
      run_jobs-fills f len plans order tiles (subst (λ n. All (λ i. i < n) order) (sym count) known)
        (λ i lt. each i (subst (λ n. i < n) count lt)) in
    (output, cc, inside, outside)

-- A job of a plan that is not empty, on memory that nothing was written to yet.
run_jobs-drops {ℓ} :
    {O : Type ℓ} (f : ℕ → O) (plans : List ChildPlan) (i : ℕ) (order : List ℕ) (p : ChildPlan)
    (n : ℕ)
    → get_elem? plans i ≡ some p
    → p.len ≡ suc n
    → run_jobs true f plans (i ∷ order) empty ≡ panics Fault.drop_of_uninitialised
unfolding run_jobs
run_jobs-drops f plans i order p n e q = rw (e, job, q, fill, write) refl

Balanced-some :
    (k : ℕ) (plans : List ChildPlan) (i : ℕ) (p : ChildPlan)
    → Balanced k plans
    → get_elem? plans i ≡ some p
    → k ≤ p.len
Balanced-some k [] i p b e = cc
Balanced-some k (q ∷ plans) zero p b e =
    let same : q ≡ p = cc in subst (λ r. k ≤ r.len) same (omega (arith, b.0))
Balanced-some k (q ∷ plans) (suc i) p b e = Balanced-some k plans i p b.1 e

positive : (n : ℕ) → 0 < n → (k : ℕ) × (n ≡ suc k)
positive zero h = absurd (omega arith)
positive (suc k) h = (k, refl)

-- For a type whose drop does something, `set_sync` never builds a vector: for a length and a request of
-- jobs that are not 0, whichever job comes first, its first assignment drops a value that nobody has
-- written, which is undefined behaviour.
pub set_sync-drops {ℓ} :
    {O : Type ℓ} (f : ℕ → O) (cpus : ℕ) (s : Strategy) (len first : ℕ) (order : List ℕ)
    → proposed cpus s < 2 ^ 32
    → 0 < len
    → 0 < proposed cpus s
    → first < min (proposed cpus s) len
    → set_sync true f cpus s len (first ∷ order) ≡ panics Fault.drop_of_uninitialised
unfolding set_sync
set_sync-drops f cpus s len first order h hl hp lt =
    let (p, plans, made, collected, count, tiles, balanced, work) =
      new-collect cpus s len h hl hp in
    let (plan, e) = get_elem?-some plans first (subst (λ n. first < n) (sym count) lt) in
    let (n, q) =
      positive plan.len (omega (arith, work, Balanced-some _ plans first plan balanced e)) in
    let ran = run_jobs-drops f plans first order plan n e q in cc
