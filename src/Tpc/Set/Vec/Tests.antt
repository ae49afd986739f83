-- ===== src/Tpc/Set/Vec/Tests.antt =====
-- Plans and runs of small vectors.
use kiruna.Base.{
  ℕ, zero, suc, ◌*◌, ◌/◌, ◌≤◌, ◌<◌, min, List, [], ◌∷◌, true, false, some, none, returns, panics,
  Fault, length, Has, ◌≡◌, ◌↔◌, ◌⊎◌, inl, inr, arith, refl,
}
use kiruna.Tpc.Set.Vec.{
  jobs, ChildPlan, ChildPlanner, proposed, new, next, collect, Memory, set_sync,
}
use kiruna.Tpc.Set.Vec.Plan.{Tiles, Balanced, new-panics_iff, new-collect}
use kiruna.Tpc.Set.Vec.Build.{set_sync-builds, set_sync-drops}

abbrev five_of_three : List ChildPlan
five_of_three =
    record { base_offset = 0; len = 2 }
    ∷ record { base_offset = 2; len = 2 }
    ∷ record { base_offset = 4; len = 1 }
    ∷ []

collect_run : collect 4 (record { i = 0; k = 1; m = 2; target_jobs = 3 }) ≡ some five_of_three
unfolding collect next
collect_run = refl

new-panics_iff_example :
    (new 4 (jobs 3) 0 ≡ panics Fault.division_by_zero)
    ↔ ((◌≡◌ {A = ℕ} 0 0) ⊎ (proposed 4 (jobs 3) ≡ 0))
unfolding proposed
new-panics_iff_example = new-panics_iff 4 (jobs 3) 0 (omega arith)

new-collect_example :
    (p : ChildPlanner) × (plans : List ChildPlan) × (new 4 (jobs 3) 5 ≡ returns p)
    × (collect (suc p.target_jobs) p ≡ some plans)
    × (length plans ≡ min (proposed 4 (jobs 3)) 5)
    × Tiles 0 5 plans
    × Balanced (5 / length plans) plans
    × (0 < 5 / length plans)
unfolding proposed
new-collect_example = new-collect 4 (jobs 3) 5 (omega arith) (omega arith) (omega arith)

each_job : (i : ℕ) → i < 3 → Has i (2 ∷ 0 ∷ 1 ∷ [])
each_job zero h = inr (inl refl)
each_job (suc zero) h = inr (inr (inl refl))
each_job (suc (suc zero)) h = inl refl
each_job (suc (suc (suc i))) h = absurd (omega arith)

set_sync-builds_example :
    (output : Memory ℕ) × (set_sync false (λ i. i * i) 4 (jobs 3) 5 (2 ∷ 0 ∷ 1 ∷ [])
      ≡ returns (some (output, 5)))
    × ((j : ℕ) → j < 5 → output j ≡ some (j * j))
    × ((j : ℕ) → 5 ≤ j → output j ≡ none)
unfolding proposed
set_sync-builds_example =
    set_sync-builds (λ i. i * i) 4 (jobs 3) 5 (2 ∷ 0 ∷ 1 ∷ []) (omega arith) (omega arith)
      (omega arith) (omega arith) each_job

set_sync-drops_example :
    set_sync true (λ i. i * i) 4 (jobs 3) 5 (2 ∷ 0 ∷ 1 ∷ []) ≡ panics Fault.drop_of_uninitialised
unfolding proposed
set_sync-drops_example =
    set_sync-drops (λ i. i * i) 4 (jobs 3) 5 2 (0 ∷ 1 ∷ []) (omega arith) (omega arith)
      (omega arith) (omega arith)
