-- ===== src/Tpc/Set/Pool/Tests.antt =====
-- A vector of five squares, in three jobs on the pool.
use kiruna.Base.{
  ℕ, suc, ◌*◌, ◌≤◌, ◌<◌, List, [], ◌∷◌, map, length, some, none, ready, false, returns, ◌≡◌, refl,
  arith,
}
use kiruna.Base.Priority.{testing}
use kiruna.Tpc.Global
use kiruna.Tpc.Channel.Platform.{ArrayQueue}
use kiruna.Tpc.Channel.Instance.{counter, list_queue}
use kiruna.Tpc.Bin.{ThreadMessage, simple, Bin, turn, sleeps, user_waiting_bin}
use kiruna.Tpc.Bin.Spawning.Drain.{turns}
use kiruna.Tpc.Set.Guard.{set_simple_scoped, simple_poll}
use kiruna.Tpc.Set.Guard.Jobs.{wakes_of}
use kiruna.Tpc.Set.Pool.{numbers, polled}
use kiruna.Tpc.Set.Pool.Build.{new_jobs, set_sync-on_pool}
use kiruna.Tpc.Set.Vec.{jobs, ChildPlan, ChildPlanner, proposed, new, collect, Memory, empty, job}

numbers_run : numbers 3 0 ≡ 0 ∷ 1 ∷ 2 ∷ []
unfolding numbers
numbers_run = refl

abbrev queue : ArrayQueue (ThreadMessage ℕ)
queue = list_queue

set_sync-on_pool_example :
    (planner : ChildPlanner) × (plans : List ChildPlan) × (b b' : Bin counter queue)
    × (output : Memory ℕ) × (new 4 (jobs 3) 5 ≡ returns planner)
    × (collect (suc planner.target_jobs) planner ≡ some plans)
    × (polled counter queue testing
          (simple_poll 7 3 (set_simple_scoped (length plans)).0).0
          (user_waiting_bin counter queue (Global.new 4))
        ≡ returns b)
    × (turns counter queue (length plans) b ≡ returns (map simple (numbers (length plans) 0), b'))
    × (turn counter queue false b' ≡ returns sleeps)
    × (new_jobs
          (job false (λ i. i * i) plans)
          (numbers (length plans) 0)
          (empty, (set_simple_scoped (length plans)).1)
        ≡ returns ((output, 0), wakes_of (length plans)))
    × ((again : ℕ)
        → (simple_poll again 0 (simple_poll 7 3 (set_simple_scoped (length plans)).0).1.1).1.0
          ≡ ready tt)
    × ((j : ℕ) → j < 5 → output j ≡ some (j * j))
    × ((j : ℕ) → 5 ≤ j → output j ≡ none)
unfolding proposed
set_sync-on_pool_example =
    set_sync-on_pool counter queue (λ i. i * i) 4 (jobs 3) 5 testing (Global.new 4) 7 3
      (omega arith) (omega arith) (omega arith)
