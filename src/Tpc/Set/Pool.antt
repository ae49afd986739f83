-- ===== src/Tpc/Set/Pool.antt =====
-- The polls of `SimpleGuard` of tpc/src/set.rs with the bin of tpc/src/bin.rs that runs its jobs.
pub mod Build
mod Tests
use kiruna.Base.{
  ℕ, zero, suc, ◌+◌, List, [], ◌∷◌, map, Outcome, returns, ◌>>=◌, ◌≡◌, refl, >>=-congr,
}
use kiruna.Base.Priority.{Priority}
use kiruna.Tpc.Channel.Platform.{Semaphore, ArrayQueue}
use kiruna.Tpc.Bin.{
  ThreadMessage, simple, Bin, enforce, send_each, spawn_simple_without_hint, with_bin, send_to,
}
use kiruna.Tpc.Set.Guard.{Leaves, finish_one, Effect, enforces, registers, spawns}

-- `for job in 0..mut_self.jobs`: so many numbers, from the second argument on.
unfoldable pub numbers : ℕ → ℕ → List ℕ
numbers zero job = []
numbers (suc n) job = job ∷ numbers n (job + 1)

-- `new_job`, for a `job_creator` that changes a store `M`, with the counter that it finds.
unfoldable pub new_job {ℓ} : {M : Type ℓ} → (ℕ → M → Outcome M) → ℕ → M × ℕ → Outcome (M × Leaves)
new_job job_creator job (m, remaining) =
    job_creator job m >>= λ m'. returns (m', finish_one remaining)

module _ (S : Semaphore) (Q : ArrayQueue (ThreadMessage ℕ)) where
  -- The loop that spawns the jobs; a job is named by its number.
  unfoldable pub spawn_jobs : List ℕ → Bin S Q → Outcome (Bin S Q)
  spawn_jobs [] b = returns b
  spawn_jobs (job ∷ jobs) b = spawn_simple_without_hint S Q job b >>= spawn_jobs jobs

  -- What an effect of a poll does to the bin. The waker of the guard is outside of it.
  unfoldable pub perform : Effect → Bin S Q → Outcome (Bin S Q)
  perform (enforces coming_soon) b = returns (enforce S Q coming_soon b)
  perform (spawns children) b = spawn_jobs (numbers children 0) b
  perform (registers waker) b = returns b

  unfoldable pub perform_all : List Effect → Bin S Q → Outcome (Bin S Q)
  perform_all [] b = returns b
  perform_all (e ∷ effects) b = perform e b >>= perform_all effects

  -- The effects of a poll on the bin of the priority, `Executor::global().bin_for(priority)`.
  unfoldable pub polled : Priority → List Effect → Bin S Q → Outcome (Bin S Q)
  polled priority effects b = with_bin S Q priority (perform_all effects) b

  pub spawn_jobs-send_each :
      (jobs : List ℕ) (b : Bin S Q) → spawn_jobs jobs b ≡ send_each S Q (map simple jobs) b
  unfolding spawn_jobs send_each spawn_simple_without_hint
  spawn_jobs-send_each [] b = refl
  spawn_jobs-send_each (job ∷ jobs) b =
      >>=-congr (send_to S Q 1 (simple job) b) (spawn_jobs jobs) (send_each S Q (map simple jobs))
        (spawn_jobs-send_each jobs)
