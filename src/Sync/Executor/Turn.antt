-- ===== src/Sync/Executor/Turn.antt =====
-- What one turn of the executor's loops costs, for futures that have only so many wakes to give.
use kiruna.Base.{
  ℕ, ◌+◌, ◌≤◌, ◌<◌, Option, none, some, Poll, ready, pending, returns, get_elem?, length, All,
  total, total-set, length-append, length-set, get_elem?-some, ◌≡◌, arith, refl, ◌∙◌,
}
use kiruna.Sync.Executor.{Polled, Executor, settle, do_a_wakeup}
use kiruna.Sync.Executor.Invariant.{IsValid, settle-IsValid}

-- Each wake that a poll gives is paid for by `weight`, and names one of the `n` tasks. A future that is
-- pending need not wake itself.
pub record Frugal {Fut : Type 0} (poll : ℕ → Fut → Polled Fut) (n : ℕ) (weight : Fut → ℕ)
    : Type 0 where
  pub known : (h : ℕ) (f : Fut) → All (λ i. i < n) (poll h f).woken
  pub pays :
      (h : ℕ) (f : Fut)
      → (poll h f).answer ≡ pending
      → weight (poll h f).future + length (poll h f).woken ≤ weight f
  pub pays_last :
      (h : ℕ) (f : Fut) → (poll h f).answer ≡ ready tt → length (poll h f).woken ≤ weight f

abbrev pub owes : {Fut : Type 0} → (Fut → ℕ) → Option Fut → ℕ
owes weight none = 0
owes weight (some f) = weight f

-- The messages that there are, and those that the tasks can still bring about.
abbrev pub cost : {Fut : Type 0} → (Fut → ℕ) → Executor Fut → ℕ
cost weight e = length e.channel + total (owes weight) e.tasks

module _ {Fut : Type 0} (poll : ℕ → Fut → Polled Fut) (n : ℕ) (weight : Fut → ℕ)
    (frugal : Frugal poll n weight) where
  pub settle-cost :
      (e : Executor Fut) (h : ℕ) (f : Fut)
      → get_elem? e.tasks h ≡ some (some f)
      → cost weight (settle e h (poll h f)) ≤ cost weight e
  unfolding settle
  settle-cost e h f q = go (poll h f).answer refl
    where
      go :
          (a : Poll (Unit {0}))
          → (poll h f).answer ≡ a
          → cost weight (settle e h (poll h f)) ≤ cost weight e
      go (ready x) eq =
          rw (eq, settle)
            (omega (
              arith,
              frugal.pays_last h f eq,
              length-append e.channel (poll h f).woken,
              total-set (owes weight) e.tasks h (some f) none q,
            ))
      go pending eq =
          rw (eq, settle)
            (omega (
              arith,
              frugal.pays h f eq,
              length-append e.channel (poll h f).woken,
              total-set (owes weight) e.tasks h (some f) (some (poll h f).future) q,
            ))

  pub settle-tasks :
      (e : Executor Fut) (h : ℕ) (p : Polled Fut) → length (settle e h p).tasks ≡ length e.tasks
  unfolding settle
  settle-tasks e h p =
      elim p.answer as (λ r. length (settle e h (record p { answer = r })).tasks ≡ length e.tasks) [
        | ready x ↦ length-set e.tasks h none
        | pending ↦ length-set e.tasks h (some p.future)
      ]

  -- One turn on a message that names a task.
  pub do_a_wakeup-cost :
      (e : Executor Fut) (h : ℕ)
      → h < length e.tasks
      → length e.tasks ≡ n
      → IsValid e
      → (e' : Executor Fut) × (do_a_wakeup poll e h ≡ returns e')
        × IsValid e'
        × (length e'.tasks ≡ n)
        × (cost weight e' ≤ cost weight e)
  unfolding do_a_wakeup
  do_a_wakeup-cost e h lt sized v = go (get_elem? e.tasks h) refl
    where
      go :
          (o : Option (Option Fut))
          → get_elem? e.tasks h ≡ o
          → (e' : Executor Fut) × (do_a_wakeup poll e h ≡ returns e')
            × IsValid e'
            × (length e'.tasks ≡ n)
            × (cost weight e' ≤ cost weight e)
      go none q = cc ((get_elem?-some e.tasks h lt).1)
      go (some none) q = (e, rw (q, do_a_wakeup), v, sized, omega arith)
      go (some (some f)) q = (
        settle e h (poll h f),
        rw (q, do_a_wakeup),
        settle-IsValid e h f (poll h f) q (rw sized (frugal.known h f)) v,
        settle-tasks e h (poll h f) ∙ sized,
        settle-cost e h f q,
      )
