-- ===== src/Sync/Executor.antt =====
-- src/sync/executor.rs and src/sync/task.rs. A future is any state with a poll function, a
-- parameter: a poll is given the task's own waker and says what it answers, what the future
-- becomes, and whose wakers it wakes meanwhile. A waker is `Wake`: its handle, and the sending half
-- of the executor's one channel, so that it is told apart by the handle. The 16-bit sums wrap, as
-- in a release build.
pub mod Invariant
pub mod Drain
pub mod Finish
pub mod Overflow
pub mod Some
pub mod Turn
mod Tests
use kiruna.Base.{
  ℕ, zero, suc, ◌+◌, u16, ◌==◌, if◌then◌else◌, List, [], ◌∷◌, ◌++◌, Option, none, some, Poll, ready,
  pending, Outcome, returns, panics, Fault, ◌>>=◌, get_elem?, length, set,
}

pub record Polled (Fut : Type 0) : Type 0 where
  pub answer : Poll (Unit {0})
  pub future : Fut
  pub woken : List ℕ

-- `channel` holds what `Receiver<Handle>` has not given out yet, oldest first. `spawner` and
-- `local_spawner` are its sending halves.
pub record Executor (Fut : Type 0) : Type 0 where
  pub channel : List ℕ
  pub tasks : List (Option Fut)
  pub num_active : ℕ

-- What `Executor::drain` comes to: it returns, it waits for ever in `recv` (the executor holds a
-- sending half itself, so the channel never closes), or the fuel ran out.
pub data Drained (Fut : Type 0) : Type 0 where
  drained blocked out_of_fuel : Executor Fut → Drained Fut

module _ {Fut : Type 0} where
  -- `Executor::new`
  pub new : Executor Fut
  new = record { channel = []; tasks = []; num_active = 0 }

  -- `std::task::Wake::wake` of `Wake { handle, channel }`: `self.channel.new_channel().send(..)`.
  pub wake : Executor Fut → ℕ → Executor Fut
  wake e handle = record e { channel = e.channel ++ (handle ∷ []) }

  -- `Executor::spawn`
  pub spawn : Executor Fut → Fut → Executor Fut
  spawn e future =
      let new_handle = u16 (length e.tasks) in
      record {
        channel = e.channel ++ (new_handle ∷ []);
        tasks = e.tasks ++ (some future ∷ []);
        num_active = u16 (e.num_active + 1);
      }

  -- The poll of a task that is there, and what follows from its answer.
  pub settle : Executor Fut → ℕ → Polled Fut → Executor Fut
  settle e handle p = elim p.answer [
    | ready _ ↦ record {
      channel = e.channel ++ p.woken;
      tasks = set e.tasks handle none;
      num_active = u16 (e.num_active + 0xffff);
    }
    | pending ↦ record {
      channel = e.channel ++ p.woken;
      tasks = set e.tasks handle (some p.future);
      num_active = e.num_active;
    }
  ]

  -- `recv`: the oldest message and the executor without it, if there is one.
  pub recv : Executor Fut → Option (ℕ × Executor Fut)
  recv e = elim e.channel [ [] ↦ none | handle ∷ rest ↦ some (handle, record e { channel = rest }) ]

module _ {Fut : Type 0} (poll : ℕ → Fut → Polled Fut) where
  -- `Executor::do_a_wakeup`: indexing panics out of range, and a finished task is passed over.
  pub do_a_wakeup : Executor Fut → ℕ → Outcome (Executor Fut)
  unfolding settle
  do_a_wakeup e handle = elim (get_elem? e.tasks handle) [
    | none ↦ panics Fault.index_out_of_bounds
    | some none ↦ returns e
    | some (some task) ↦ returns (settle e handle (poll handle task))
  ]

  -- The loop of `Executor::do_some`; `none` says that the fuel ran out.
  pub do_some : ℕ → Executor Fut → Outcome (Option (Executor Fut))
  do_some zero e = returns none
  do_some (suc fuel) e = elim (recv e) [
    | none ↦ returns (some e)
    | some (handle, e') ↦ do_a_wakeup e' handle >>= do_some fuel
  ]

  -- The loop of `Executor::drain`
  pub drain_loop : ℕ → Executor Fut → Outcome (Drained Fut)
  drain_loop zero e = returns (out_of_fuel e)
  drain_loop (suc fuel) e = elim (recv e) [
    | none ↦ returns (blocked e)
    | some (handle, e') ↦ do_a_wakeup e' handle >>= λ e''.
        let rest = drain_loop fuel e'' in
        if e''.num_active == 0 then returns (drained e'') else rest
  ]

  pub drain : ℕ → Executor Fut → Outcome (Drained Fut)
  unfolding drain_loop
  drain fuel e =
      let rest = drain_loop fuel e in if e.num_active == 0 then returns (drained e) else rest
