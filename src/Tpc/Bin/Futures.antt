-- ===== src/Tpc/Bin/Futures.antt =====
-- tpc/src/bin.rs: the futures themselves on a worker. A message `work i` points to the `OurFuture`
-- with the number `i`; the poll of the future that it wraps is a parameter.
pub mod Standing
pub mod Finish
pub mod Spawned
mod Tests
use kiruna.Base.{
  ℕ, zero, suc, ◌==◌, if◌then◌else◌, Bool, false, List, [], ◌∷◌, Poll, pending, Outcome, returns,
  ◌>>=◌,
}
use kiruna.Tpc.Channel.Platform.{Semaphore, ArrayQueue}
use kiruna.Tpc.Bin.{ThreadMessage, work, runs, polls, stays, shuts_down, sleeps, Bin, send_to, turn}

-- What a poll comes to, and how often a waker of the future has been woken in it.
pub record Polled (F : Type 0) : Type 0 where
  pub answer : Poll (Unit {0})
  pub future : F
  pub wakes : ℕ

pub record OurFuture (F : Type 0) : Type 0 where
  pub underlying : F
  pub locked : Bool

-- `OurFuture::new`
unfoldable pub new : {F : Type 0} → F → OurFuture F
new future = record { underlying = future; locked = false }

-- `OurFuture::poll`, by a worker that nobody else disturbs.
unfoldable pub poll_ours :
    {F : Type 0} → (F → Outcome (Polled F)) → OurFuture F → Outcome (Polled (OurFuture F))
poll_ours poll f =
    if f.locked
    then returns (record { answer = pending; future = f; wakes = 1 })
    else poll f.underlying >>= λ p. returns (record {
      answer = p.answer;
      future = record { underlying = p.future; locked = false };
      wakes = p.wakes;
    })

abbrev pub update : {F : Type 0} → ℕ → OurFuture F → (ℕ → OurFuture F) → (ℕ → OurFuture F)
update i f futures = λ j. if i == j then f else futures j

module _ (S : Semaphore) {Job : Type 0} (Q : ArrayQueue (ThreadMessage Job)) where
  -- `UserWaitingBinWaker::wake`, so many times.
  unfoldable pub wake_times : ℕ → ℕ → Bin S Q → Outcome (Bin S Q)
  wake_times zero future b = returns b
  wake_times (suc n) future b = send_to S Q 0 (work future) b >>= wake_times n future

module _ (S : Semaphore) {Job : Type 0} (Q : ArrayQueue (ThreadMessage Job)) {F : Type 0}
    (poll : F → Outcome (Polled F)) where
  pub record Machine : Type 0 where
    pub bin : Bin S Q
    pub futures : ℕ → OurFuture F

  -- What the worker does with `ThreadMessage::Work`.
  unfoldable pub perform : ℕ → Machine → Outcome Machine
  perform i w = poll_ours poll (w.futures i) >>= λ p. wake_times S Q p.wakes i w.bin >>= λ b.
      returns (record { bin = b; futures = update i p.future w.futures })

  -- So many turns of the worker, up to where it sleeps, with the futures that it polls.
  unfoldable pub rounds : ℕ → Machine → Outcome (List ℕ × Machine)
  rounds zero w = returns ([], w)
  rounds (suc n) w = turn S Q false w.bin >>= elim [
    | polls i b ↦ perform i (record w { bin = b }) >>= λ w'.
        rounds n w' >>= λ (is, w''). returns (i ∷ is, w'')
    | runs job b ↦ rounds n (record w { bin = b })
    | stays b ↦ rounds n (record w { bin = b })
    | shuts_down b ↦ returns ([], record w { bin = b })
    | sleeps ↦ returns ([], w)
  ]
