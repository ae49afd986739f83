-- ===== src/Stream/Overlapped.antt =====
-- stream/src/windows/overlapped.rs: the future of an overlapped operation, and its child on the
-- thread pool. A payload is given by its two operations, which see what the system tells them; the
-- mutex of `Shared` makes each function here one step.
pub mod Completion
use kiruna.Base.{
  ℕ, List, [], ◌∷◌, ◌++◌, Option, none, some, Poll, ready, pending, Outcome, returns, panics, Fault,
  ◌>>=◌,
}

pub data PolledResult (R : Type 0) : Type 0 where
  poll : Poll R → PolledResult R
  gone : PolledResult R

-- `PolledResult::maybe_take`
unfoldable pub maybe_take : {R : Type 0} → PolledResult R → Outcome (Option R × PolledResult R)
maybe_take (poll (ready r)) = returns (some r, gone)
maybe_take (poll pending) = returns (none, poll pending)
maybe_take gone = panics Fault.explicit_panic

pub record Shared (R : Type 0) : Type 0 where
  pub waker : ℕ
  pub result : PolledResult R

-- The state of `Parent`; the `Arc` of a polled one is in `Operation`.
pub data State (P : Type 0) : Type 0 where
  not_polled : P → State P
  polled : State P

-- Where the child is: not made yet, waiting for the thread pool, in the hands of the system, or
-- dropped.
pub data Child (P : Type 0) : Type 0 where
  absent : Child P
  queued : P → Child P
  started : P → Child P
  dropped : Child P

pub record Operation (P R : Type 0) : Type 0 where
  pub state : State P
  pub shared : Option (Shared R)
  pub child : Child P
  pub woken : List ℕ

module _ {P R : Type 0} where
  -- `Parent::new`
  unfoldable pub new : P → Operation P R
  new payload = record { state = not_polled payload; shared = none; child = absent; woken = [] }

  -- The poll of a parent that was polled before.
  unfoldable pub poll_shared :
      ℕ → Operation P R → Option (Shared R) → Outcome (Poll R × Operation P R)
  poll_shared waker o none = panics Fault.unreachable
  poll_shared waker o (some s) = maybe_take s.result >>= λ (taken, result). elim taken [
    | none ↦
        returns (pending, record o { shared = some (record { waker = waker; result = result }) })
    | some r ↦ returns (ready r, record o { shared = some (record s { result = result }) })
  ]

  -- `Parent::poll`
  unfoldable pub poll_parent : ℕ → Operation P R → Outcome (Poll R × Operation P R)
  poll_parent waker o = elim o.state [
    | not_polled payload ↦ returns (
      pending,
      record o {
        state = polled;
        shared = some (record { waker = waker; result = poll pending });
        child = queued payload;
      },
    )
    | polled ↦ poll_shared waker o o.shared
  ]

  -- `Child::ready`, and the drop of its box.
  unfoldable pub deliver : R → Operation P R → Operation P R
  deliver r o = elim o.shared [
    | none ↦ o
    | some s ↦ record o {
      shared = some (record s { result = poll (ready r) });
      child = dropped;
      woken = o.woken ++ (s.waker ∷ []);
    }
  ]

  -- What the child does with the answer of its payload.
  unfoldable pub went : Poll R × P → Operation P R → Operation P R
  went (ready r, p) o = deliver r o
  went (pending, p) o = record o { child = started p }

-- What the system does next for the child: the thread pool runs `Child::begin_op`, or `completion`
-- is called back.
module _ {E P R : Type 0} (begin_op resume_op : E → P → Poll R × P) where
  unfoldable pub proceed : E → Operation P R → Operation P R
  proceed e o = elim o.child [
    | absent ↦ o
    | queued p ↦ went (begin_op e p) o
    | started p ↦ went (resume_op e p) o
    | dropped ↦ o
  ]
