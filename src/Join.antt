-- ===== src/Join.antt =====
-- join/src/lib.rs: `join2` and the fail-fast `try_join2`. A future is any state with a poll
-- function, a parameter here; `C` is the `Context` that a poll passes on.
pub mod Slot
pub mod TryJoin
pub mod Laws
mod Tests
use kiruna.Base.{Poll, ready, pending, Outcome, returns, panics, Fault}
use Slot.{ReadyOrNot, future, finished, poll_slot}

pub data Join2 {ℓ} (F G A B : Type ℓ) : Type ℓ where
  polling : ReadyOrNot F A → ReadyOrNot G B → Join2 F G A B
  done : Join2 F G A B

module _ {ℓ} {F G A B : Type ℓ} where
  -- `Join2::new`, which `join2` returns.
  pub new : F → G → Join2 F G A B
  new a b = polling (future a) (future b)

  -- The final `match (a, b)` of the poll, with the `std::mem::replace`.
  pub finish : ReadyOrNot F A → ReadyOrNot G B → Poll (A × B) × Join2 F G A B
  finish (finished a) (finished b) = (ready (a, b), done)
  finish (finished a) (future g) = (pending, polling (finished a) (future g))
  finish (future f) b = (pending, polling (future f) b)

module _ {ℓ κ} {C : Type κ} {F G A B : Type ℓ} (poll_a : C → F → Poll A × F)
    (poll_b : C → G → Poll B × G) where
  pub poll : C → Join2 F G A B → Outcome (Poll (A × B) × Join2 F G A B)
  unfolding finish
  poll cx (polling a b) = returns (finish (poll_slot poll_a cx a) (poll_slot poll_b cx b))
  poll cx done = panics Fault.polled_after_completion
