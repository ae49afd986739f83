-- ===== src/Base/AtomicWaker.antt =====
-- The cell of the crate atomic_waker: it holds the waker that was registered last, until a wake takes
-- it out. A waker is a number.
use Prim.Native.Nat.{ℕ}
use mathlib.Core.Path.{◌≡◌}
use mathlib.Core.Option.{Option, none, some}

pub record AtomicWaker : Type 1 where
  pub State : Type 0
  pub held : State → Option ℕ
  pub new : State
  pub register : ℕ → State → State
  pub take : State → State  -- what `wake` leaves, having woken what is held
  pub held-new : held new ≡ none
  pub held-register : (w : ℕ) (s : State) → held (register w s) ≡ some w
  pub held-take : (s : State) → held (take s) ≡ none
