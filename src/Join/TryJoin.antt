-- ===== src/Join/TryJoin.antt =====
-- join/src/lib.rs: `TryJoin2`, `try_join2` and `Error2`.
pub mod Laws
use kiruna.Base.{Poll, ready, pending, Result, ok, err, Outcome, returns, panics, Fault}
use kiruna.Join.Slot.{ReadyOrNot, future, finished}

-- The error of two joined futures.
pub data Error2 {ℓ} (A B : Type ℓ) : Type ℓ where
  of_a : A → Error2 A B
  of_b : B → Error2 A B

-- `Error2::merge`, where both errors are of one type.
pub merge {ℓ} : {A : Type ℓ} → Error2 A A → A
merge (of_a a) = a
merge (of_b a) = a

pub data TryJoin2 {ℓ} (F G A B : Type ℓ) : Type ℓ where
  polling : ReadyOrNot F A → ReadyOrNot G B → TryJoin2 F G A B
  done : TryJoin2 F G A B

-- What one `match ... poll(cx)` makes of a slot: a slot to go on with, or the early return, which
-- leaves the future that has failed in its slot.
pub data Tried {ℓ} (F A E : Type ℓ) : Type ℓ where
  settled : ReadyOrNot F A → Tried F A E
  failed : E → F → Tried F A E

abbrev pub attempt {ℓ} : {F A E : Type ℓ} → Poll (Result A E) × F → Tried F A E
attempt (ready (ok a), f) = settled (finished a)
attempt (ready (err e), f) = failed e f
attempt (pending, f) = settled (future f)

pub try_slot {ℓ κ} :
    {C : Type κ} {F A E : Type ℓ}
    → (C → F → Poll (Result A E) × F)
    → C
    → ReadyOrNot F A
    → Tried F A E
try_slot poll cx (future f) = attempt (poll cx f)
try_slot poll cx (finished a) = settled (finished a)

-- `TryJoin2::new`, which `try_join2` returns.
pub new {ℓ} : {F G A B : Type ℓ} → F → G → TryJoin2 F G A B
new a b = polling (future a) (future b)

module _ {ℓ} {F G A B D E : Type ℓ} where
  -- The final `match (a, b)` of the poll.
  pub finish :
      ReadyOrNot F A → ReadyOrNot G B → Poll (Result (A × B) (Error2 D E)) × TryJoin2 F G A B
  finish (finished a) (finished b) = (ready (ok (a, b)), done)
  finish (finished a) (future g) = (pending, polling (finished a) (future g))
  finish (future f) b = (pending, polling (future f) b)

  pub after_b : ReadyOrNot F A → Tried G B E → Poll (Result (A × B) (Error2 D E)) × TryJoin2 F G A B
  unfolding finish
  after_b a (failed e g) = (ready (err (of_b e)), polling a (future g))
  after_b a (settled b) = finish a b

  pub after_a :
      Tried F A D
      → ReadyOrNot G B
      → (ReadyOrNot G B → Tried G B E)
      → Poll (Result (A × B) (Error2 D E)) × TryJoin2 F G A B
  unfolding after_b
  after_a (failed e f) b try_b = (ready (err (of_a e)), polling (future f) b)
  after_a (settled a) b try_b = after_b a (try_b b)

module _ {ℓ κ} {C : Type κ} {F G A B D E : Type ℓ} (poll_a : C → F → Poll (Result A D) × F)
    (poll_b : C → G → Poll (Result B E) × G) where
  pub poll : C → TryJoin2 F G A B → Outcome (Poll (Result (A × B) (Error2 D E)) × TryJoin2 F G A B)
  unfolding after_a
  poll cx (polling a b) = returns (after_a (try_slot poll_a cx a) b (try_slot poll_b cx))
  poll cx done = panics Fault.polled_after_completion
