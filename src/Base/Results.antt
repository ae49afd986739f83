-- ===== src/Base/Results.antt =====
-- What a call comes to: a value, or a panic. `Poll` is `std::task::Poll`, and `Result` is
-- `std::result::Result`.
use mathlib.Core.Path.{◌≡◌, refl}

pub data Poll {ℓ} (A : Type ℓ) : Type ℓ where
  ready : A → Poll A
  pending : Poll A

pub data Result {ℓ κ} (A : Type ℓ) (E : Type κ) : Type (ℓ ⊔ κ) where
  ok : A → Result A E
  err : E → Result A E

-- The panics of the source, by the call that makes them.
pub data Fault : Type 0 where
  polled_after_completion assertion unwrap_none unwrap_err division_by_zero index_out_of_bounds :
      Fault
  no_element todo unreachable already_done active_tasks explicit_panic drop_of_uninitialised : Fault

-- A value, or the reason of a panic. `drop_of_uninitialised` is undefined behaviour rather than a panic;
-- nothing is claimed of what follows it.
pub data Outcome {ℓ} (A : Type ℓ) : Type ℓ where
  returns : A → Outcome A
  panics : Fault → Outcome A

infixl 5 ◌>>=◌
abbrev pub ◌>>=◌ {ℓ κ} : {A : Type ℓ} {B : Type κ} → Outcome A → (A → Outcome B) → Outcome B
returns a >>= f = f a
panics e >>= f = panics e

-- Inversion of a chain that returns.
pub >>=-eq-returns {ℓ κ} :
    {A : Type ℓ} {B : Type κ} (m : Outcome A) (f : A → Outcome B) {b : B}
    → (m >>= f) ≡ returns b
    → (a : A) × (m ≡ returns a) × (f a ≡ returns b)
>>=-eq-returns (returns a) f h = (a, refl, h)
>>=-eq-returns (panics e) f h = cc

-- A chain goes on alike where its continuations agree.
pub >>=-congr {ℓ κ} :
    {A : Type ℓ} {B : Type κ} (m : Outcome A) (f g : A → Outcome B)
    → ((a : A) → f a ≡ g a)
    → (m >>= f) ≡ (m >>= g)
>>=-congr (returns a) f g h = h a
>>=-congr (panics e) f g h = refl
