-- ===== src/Base/Driver.antt =====
-- A caller of a future: it polls with each context in turn and stops at the first `Ready`. `none`
-- says that the contexts ran out while the future was pending.
use mathlib.Core.Option.{Option, none, some}
use mathlib.Core.List.{List, [], ◌∷◌}
use kiruna.Base.Results.{Poll, ready, pending, Outcome, returns, panics}

pub carry_on {ℓ κ} :
    {J : Type ℓ} {R : Type κ} → Outcome (Poll R × J) → (J → Outcome (Option R)) → Outcome (Option R)
carry_on (returns (ready r, j)) rest = returns (some r)
carry_on (returns (pending, j)) rest = rest j
carry_on (panics e) rest = panics e

unfoldable pub drive {ℓ κ μ} :
    {C : Type μ} {J : Type ℓ} {R : Type κ}
    → (C → J → Outcome (Poll R × J))
    → List C
    → J
    → Outcome (Option R)
unfolding carry_on
drive poll [] j = returns none
drive poll (cx ∷ cs) j = carry_on (poll cx j) (drive poll cs)
