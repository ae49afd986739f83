-- ===== src/Tpc/Set/Guard/Jobs.antt =====
-- What the polls of a `SimpleGuard` and the ends of the children of tpc/src/set.rs do in all.
use kiruna.Base.{
  ℕ, zero, suc, ◌+◌, ◌<◌, ◌^◌, u32, ◌==◌, List, [], ◌∷◌, ◌++◌, map, Bool, true, false, Poll, ready,
  Outcome, returns, ◌>>=◌, ◌≡◌, refl, ap, ◌∙◌, arith, ne→==,
}
use kiruna.Tpc.Set.Guard.{
  finish_one, child_poll, Effect, enforces, registers, spawns, SimpleGuard, set_simple_scoped,
  simple_poll,
}

-- The effects of polls, each with its waker and with what its load reads.
abbrev pub simple_effects : List (ℕ × ℕ) → SimpleGuard → List Effect
simple_effects [] g = []
simple_effects ((waker, remaining) ∷ polls) g =
    let (effects, (a, g')) = simple_poll waker remaining g in effects ++ simple_effects polls g'

simple_effects-spawned :
    (polls : List (ℕ × ℕ)) (jobs : ℕ)
    → simple_effects polls (record { jobs = jobs; spawned = true }) ≡ map (λ p. registers p.0) polls
unfolding simple_poll
simple_effects-spawned [] jobs = refl
simple_effects-spawned (p ∷ polls) jobs =
    ap (◌∷◌ (registers p.0)) (simple_effects-spawned polls jobs)

-- However often a guard of `set_simple_scoped` is polled, its jobs are spawned once, by the first poll
-- and after the threads for them are asked for; every poll, the first one too, then registers its
-- waker.
pub simple_effects-spawns :
    (jobs : ℕ) (p : ℕ × ℕ) (polls : List (ℕ × ℕ))
    → simple_effects (p ∷ polls) (set_simple_scoped jobs).0
      ≡ enforces jobs ∷ spawns jobs ∷ registers p.0 ∷ map (λ q. registers q.0) polls
unfolding simple_poll set_simple_scoped
simple_effects-spawns jobs p polls =
    ap (λ es. enforces jobs ∷ spawns jobs ∷ registers p.0 ∷ es) (simple_effects-spawned polls jobs)

-- One wake, by the last child.
abbrev pub wakes_of : ℕ → List Bool
wakes_of zero = []
wakes_of (suc zero) = true ∷ []
wakes_of (suc (suc n)) = false ∷ wakes_of (suc n)

module _ {F C : Type 0} (poll : C → F → Poll (Unit {0}) × F) where
  -- The children are polled in turn: the counter at the end, and which of them wake.
  abbrev pub poll_children : C → ℕ → List F → Outcome (ℕ × List Bool)
  poll_children cx remaining [] = returns (remaining, [])
  poll_children cx remaining (f ∷ fs) =
      child_poll poll cx remaining (record { inner = f; done = false }) >>= λ (l, c).
      poll_children cx l.children_remaining fs >>= λ (n, ws). returns (n, l.wakes ∷ ws)

  -- The future is ready at its first poll.
  abbrev pub Immediate : C → F → Type 0
  Immediate cx f = (poll cx f).0 ≡ ready tt

  abbrev pub AllImmediate : C → List F → Type 0
  AllImmediate cx [] = Unit
  AllImmediate cx (f ∷ fs) = Immediate cx f × AllImmediate cx fs

  abbrev pub count : List F → ℕ
  count [] = 0
  count (f ∷ fs) = suc (count fs)

  -- What is left of a round after one child, which found `remaining`.
  abbrev rest : ℕ → Outcome (ℕ × List Bool) → Outcome (ℕ × List Bool)
  rest remaining o = o >>= λ (n, ws). returns (n, (remaining == 1) ∷ ws)

  poll_children-cons :
      (cx : C) (remaining : ℕ) (f : F) (fs : List F)
      → Immediate cx f
      → poll_children cx remaining (f ∷ fs)
        ≡ rest remaining (poll_children cx (u32 (remaining + 0xffffffff)) fs)
  unfolding child_poll finish_one
  poll_children-cons cx remaining f fs h = rw (child_poll, h) refl

  -- Children that are ready at their first poll bring the counter from their number to 0 without a
  -- panic, and exactly the last of them wakes. There are fewer than 2^32 of them.
  pub poll_children-wakes :
      (cx : C) (fs : List F)
      → count fs < 2 ^ 32
      → AllImmediate cx fs
      → poll_children cx (count fs) fs ≡ returns (0, wakes_of (count fs))
  unfolding child_poll finish_one
  poll_children-wakes cx [] small h = refl
  poll_children-wakes cx (f ∷ []) small h = rw (child_poll, h.0) refl
  poll_children-wakes cx (f ∷ g ∷ fs) small h =
      let n = count (g ∷ fs) in
      let one_less : u32 (suc n + 0xffffffff) ≡ n = omega arith in
      let more : (suc n == 1) ≡ false = ne→== (suc n) 1 (λ z. omega (arith, z)) in
      poll_children-cons cx (suc n) f (g ∷ fs) h.0
      ∙ ap (λ r. rest (suc n) (poll_children cx r (g ∷ fs))) one_less
      ∙ ap (rest (suc n)) (poll_children-wakes cx (g ∷ fs) (omega (arith, small)) h.1)
      ∙ ap (λ b. returns (0, b ∷ wakes_of n)) more
