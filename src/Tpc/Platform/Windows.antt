-- ===== src/Tpc/Platform/Windows.antt =====
-- tpc/src/platform/windows/semaphore.rs, over the calls of the system that it makes, which are an
-- interface.
use kiruna.Base.{
  ℕ, suc, ◌+◌, ◌-◌, ◌^◌, ◌<◌, ◌==◌, if◌then◌else◌, Option, none, some, Result, ok, err, Outcome,
  returns, panics, Fault, ◌≡◌, refl, arith,
}

-- A semaphore of the system has a count and a limit. `create` and `release` can answer with an error,
-- and `release` does not where the count is below the limit. `wait` takes a time in milliseconds and
-- is `none` where it does not end: it answers 0 and takes one from the count where that is above 0,
-- and otherwise ends with 258 at once for the time 0 and does not end for the time 2^32 - 1.
pub record WinSemaphore : Type 1 where
  pub State : Type 0
  pub count : State → ℕ
  pub limit : State → ℕ
  pub create : (initial most : ℕ) → Result State ℕ
  pub release : State → Result State ℕ
  pub wait : State → ℕ → Option (ℕ × State)
  pub create_lem : (n m : ℕ) (s : State) → create n m ≡ ok s → (count s ≡ n) × (limit s ≡ m)
  pub release_lem :
      (s : State)
      → count s < limit s
      → (t : State) × (release s ≡ ok t) × (count t ≡ count s + 1) × (limit t ≡ limit s)
  pub wait-suc :
      (s : State) (n time : ℕ)
      → count s ≡ suc n
      → (t : State) × (wait s time ≡ some (0, t)) × (count t ≡ n) × (limit t ≡ limit s)
  pub wait-now : (s : State) → count s ≡ 0 → wait s 0 ≡ some (258, s)
  pub wait-forever : (s : State) → count s ≡ 0 → wait s (2 ^ 32 - 1) ≡ none

-- `unwrap`
abbrev unwrapped : {A : Type 0} → Result A ℕ → Outcome A
unwrapped (ok a) = returns a
unwrapped (err e) = panics Fault.unwrap_err

unwrapped-returns : {A : Type 0} (r : Result A ℕ) (a : A) → unwrapped r ≡ returns a → r ≡ ok a
unwrapped-returns (ok b) a e = cc
unwrapped-returns (err n) a e = cc

-- The match of `decrement_immediate`; the inner `none` stands for `Err(())`.
unfoldable pub taken : {S : Type 0} → ℕ × S → Outcome (Option S)
taken (result, s) =
    if result == 0
    then returns (some s)
    else if result == 258
    then returns none
    else panics Fault.explicit_panic

-- The match of `wait_forever`.
unfoldable pub woken : {S : Type 0} → ℕ × S → Outcome S
woken (result, s) = if result == 0 then returns s else panics Fault.explicit_panic

module _ (w : WinSemaphore) where
  -- `Semaphore::new`, with the limit `i32::MAX`
  unfoldable pub new : Outcome w.State
  new = unwrapped (w.create 0 (2 ^ 31 - 1))

  -- `signal`
  unfoldable pub signal : w.State → Outcome w.State
  signal s = unwrapped (w.release s)

  -- `decrement_immediate`; the outer `none` says that it has not ended.
  unfoldable pub decrement_immediate : w.State → Option (Outcome (Option w.State))
  decrement_immediate s = elim (w.wait s 0) [ none ↦ none | some answer ↦ some (taken answer) ]

  -- `wait_forever`; `none` says that it sleeps.
  unfoldable pub wait_forever : w.State → Option (Outcome w.State)
  wait_forever s = elim (w.wait s (2 ^ 32 - 1)) [ none ↦ none | some answer ↦ some (woken answer) ]

  -- Below the limit a signal adds one to the count, and a thread that then waits, in either way, does
  -- not sleep, does not panic and leaves the count as it was before the signal.
  signal-wakes :
      (s : w.State)
      → w.count s < w.limit s
      → (t : w.State) × (signal s ≡ returns t)
        × (w.count t ≡ w.count s + 1)
        × ((u : w.State) × (wait_forever t ≡ some (returns u)) × (w.count u ≡ w.count s))
        × ((u : w.State) × (decrement_immediate t ≡ some (returns (some u)))
            × (w.count u ≡ w.count s))
  unfolding signal wait_forever decrement_immediate taken woken
  signal-wakes s below =
      let (t, released, one_more, kept) = w.release_lem s below in
      let raised : w.count t ≡ suc (w.count s) = omega arith in
      let (u, answers, back, _) = w.wait-suc t (w.count s) (2 ^ 32 - 1) raised in
      let (v, answers', back', _) = w.wait-suc t (w.count s) 0 raised in
      (
        t,
        rw released refl,
        one_more,
        (u, rw (wait_forever, answers) refl, back),
        (v, rw (decrement_immediate, answers') refl, back'),
      )

  -- On the count 0, `decrement_immediate` gives the error and `wait_forever` sleeps.
  empty-sleeps :
      (s : w.State)
      → w.count s ≡ 0
      → (decrement_immediate s ≡ some (returns none)) × (wait_forever s ≡ none)
  unfolding wait_forever decrement_immediate taken woken
  empty-sleeps s z =
      (rw (decrement_immediate, w.wait-now s z) refl, rw (wait_forever, w.wait-forever s z) refl)

  -- A new semaphore has the count 0 and the limit 2^31 - 1.
  new_lem : (s : w.State) → new ≡ returns s → (w.count s ≡ 0) × (w.limit s ≡ 2 ^ 31 - 1)
  unfolding new
  new_lem s e = w.create_lem 0 (2 ^ 31 - 1) s (unwrapped-returns (w.create 0 (2 ^ 31 - 1)) s e)
