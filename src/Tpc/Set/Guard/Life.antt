-- ===== src/Tpc/Set/Guard/Life.antt =====
-- The life of a guard of tpc/src/set.rs: polled until it is ready or panics, and dropped.
use kiruna.Base.{
  ℕ, zero, suc, ltb, leb, List, [], ◌∷◌, length, Bool, true, false, Poll, ready, pending, Outcome,
  returns, panics, Fault, ◌≡◌, refl, if◌then◌else◌,
}
use kiruna.Tpc.Set.Guard.{
  Effect, State, spawned, poll, poll_thunk, settled, set_scoped, drop, enforces, registers, spawns,
  invalid,
}

-- What a poll finds: the waker of its context, how many children the queue of the bin takes, and its
-- two loads.
pub record Reads : Type 0 where
  pub waker : ℕ
  pub room : ℕ
  pub first : ℕ
  pub second : ℕ

abbrev pub is_zero : ℕ → Bool
is_zero zero = true
is_zero (suc n) = false

-- Whether some poll finds that no child remains; the first poll has one load only.
abbrev pub sees_zero : List Reads → Bool
sees_zero [] = false
sees_zero (r ∷ rs) =
    if is_zero r.first then true else (if is_zero r.second then true else sees_zero rs)

abbrev pub finishes : List Reads → Bool
finishes [] = true
finishes (r ∷ rs) = if is_zero r.first then true else sees_zero rs

-- The panics that a guard of `n` tasks shall come to.
abbrev pub faults : ℕ → List Reads → List Fault
faults n [] = []
faults n (r ∷ rs) =
    if ltb n 0x1_0000_0000
    then (if leb n r.room
        then (if finishes (r ∷ rs) then [] else Fault.active_tasks ∷ [])
        else Fault.assertion ∷ Fault.unreachable ∷ [])
    else Fault.unwrap_err ∷ Fault.unreachable ∷ []

module _ (T : Type 0) where
  -- The drop of the guard, and its panic if there is one.
  abbrev dropped : State (List T) → List Fault
  dropped s = elim (drop s) [ returns u ↦ [] | panics e ↦ e ∷ [] ]

  -- A panic of a poll unwinds into the drop.
  abbrev goes_on :
      List Effect × (Outcome (Poll (Unit {0})) × State (List T))
      → (State (List T) → List Fault)
      → List Fault
  goes_on (effects, (returns (ready u), s)) rest = dropped s
  goes_on (effects, (returns pending, s)) rest = rest s
  goes_on (effects, (panics e, s)) rest = e ∷ dropped s

  -- An executor polls until the guard is ready or panics, or for as long as it wishes, and drops it. The
  -- panics that come of it, in order.
  abbrev pub run : List Reads → State (List T) → List Fault
  run [] s = dropped s
  run (r ∷ rs) s = goes_on (poll r.waker r.room r.first r.second s) (run rs)

  run-spawned :
      (rs : List Reads) → run rs spawned ≡ (if sees_zero rs then [] else Fault.active_tasks ∷ [])
  unfolding poll poll_thunk settled drop
  run-spawned [] = refl
  run-spawned (r ∷ rs) = go (run-spawned rs) r.waker r.room r.first r.second
    where
      go :
          run rs spawned ≡ (if sees_zero rs then [] else Fault.active_tasks ∷ [])
          → (w m f t : ℕ)
          → let rs' = record { waker = w; room = m; first = f; second = t } ∷ rs in
            run rs' spawned ≡ (if sees_zero rs' then [] else Fault.active_tasks ∷ [])
      go ih w m zero t = refl
      go ih w m (suc f) zero = refl
      go ih w m (suc f) (suc t) = ih

  pub run-set_scoped :
      (tasks : List T) (rs : List Reads) → run rs (set_scoped tasks) ≡ faults (length tasks) rs
  unfolding set_scoped poll poll_thunk settled drop
  run-set_scoped tasks [] = refl
  run-set_scoped tasks (r ∷ rs) =
      go (ltb (length tasks) 0x1_0000_0000) (leb (length tasks) r.room) r.first r.second
    where
      go :
          (small fits : Bool) (f t : ℕ)
          → goes_on
              (if small
                then (if fits
                    then (
                      enforces (length tasks) ∷ registers r.waker ∷ spawns (length tasks) ∷ [],
                      settled (poll_thunk f),
                    )
                    else (
                      enforces (length tasks) ∷ registers r.waker ∷ spawns r.room ∷ [],
                      (panics Fault.assertion, invalid),
                    ))
                else (
                  enforces (length tasks) ∷ registers r.waker ∷ [],
                  (panics Fault.unwrap_err, invalid),
                ))
              (run rs)
            ≡ (if small
                then (if fits
                    then (if (if is_zero f then true else sees_zero rs)
                        then []
                        else Fault.active_tasks ∷ [])
                    else Fault.assertion ∷ Fault.unreachable ∷ [])
                else Fault.unwrap_err ∷ Fault.unreachable ∷ [])
      go false fits f t = refl
      go true false f t = refl
      go true true zero t = refl
      go true true (suc f) t = run-spawned rs
