-- ===== src/Tpc/Platform/Sources.antt =====
-- tpc/src/platform/macos/timer.rs: the calls that `Timer::new` makes of dispatch. Durations are in
-- nanoseconds.
use kiruna.Base.{
  ℕ, List, [], ◌∷◌, Option, none, some, Outcome, returns, panics, Fault, ◌≡◌, ◌↔◌, refl, ap, sym,
}

-- What dispatch has: its global queue of background priority, and `try_into` into its type of times;
-- `none` is a failure.
pub record Dispatch : Type 1 where
  pub Queue : Type 0
  pub Time : Type 0
  pub background : Option Queue
  pub time : ℕ → Option Time

pub data Call (d : Dispatch) : Type 0 where
  created : d.Queue → Call d
  timed : (interval leeway : d.Time) → Call d
  handled resumed : Call d

module _ (d : Dispatch) where
  -- `Timer::new`, from what its three `unwrap` calls are given.
  unfoldable pub start :
      Option d.Queue → (interval leeway : Option d.Time) → Outcome (List (Call d))
  start none i l = panics Fault.unwrap_none
  start (some queue) none l = panics Fault.unwrap_err
  start (some queue) (some i) none = panics Fault.unwrap_err
  start (some queue) (some i) (some l) =
      returns (created queue ∷ timed i l ∷ handled ∷ resumed ∷ [])

  -- `Timer::new`, with the calls that it makes where it returns.
  unfoldable pub new : (interval leeway : ℕ) → Outcome (List (Call d))
  unfolding start
  new interval leeway = start d.background (d.time interval) (d.time leeway)

  abbrev Starts : Option d.Queue → (interval leeway : Option d.Time) → List (Call d) → Type 0
  Starts b i l calls =
      (queue : d.Queue) × (i' l' : d.Time) × (b ≡ some queue)
      × (i ≡ some i')
      × (l ≡ some l')
      × (calls ≡ created queue ∷ timed i' l' ∷ handled ∷ resumed ∷ [])

  start-Starts :
      (b : Option d.Queue) (i l : Option d.Time) (calls : List (Call d))
      → start b i l ≡ returns calls
      → Starts b i l calls
  unfolding start
  start-Starts none i l calls h = cc
  start-Starts (some queue) none l calls h = cc
  start-Starts (some queue) (some i) none calls h = cc
  start-Starts (some queue) (some i) (some l) calls h = (queue, i, l, refl, refl, refl, cc)

  Starts-start :
      (b : Option d.Queue) (i l : Option d.Time) (calls : List (Call d))
      → Starts b i l calls
      → start b i l ≡ returns calls
  unfolding start
  Starts-start b i l calls (queue, i', l', e, k, m, same) = rw (e, k, m) (ap returns (sym same))

  -- A timer starts exactly where there is a queue and both durations are times of dispatch: it is set
  -- to them and has its handler before it is resumed, which is its last call.
  pub new-Starts :
      (interval leeway : ℕ) (calls : List (Call d))
      → (new interval leeway ≡ returns calls)
        ↔ Starts d.background (d.time interval) (d.time leeway) calls
  unfolding new
  new-Starts interval leeway calls = (
    start-Starts d.background (d.time interval) (d.time leeway) calls,
    Starts-start d.background (d.time interval) (d.time leeway) calls,
  )
