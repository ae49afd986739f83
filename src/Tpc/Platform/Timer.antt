-- ===== src/Tpc/Platform/Timer.antt =====
-- tpc/src/platform/windows/timer.rs: the numbers that `Timer::new` hands to the system, and its calls.
-- Durations are in nanoseconds.
use kiruna.Base.{
  ℕ, ◌+◌, ◌-◌, ◌*◌, ◌/◌, ◌%◌, ◌^◌, ◌<◌, ◌≤◌, ltb, u32, if◌then◌else◌, true, false, Bool-cases, inl,
  inr, Option, none, some, List, [], ◌∷◌, Outcome, returns, panics, Fault, ◌>>=◌, ◌≡◌, refl, arith,
}

-- `FILETIME`
pub record FileTime : Type 0 where
  pub low_date_time : ℕ
  pub high_date_time : ℕ

-- The arguments of `SetThreadpoolTimer`
pub record Settings : Type 0 where
  pub due_time : FileTime
  pub period : ℕ
  pub window : ℕ

-- `try_into().unwrap()` into a word of `bits` bits
abbrev pub checked : ℕ → ℕ → Outcome ℕ
checked bits n = if ltb n (2 ^ bits) then returns n else panics Fault.unwrap_err

-- The two halves of a 64-bit word: `ns_100 & 0xffffffff`, and the mask of the upper half, which
-- takes the lower one away, shifted down by 32.
unfoldable pub split : ℕ → FileTime
split ns_100 = record {
  low_date_time = u32 (ns_100 % 2 ^ 32);
  high_date_time = u32 ((ns_100 - ns_100 % 2 ^ 32) / 2 ^ 32);
}

-- `Timer::new`, up to its call of the system.
unfoldable pub new : (interval leeway : ℕ) → Outcome Settings
new interval leeway = checked 64 (interval / 100) >>= λ ns_100.
    checked 32 (interval / 1_000_000) >>= λ period. checked 32 (leeway / 1_000_000) >>= λ window.
    returns (record { due_time = split ns_100; period = period; window = window })

-- The system can put the halves of a due time together again: for every interval and leeway of less
-- than 2^32 milliseconds `new` sets the timer, the lower half has 32 bits and the upper one 31, so
-- that the due time is not negative, and together they are the interval in units of 100 nanoseconds;
-- the period is the interval in milliseconds.
pub new-split :
    (interval leeway : ℕ)
    → interval / 1_000_000 < 2 ^ 32
    → leeway / 1_000_000 < 2 ^ 32
    → (s : Settings) × (new interval leeway ≡ returns s)
      × (s.due_time.low_date_time < 2 ^ 32)
      × (s.due_time.high_date_time < 2 ^ 31)
      × (s.due_time.high_date_time * 2 ^ 32 + s.due_time.low_date_time ≡ interval / 100)
      × (s.period ≡ interval / 1_000_000)
unfolding new split
new-split interval leeway p q = (
  record {
    due_time = split (interval / 100);
    period = interval / 1_000_000;
    window = leeway / 1_000_000;
  },
  rw (tick, ms, leeway_ms) refl,
  omega arith,
  omega arith,
  omega arith,
  refl,
)
  where
    tick : ltb (interval / 100) (2 ^ 64) ≡ true
    tick = ground arith

    ms : ltb (interval / 1_000_000) (2 ^ 32) ≡ true
    ms = ground arith

    leeway_ms : ltb (leeway / 1_000_000) (2 ^ 32) ≡ true
    leeway_ms = ground arith

-- An interval of 2^32 milliseconds or more does not fit.
new-panics :
    (interval leeway : ℕ)
    → 2 ^ 32 ≤ interval / 1_000_000
    → new interval leeway ≡ panics Fault.unwrap_err
unfolding new
new-panics interval leeway p =
    let long : ltb (interval / 1_000_000) (2 ^ 32) ≡ false = ground arith in
    elim (Bool-cases (ltb (interval / 100) (2 ^ 64))) [
      | inl fits ↦ rw (fits, long) refl
      | inr over ↦ rw over refl
    ]

-- The fields of `TP_CALLBACK_ENVIRON_V3` that the code sets
pub record CallbackEnvironment : Type 0 where
  pub version : ℕ
  pub callback_priority : ℕ
  pub size : ℕ

-- What the system has: its constants, and what `CreateThreadpoolTimer` answers; `none` is null.
pub record ThreadpoolTimers : Type 1 where
  pub Pointer : Type 0
  pub size_of_environment : ℕ
  pub priority_low : ℕ
  pub create : CallbackEnvironment → Option Pointer

pub data Call (H : Type 0) : Type 0 where
  created : H → CallbackEnvironment → Call H
  timed : H → Settings → Call H
  closed : H → Call H

module _ (t : ThreadpoolTimers) where
  -- `SetThreadpoolTimer`, if the numbers fit, and the end of `Timer::new`.
  unfoldable pub set_timer :
      CallbackEnvironment → t.Pointer → Outcome Settings → List (Call t.Pointer) × Outcome t.Pointer
  set_timer environment h (returns s) = (created h environment ∷ timed h s ∷ [], returns h)
  set_timer environment h (panics f) = (created h environment ∷ [], panics f)

  -- From the environment on
  unfoldable pub create_timer :
      (interval leeway : ℕ) → CallbackEnvironment → List (Call t.Pointer) × Outcome t.Pointer
  create_timer interval leeway environment = elim (t.create environment) [
    | none ↦ ([], panics Fault.assertion)
    | some h ↦ set_timer environment h (new interval leeway)
  ]

  abbrev pub environment_of : ℕ → CallbackEnvironment
  environment_of size = record { version = 3; callback_priority = t.priority_low; size = size }

  -- `Timer::new`: the calls that take effect, and the timer
  unfoldable pub open_timer : (interval leeway : ℕ) → List (Call t.Pointer) × Outcome t.Pointer
  open_timer interval leeway = elim (checked 32 t.size_of_environment) [
    | returns size ↦ create_timer interval leeway (environment_of size)
    | panics f ↦ ([], panics f)
  ]

  -- `Timer::drop`
  unfoldable pub drop : t.Pointer → Call t.Pointer
  drop h = closed h

  -- The system gives a timer. With an interval and a leeway of less than 2^32 milliseconds it is set
  -- once, to the interval, and is the `Timer`. With a longer interval `new` panics, and the timer that
  -- was created is neither set nor closed.
  pub open_timer-sets :
      (interval leeway : ℕ) (h : t.Pointer)
      → t.size_of_environment < 2 ^ 32
      → t.create (environment_of t.size_of_environment) ≡ some h
      → (interval / 1_000_000 < 2 ^ 32
          → leeway / 1_000_000 < 2 ^ 32
          → (s : Settings) × (open_timer interval leeway
              ≡ (created h (environment_of t.size_of_environment) ∷ timed h s ∷ [], returns h))
            × (s.due_time.high_date_time * 2 ^ 32 + s.due_time.low_date_time ≡ interval / 100)
            × (s.period ≡ interval / 1_000_000))
        × (2 ^ 32 ≤ interval / 1_000_000
            → open_timer interval leeway
              ≡ (created h (environment_of t.size_of_environment) ∷ [], panics Fault.unwrap_err))
  unfolding open_timer create_timer set_timer
  open_timer-sets interval leeway h small given = (
    λ p q.
        let (s, e, _, _, due, period) = new-split interval leeway p q in
        (s, rw (fits, open_timer, given, create_timer, e) refl, due, period),
    λ p. rw (fits, open_timer, given, create_timer, new_long p) refl,
  )
    where
      fits : ltb t.size_of_environment (2 ^ 32) ≡ true
      fits = ground arith

      new_long : 2 ^ 32 ≤ interval / 1_000_000 → new interval leeway ≡ panics Fault.unwrap_err
      new_long p = new-panics interval leeway p
