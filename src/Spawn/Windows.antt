-- ===== src/Spawn/Windows.antt =====
-- spawn/src/platform/windows.rs
use kiruna.Base.{
  ℕ, ◌^◌, ◌-◌, ◌==◌, Bool, true, false, if◌then◌else◌, List, [], ◌∷◌, Option, none, some, Outcome,
  returns, panics, Fault, ◌≡◌, ◌↔◌, arith,
}
use mathlib.Core.Bool.{◌&&◌, not}
use kiruna.Base.Priority.{Priority, user_waiting, testing}
use kiruna.Spawn.{MicroPriority, require}

-- Whether the system does as it is asked, and what `ResumeThread` returns.
pub record Answers : Type 0 where
  pub creates : Bool
  pub sets_priority : Bool
  pub sets_description : Bool
  pub resumes : ℕ

pub data ThreadPriority : Type 0 where
  normal above_normal : ThreadPriority

-- A thread of the system: `routine` is the box that it is to run.
pub record Thread (F : Type 0) : Type 0 where
  pub routine : F
  pub priority : ThreadPriority
  pub description : Option (List ℕ)
  pub suspended : Bool

-- The match on the priority.
unfoldable pub thread_priority : Priority → ThreadPriority
thread_priority user_waiting = above_normal
thread_priority testing = above_normal

-- `CreateThread` with the flag `CREATE_SUSPENDED`
unfoldable pub create_thread : {F : Type 0} → F → Thread F
create_thread f = record { routine = f; priority = normal; description = none; suspended = true }

-- The threads whose routine runs, with the priority and the name that it has then.
abbrev pub runs : {F : Type 0} → Option (Thread F) → List (F × ThreadPriority × Option (List ℕ))
runs none = []
runs (some t) = if t.suspended then [] else (t.routine, t.priority, t.description) ∷ []

-- The system does all that it is asked, and the name can be converted.
abbrev pub accepts : Answers → Option (List ℕ) → Bool
accepts a none = false
accepts a (some c_name) =
    a.creates && (a.sets_priority && (a.sets_description && not (a.resumes == 2 ^ 32 - 1)))

module _ {F : Type 0} (a : Answers) (from_str : List ℕ → Option (List ℕ)) where
  -- From the name on; `from_str` is `U16CString::from_str`.
  unfoldable pub describe : List ℕ → Thread F → Option (Thread F) × Outcome (Unit {0})
  describe debug_name t = elim (from_str debug_name) [
    | none ↦ (some t, panics Fault.unwrap_err)
    | some c_name ↦ require a.sets_description Fault.unwrap_err (some t) (
        let described = record t { description = some c_name } in
        if a.resumes == 2 ^ 32 - 1
        then (some described, panics Fault.assertion)
        else (some (record described { suspended = false }), returns tt))
  ]

  -- `spawn_thread`: the thread that there is afterwards, and how the call ends.
  unfoldable pub spawn_thread :
      Priority → MicroPriority → List ℕ → F → Option (Thread F) × Outcome (Unit {0})
  spawn_thread priority micro_priority debug_name f = require a.creates Fault.unwrap_err none (
      require a.sets_priority Fault.unwrap_err (some (create_thread f))
        (describe debug_name (record (create_thread f) { priority = thread_priority priority })))

  -- The thread runs the closure once where the call returns, with its priority and its name, and
  -- does not run it where the call panics.
  abbrev pub Whole : List ℕ → F → Option (Thread F) × Outcome (Unit {0}) → Type 0
  Whole debug_name f (t, returns u) = runs t ≡ (f, above_normal, from_str debug_name) ∷ []
  Whole debug_name f (t, panics e) = runs t ≡ []

  -- On Windows a thread is spawned as a whole or not at all: the call returns exactly where the system
  -- does all that it is asked and the name can be converted. Then the closure runs once, in a
  -- thread that has its priority and its name by then; otherwise the call panics and the closure
  -- never runs.
  pub spawn_thread-Whole :
      (p : Priority) (m : MicroPriority) (debug_name : List ℕ) (f : F)
      → Whole debug_name f (spawn_thread p m debug_name f)
        × (((spawn_thread p m debug_name f).1 ≡ returns tt)
            ↔ (accepts a (from_str debug_name) ≡ true))
  unfolding spawn_thread describe create_thread thread_priority
  spawn_thread-Whole p m debug_name f = (ground arith, ground arith)
