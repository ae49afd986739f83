-- ===== src/Spawn/Macos.antt =====
-- spawn/src/platform/macos.rs
use mathlib.Core.Bool.{◌&&◌}
use kiruna.Base.{
  ℕ, ◌==◌, Bool, true, false, if◌then◌else◌, List, [], ◌∷◌, Option, none, some, Outcome, returns,
  panics, Fault, ◌≡◌, ◌↔◌, arith,
}
use kiruna.Base.Priority.{Priority, user_waiting, testing}
use kiruna.Spawn.{MicroPriority, new, require}

-- What the four calls of pthread return.
pub record Answers : Type 0 where
  pub init : ℕ
  pub set_qos_class : ℕ
  pub create : ℕ
  pub destroy : ℕ

-- `QosClassT`, by its number, and `RelativePriority`, a number below 0.
pub data RelativePriority : Type 0 where
  below : ℕ → RelativePriority

abbrev user_interactive : ℕ
user_interactive = 33

abbrev pub new_threads : RelativePriority
new_threads = below 10

-- The matches on the priorities.
unfoldable pub qos_class : Priority → ℕ
qos_class user_waiting = user_interactive
qos_class testing = user_interactive

unfoldable pub relative_priority : MicroPriority → RelativePriority
relative_priority new = new_threads

-- `LaunchInfo`
pub record LaunchInfo (F : Type 0) : Type 0 where
  pub f : F
  pub thread_name : List ℕ

-- What a new thread does, with the priorities that it was started with.
pub data Act (F : Type 0) : Type 0 where
  setname : List ℕ → Act F
  calls : F → Act F

pub record Thread (F : Type 0) : Type 0 where
  pub qos : ℕ
  pub relative : RelativePriority
  pub acts : List (Act F)

-- `begin`
unfoldable pub begin : {F : Type 0} → LaunchInfo F → List (Act F)
begin unboxed = setname unboxed.thread_name ∷ calls unboxed.f ∷ []

-- The thread that `spawn_thread` is to start, and whether the calls up to its start succeed.
abbrev pub started : {F : Type 0} → List ℕ → F → Thread F
started thread_name f = record {
  qos = 33;
  relative = below 10;
  acts = setname thread_name ∷ calls f ∷ [];
}

abbrev pub creates : Answers → Bool
creates a = (a.init == 0) && ((a.set_qos_class == 0) && (a.create == 0))

abbrev pub starts : {F : Type 0} → Answers → Option (List ℕ) → F → Option (Thread F)
starts a none f = none
starts a (some thread_name) f = if creates a then some (started thread_name f) else none

-- All calls succeed, the one after the start too.
abbrev pub accepts : Answers → Option (List ℕ) → Bool
accepts a none = false
accepts a (some thread_name) = creates a && (a.destroy == 0)

module _ {F : Type 0} (a : Answers) (c_string : List ℕ → Option (List ℕ)) where
  -- From the name on; `c_string` is `CString::new`.
  unfoldable pub launch : ℕ → RelativePriority → List ℕ → F → Option (Thread F) × Outcome (Unit {0})
  launch qos relative debug_name f = elim (c_string debug_name) [
    | none ↦ (none, panics Fault.unwrap_err)
    | some thread_name ↦ require (a.create == 0) Fault.assertion none (
        let thread : Thread F = record {
          qos = qos;
          relative = relative;
          acts = begin (record { f = f; thread_name = thread_name });
        } in
        require (a.destroy == 0) Fault.assertion (some thread) (some thread, returns tt))
  ]

  -- `spawn_thread`: the thread that there is afterwards, and how the call ends.
  unfoldable pub spawn_thread :
      Priority → MicroPriority → List ℕ → F → Option (Thread F) × Outcome (Unit {0})
  spawn_thread priority micro_priority debug_name f = require (a.init == 0) Fault.assertion none (
      require (a.set_qos_class == 0) Fault.assertion none
        (launch (qos_class priority) (relative_priority micro_priority) debug_name f))

  -- On macOS a thread is started exactly where the name can be converted and the calls up to
  -- `pthread_create` succeed; it has the class and the relative priority of a new thread, and its name
  -- before it calls the closure. The call returns exactly where a thread is started and the
  -- attributes can be taken down after it, so that it can panic although the closure runs.
  pub spawn_thread-starts :
      (p : Priority) (m : MicroPriority) (debug_name : List ℕ) (f : F)
      → ((spawn_thread p m debug_name f).0 ≡ starts a (c_string debug_name) f)
        × (((spawn_thread p m debug_name f).1 ≡ returns tt)
            ↔ (accepts a (c_string debug_name) ≡ true))
  unfolding spawn_thread launch qos_class relative_priority begin
  spawn_thread-starts user_waiting new debug_name f = (ground arith, ground arith)
  spawn_thread-starts testing new debug_name f = (ground arith, ground arith)
