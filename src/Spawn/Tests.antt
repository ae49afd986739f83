-- ===== src/Spawn/Tests.antt =====
-- Threads that are spawned, and threads that are not.
use kiruna.Base.{
  ℕ, zero, suc, true, false, List, [], ◌∷◌, Option, none, some, returns, panics, Fault, ◌≡◌, ◌↔◌,
  refl,
}
use kiruna.Base.Priority.{user_waiting, testing}
use kiruna.Spawn.{new}
use kiruna.Spawn.Macos
use kiruna.Spawn.Macos.{started, qos_class, relative_priority, begin}
use kiruna.Spawn.Windows.{
  Answers, above_normal, thread_priority, create_thread, describe, spawn_thread, Whole, accepts,
  spawn_thread-Whole,
}

-- A name is converted as it is, unless it begins with the byte 0.
abbrev from_str : List ℕ → Option (List ℕ)
from_str [] = some []
from_str (zero ∷ bytes) = none
from_str (suc c ∷ bytes) = some (suc c ∷ bytes)

-- Closures are named by numbers.
abbrev closure : ℕ
closure = 9

abbrev willing : Answers
willing = record { creates = true; sets_priority = true; sets_description = true; resumes = 1 }

spawn_thread_run : spawn_thread willing from_str testing new (107 ∷ 117 ∷ []) closure ≡ (
  some (record {
    routine = closure;
    priority = above_normal;
    description = some (107 ∷ 117 ∷ []);
    suspended = false;
  }),
  returns tt,
)
unfolding spawn_thread describe create_thread thread_priority
spawn_thread_run = refl

spawn_thread-Whole_example :
    Whole willing from_str
      (107 ∷ 117 ∷ [])
      9
      (spawn_thread willing from_str user_waiting new (107 ∷ 117 ∷ []) closure)
    × (((spawn_thread willing from_str user_waiting new (107 ∷ 117 ∷ []) closure).1 ≡ returns tt)
        ↔ (accepts willing (from_str (107 ∷ 117 ∷ [])) ≡ true))
spawn_thread-Whole_example =
    spawn_thread-Whole willing from_str user_waiting new (107 ∷ 117 ∷ []) closure

-- The attributes cannot be taken down: the thread runs, and the call panics.
abbrev grudging : Macos.Answers
grudging = record { init = 0; set_qos_class = 0; create = 0; destroy = 22 }

destroy_run :
    Macos.spawn_thread grudging from_str testing new (107 ∷ []) closure
    ≡ (some (started (107 ∷ []) closure), panics Fault.assertion)
unfolding Macos.spawn_thread Macos.launch qos_class relative_priority begin
destroy_run = refl
