-- ===== src/Spawn.antt =====
-- spawn/src: the threads that the pools start, on macOS and on Windows. What the system and the
-- conversions of names answer is an argument.
pub mod Macos
pub mod Windows
mod Tests
use kiruna.Base.{Bool, if◌then◌else◌, Outcome, panics, Fault}

pub data MicroPriority : Type 0 where
  new : MicroPriority

-- A call that has to succeed before the rest is done; `s` is the state that it leaves if not.
abbrev pub require : {S A : Type 0} → Bool → Fault → S → S × Outcome A → S × Outcome A
require succeeds fault s rest = if succeeds then rest else (s, panics fault)
