-- ===== src/Seek.antt =====
-- seek/src/macos.rs and seek/src/windows/mod.rs: the callback of a read, and the paths that Windows
-- takes. The files of both systems are in the children `Dispatch` and `Files`.
pub mod Laws
pub mod Front
pub mod Dispatch
pub mod Files
mod Tests
use kiruna.Base.{
  ℕ, ◌==◌, if◌then◌else◌, List, [], ◌∷◌, ◌++◌, map, Bool, true, false, Option, none, some, Result,
  ok, err, Outcome, returns, panics, Fault,
}

-- `Environment`: `completer` is the sender of the continuation, which is used up by a send.
pub record Environment : Type 0 where
  pub data_so_far : Option (List ℕ)
  pub completer : Bool

-- `Read::read`: what the callback starts with.
unfoldable pub environment : Environment
environment = record { data_so_far = some []; completer = true }

-- What one call of the callback sends, if anything.
abbrev pub Sent : Type 0
Sent = Option (Result (List ℕ) ℕ)

-- `environment.completer.take().unwrap().send(..)`
unfoldable pub complete : Result (List ℕ) ℕ → Environment → Outcome (Sent × Environment)
complete r e =
    if e.completer
    then returns (some r, record e { completer = false })
    else panics Fault.unwrap_none

-- The callback of `Read::read`.
unfoldable pub callback : Bool → List ℕ → ℕ → Environment → Outcome (Sent × Environment)
callback done bytes code e =
    if code == 0
    then elim e.data_so_far [
      | none ↦ panics Fault.unwrap_none
      | some before ↦
          if done
          then complete (ok (before ++ bytes)) (record e { data_so_far = none })
          else returns (none, record e { data_so_far = some (before ++ bytes) })
    ]
    else complete (err code) e

-- `if char == '/' as u16 { '\\' as u16 } else { char }`
unfoldable pub backslash : ℕ → ℕ
backslash c = if c == 47 then 92 else c

-- The test `starts_with(&[92,92,63,92])`, and the drain of those four.
unfoldable pub drain_prefix : List ℕ → List ℕ
drain_prefix (a ∷ b ∷ c ∷ d ∷ rest) =
    if a == 92
    then (if b == 92
        then (if c == 63
            then (if d == 92 then rest else a ∷ b ∷ c ∷ d ∷ rest)
            else a ∷ b ∷ c ∷ d ∷ rest)
        else a ∷ b ∷ c ∷ d ∷ rest)
    else a ∷ b ∷ c ∷ d ∷ rest
drain_prefix short = short

-- `fix_path`, for a path of wide characters. Whether it is relative and how it is made absolute is up
-- to the operating system.
unfoldable pub fix_path : (List ℕ → Bool) → (List ℕ → List ℕ) → List ℕ → List ℕ
fix_path is_relative absolute path =
    drain_prefix (map backslash (if is_relative path then absolute path else path))
