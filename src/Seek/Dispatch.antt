-- ===== src/Seek/Dispatch.antt =====
-- seek/src/macos.rs: `Read`, over the calls of the operating system and of dispatch that it makes,
-- which are an interface.
pub mod Reads
mod Tests
use kiruna.Base.{
  ℕ, ◌==◌, if◌then◌else◌, Bool, List, [], ◌∷◌, Option, none, some, Result, ok, err, Outcome,
  returns, panics, Fault, ◌>>=◌, ◌^◌, ltb,
}
use kiruna.Base.Priority.{Priority, user_waiting, testing}
use kiruna.Seek.{Environment, environment, callback}

-- `call` is one call of the callback of a read: whether it is done, the data and the error.
abbrev pub Call : Type 0
Call = Bool × List ℕ × ℕ

-- `global` is the queue of the quality of service UserInitiated. A completion is the data and the
-- error that its callback is called with, and a read is all the calls of its callback.
pub record Dispatch (File Io Queue : Type 0) : Type 0 where
  pub global : Option Queue
  pub open_file : List ℕ → Result File ℕ
  pub read_completion : File → Queue → List ℕ × ℕ
  pub io : File → Queue → Option Io
  pub io_read : Io → ℕ → ℕ → Queue → List Call
  pub try_clone : File → Result File ℕ

pub data Error : Type 0 where
  dispatch_error io_error : ℕ → Error

pub record Read (File Io : Type 0) : Type 0 where
  pub file : File
  pub io : Io
  pub priority : Priority

-- `unwrap` of an `Option`
abbrev unwrapped : {A : Type 0} → Option A → Outcome A
unwrapped none = panics Fault.unwrap_none
unwrapped (some a) = returns a

-- `unwrap` of a `Result`
abbrev unwrapped_ok : {A E : Type 0} → Result A E → Outcome A
unwrapped_ok (ok a) = returns a
unwrapped_ok (err e) = panics Fault.unwrap_err

-- `.map_err(|e| DispatchError(e))`
abbrev map_err : {A : Type 0} → Result A ℕ → Result A Error
map_err (ok a) = ok a
map_err (err e) = err (dispatch_error e)

-- `offset.try_into().unwrap()`, into a signed word of 64 bits
unfoldable pub to_offset : ℕ → Outcome ℕ
to_offset offset = if ltb offset (2 ^ 63) then returns offset else panics Fault.unwrap_err

-- What the completion of `Read::all` sends.
unfoldable pub completed : List ℕ → ℕ → Result (List ℕ) ℕ
completed bytes code = if code == 0 then ok bytes else err code

-- The calls of the callback of `Read::read`, and what it sends first.
unfoldable pub feed : List Call → Environment → Outcome (Option (Result (List ℕ) ℕ))
feed [] e = returns none
feed ((done, bytes, code) ∷ calls) e = callback done bytes code e >>= λ (sent, e'). elim sent [
  | none ↦ feed calls e'
  | some r ↦ feed calls e' >>= λ later. returns (some r)
]

module _ {File Io Queue : Type 0} (d : Dispatch File Io Queue) where
  -- The match on the priority.
  unfoldable pub queue : Priority → Outcome Queue
  queue user_waiting = unwrapped d.global
  queue testing = unwrapped d.global

  -- `Read::all`
  unfoldable pub all : List ℕ → Priority → Outcome (Result (List ℕ) Error)
  all path priority = queue priority >>= λ q. unwrapped_ok (d.open_file path) >>= λ file.
      let (bytes, code) = d.read_completion file q in returns (map_err (completed bytes code))

  -- `Read::new`
  unfoldable pub new : List ℕ → Priority → Outcome (Result (Read File Io) Error)
  new path priority = queue priority >>= λ q. unwrapped_ok (d.open_file path) >>= λ file.
      unwrapped (d.io file q) >>= λ io.
      returns (ok (record { file = file; io = io; priority = priority }))

  -- `Read::read`; the `none` of the answer says that it is pending.
  unfoldable pub read : ℕ → ℕ → Read File Io → Outcome (Option (Result (List ℕ) Error))
  read offset size r = queue r.priority >>= λ q. to_offset offset >>= λ start.
      feed (d.io_read r.io start size q) environment >>= λ received.
      returns (elim received [ none ↦ none | some r ↦ some (map_err r) ])

  -- `Read::async_clone`
  unfoldable pub async_clone : Read File Io → Priority → Outcome (Result (Read File Io) Error)
  async_clone r priority = returns (elim (d.try_clone r.file) [
    | err e ↦ err (io_error e)
    | ok file ↦ ok (record { file = file; io = r.io; priority = priority })
  ])
