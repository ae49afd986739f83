-- ===== src/Stream/Macos.antt =====
-- stream/src/macos/write.rs and the priorities of stream/src/macos.rs, over the calls of dispatch that
-- they make, which are an interface.
pub mod RoundTrip
use kiruna.Base.{
  ℕ, ◌==◌, if◌then◌else◌, List, ◌++◌, Option, none, some, Result, ok, err, Outcome, returns, panics,
  Fault, ◌>>=◌, ◌≡◌, refl, arith,
}
use kiruna.Base.Priority.{Priority, user_waiting, testing}

pub data Qos : Type 0 where
  user_initiated default unspecified : Qos

-- `write_completion` calls its handler with an error code, 0 where it has written the bytes behind
-- those that the descriptor had been given before.
pub record Dispatch (Queue : Type 0) : Type 1 where
  pub State : Type 0
  pub written : State → ℕ → List ℕ
  pub global : Qos → Option Queue
  pub write_completion : State → (fd : ℕ) → List ℕ → Queue → ℕ × State
  pub write_completion-zero :
      (s : State) (fd : ℕ) (bytes : List ℕ) (q : Queue)
      → (write_completion s fd bytes q).0 ≡ 0
      → written (write_completion s fd bytes q).1 fd ≡ written s fd ++ bytes

-- `as_qos`, on the priorities that there are.
unfoldable pub as_qos : Priority → Qos
as_qos user_waiting = user_initiated
as_qos testing = default

-- What converts into the options of a write: the options themselves, or a priority.
pub data Options (Queue : Type 0) : Type 0 where
  on_queue : Queue → Options Queue
  at_priority : Priority → Options Queue

-- The completion handler of `write_data`.
unfoldable pub handler : ℕ → Result (Unit {0}) ℕ
handler code = if code == 0 then ok tt else err code

handler-ok : (code : ℕ) → handler code ≡ ok tt → code ≡ 0
unfolding handler
handler-ok code e = ground arith

module _ {Queue : Type 0} (d : Dispatch Queue) where
  -- `write_options.into()`, with `unwrap` of the global queue
  unfoldable pub into : Options Queue → Outcome Queue
  into (on_queue q) = returns q
  into (at_priority p) = elim (d.global (as_qos p)) [
    | none ↦ panics Fault.unwrap_none
    | some q ↦ returns q
  ]

  -- `write_data`
  unfoldable pub write_data : (fd : ℕ) → List ℕ → Queue → d.State → Result (Unit {0}) ℕ × d.State
  write_data fd buffer q s = let (code, t) = d.write_completion s fd buffer q in (handler code, t)

  -- `write_static`
  unfoldable pub write_static :
      (fd : ℕ) → List ℕ → Options Queue → d.State → Outcome (Result (Unit {0}) ℕ × d.State)
  write_static fd buffer options s = into options >>= λ q. returns (write_data fd buffer q s)

  -- `write_boxed`, at its first poll
  unfoldable pub write_boxed :
      (fd : ℕ) → List ℕ → Options Queue → d.State → Outcome (Result (Unit {0}) ℕ × d.State)
  write_boxed fd buffer options s = into options >>= λ q. returns (write_data fd buffer q s)

  pub write_data-ok :
      (fd : ℕ) (buffer : List ℕ) (q : Queue) (s : d.State)
      → (write_data fd buffer q s).0 ≡ ok tt
      → d.written (write_data fd buffer q s).1 fd ≡ d.written s fd ++ buffer
  unfolding write_data
  write_data-ok fd buffer q s e =
      d.write_completion-zero s fd buffer q (handler-ok (d.write_completion s fd buffer q).0 e)

  -- Where the priority has a queue, a write does not panic, and one that answers `Ok` has added
  -- its whole buffer to what the descriptor was given.
  write_static-adds :
      (fd : ℕ) (buffer : List ℕ) (p : Priority) (q : Queue) (s : d.State)
      → d.global (as_qos p) ≡ some q
      → (r : Result (Unit {0}) ℕ) × (t : d.State) × (write_static fd buffer (at_priority p) s
          ≡ returns (r, t))
        × (r ≡ ok tt → d.written t fd ≡ d.written s fd ++ buffer)
  unfolding write_static into
  write_static-adds fd buffer p q s g = (
    (write_data fd buffer q s).0,
    (write_data fd buffer q s).1,
    rw (into, g) refl,
    write_data-ok fd buffer q s,
  )
