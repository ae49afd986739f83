-- ===== src/Tpc/Channel/Threads.antt =====
-- tpc/src/channel.rs under many threads: each access to a semaphore or a queue is one step, and the
-- steps of the threads interleave in any order. `preferred` is the level that the program passes to
-- `recv_immediate`; tpc/src/bin.rs passes 0.
pub mod Counts
pub mod Invariant
pub mod Moves
pub mod Order
pub mod Methods
pub mod Scan
pub mod Progress
pub mod Capacity
pub mod Safety
use kiruna.Base.{ℕ, ◌+◌, List, ◌∷◌, ◌++◌, none, some, Fault, get_elem?, set, ◌≡◌}
use kiruna.Tpc.Channel.Platform.{Semaphore, ArrayQueue}
use kiruna.Tpc.Channel.{SharedOne, Channel, new}

-- Where a thread stands. The last two are in `recv_nonblock`, behind its `decrement_immediate`, and
-- dead.
pub data Pc : Type 0 where
  outside : Pc  -- in no method of the channel
  pushed : (level : ℕ) → Pc  -- in `send`, before the local signal
  announced : Pc  -- in `send`, before the global signal
  trying : Pc  -- in `recv_immediate`, before `recv_nonblock`
  restoring : Pc  -- in `recv_immediate`, before it restores the global semaphore
  scanning : (level : ℕ) → Pc  -- in the loop of `recv_all`
  popping : (level : ℕ) → Pc  -- before `self.queue.pop().unwrap()`
  panicked : Fault → Pc

module _ (S : Semaphore) {E : Type 0} (Q : ArrayQueue E) where
  abbrev pub write : Channel S Q → ℕ → SharedOne S Q → Channel S Q
  write m level s = record m { shared = set m.shared level s }

  -- One step of one thread.
  pub data Move (preferred : ℕ) (m : Channel S Q) : Pc → Channel S Q → Pc → Type 0 where
    push :
        (level : ℕ) (e : E) (s : SharedOne S Q) (q : Q.State)
        → get_elem? m.shared level ≡ some s
        → Q.push s.queue e ≡ some q
        → Move preferred m outside (write m level (record s { queue = q })) (pushed level)
    push_full :
        (level : ℕ) (e : E) (s : SharedOne S Q)
        → get_elem? m.shared level ≡ some s
        → Q.push s.queue e ≡ none
        → Move preferred m outside m (panicked Fault.assertion)
    signal_local :
        {level : ℕ} (s : SharedOne S Q)
        → get_elem? m.shared level ≡ some s
        → Move preferred m
            (pushed level)
            (write m level (record s { local_semaphore = S.signal s.local_semaphore }))
            announced
    signal_global :
        Move preferred m announced
          (record m { global_semaphore = S.signal m.global_semaphore })
          outside
    try_global :
        (g : S.State)
        → S.decrement m.global_semaphore ≡ some g
        → Move preferred m outside (record m { global_semaphore = g }) trying
    try_nothing : S.decrement m.global_semaphore ≡ none → Move preferred m outside m outside
    try_hit :
        (s : SharedOne S Q) (t : S.State)
        → get_elem? m.shared preferred ≡ some s
        → S.decrement s.local_semaphore ≡ some t
        → Move preferred m trying
            (write m preferred (record s { local_semaphore = t }))
            (popping preferred)
    try_miss :
        (s : SharedOne S Q)
        → get_elem? m.shared preferred ≡ some s
        → S.decrement s.local_semaphore ≡ none
        → Move preferred m trying m restoring
    restore :
        Move preferred m restoring
          (record m { global_semaphore = S.signal m.global_semaphore })
          outside
    wait :
        (g : S.State)
        → S.decrement m.global_semaphore ≡ some g
        → Move preferred m outside (record m { global_semaphore = g }) (scanning 0)
    scan_hit :
        {level : ℕ} (s : SharedOne S Q) (t : S.State)
        → get_elem? m.shared level ≡ some s
        → S.decrement s.local_semaphore ≡ some t
        → Move preferred m
            (scanning level)
            (write m level (record s { local_semaphore = t }))
            (popping level)
    scan_miss :
        {level : ℕ} (s : SharedOne S Q)
        → get_elem? m.shared level ≡ some s
        → S.decrement s.local_semaphore ≡ none
        → Move preferred m (scanning level) m (scanning (level + 1))
    scan_end :
        {level : ℕ}
        → get_elem? m.shared level ≡ none
        → Move preferred m (scanning level) m (panicked Fault.no_element)
    pop :
        {level : ℕ} (s : SharedOne S Q) (e : E) (q : Q.State)
        → get_elem? m.shared level ≡ some s
        → Q.pop s.queue ≡ some (e, q)
        → Move preferred m (popping level) (write m level (record s { queue = q })) outside
    pop_nothing :
        {level : ℕ} (s : SharedOne S Q)
        → get_elem? m.shared level ≡ some s
        → Q.pop s.queue ≡ none
        → Move preferred m (popping level) m (panicked Fault.unwrap_none)

  pub record System : Type 0 where
    pub chan : Channel S Q
    pub threads : List Pc

  -- Any one thread moves.
  pub data Step (preferred : ℕ) (s t : System) : Type 0 where
    moves :
        (before after : List Pc) {p p' : Pc} {m' : Channel S Q}
        → s.threads ≡ before ++ (p ∷ after)
        → Move preferred s.chan p m' p'
        → t.chan ≡ m'
        → t.threads ≡ before ++ (p' ∷ after)
        → Step preferred s t

  -- `n` threads outside, over a new channel.
  abbrev pub init : ℕ → ℕ → List Pc → System
  init bounded levels threads = record { chan = new S Q bounded levels; threads = threads }

  pub data Reach (preferred bounded levels : ℕ) (threads : List Pc) : System → Type 0 where
    start : Reach preferred bounded levels threads (init bounded levels threads)
    later :
        {s t : System}
        → Reach preferred bounded levels threads s
        → Step preferred s t
        → Reach preferred bounded levels threads t
