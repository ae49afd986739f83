-- ===== src/Stream/Threadpool.antt =====
-- stream/src/windows/threadpool.rs: the one worker thread of overlapped operations, and those who
-- send tasks to it. A task is any value; to run it is to take it out of the channel.
pub mod Signals
pub mod Burst
mod Tests
use kiruna.Base.{
  ℕ, zero, suc, ◌+◌, ltb, if◌then◌else◌, List, [], ◌∷◌, ◌++◌, length, replicate, Option, none, some,
  ◌≡◌,
}

-- `sync_channel(5)`
abbrev pub channel_bound : ℕ
channel_bound = 5

-- The greatest count of the semaphore, `CreateSemaphoreA(None, 0, 2, ..)`
abbrev pub semaphore_max : ℕ
semaphore_max = 2

-- In `WaitForSingleObjectEx`, or behind it and before `recv`.
pub data WorkerPc : Type 0 where
  asleep receiving : WorkerPc

-- `ran` holds what the worker has run, oldest first, and `lost` counts the calls of
-- `ReleaseSemaphore` that failed, whose result the code does not read.
pub record Threadpool (T : Type 0) : Type 0 where
  pub channel : List T
  pub semaphore : ℕ
  pub worker : WorkerPc
  pub ran : List T
  pub lost : ℕ

module _ {T : Type 0} where
  -- `threadpool()`, when it is first called
  unfoldable pub threadpool : Threadpool T
  threadpool = record { channel = []; semaphore = 0; worker = asleep; ran = []; lost = 0 }

  -- `self.sender.send(..)` of `Threadpool::send`; `none` says that it blocks.
  unfoldable pub enqueue : T → Threadpool T → Option (Threadpool T)
  enqueue task p =
      if ltb (length p.channel) channel_bound
      then some (record p { channel = p.channel ++ (task ∷ []) })
      else none

  -- `ReleaseSemaphore` of `Threadpool::send`: it fails where the count is at its maximum.
  unfoldable pub release : Threadpool T → Threadpool T
  release p =
      if ltb p.semaphore semaphore_max
      then record p { semaphore = p.semaphore + 1 }
      else record p { lost = p.lost + 1 }

  -- `Threadpool::send`, where nothing comes between its two calls.
  unfoldable pub send : T → Threadpool T → Option (Threadpool T)
  unfolding enqueue release
  send task p = elim (enqueue task p) [ none ↦ none | some q ↦ some (release q) ]

  -- The wait of `WorkerThread::in_thread`; `none` says that it goes on.
  unfoldable pub wait : Threadpool T → Option (Threadpool T)
  wait p = elim p.semaphore [
    | zero ↦ none
    | suc n ↦ some (record p { semaphore = n; worker = receiving })
  ]

  -- The `recv` behind it, and the call of what it gives; `none` says that it blocks.
  unfoldable pub receive : Threadpool T → Option (Threadpool T)
  receive p = elim p.channel [
    | [] ↦ none
    | task ∷ rest ↦ some (record p { channel = rest; worker = asleep; ran = p.ran ++ (task ∷ []) })
  ]

  -- One step of the loop of `WorkerThread::in_thread`.
  unfoldable pub work : Threadpool T → Option (Threadpool T)
  unfolding wait receive
  work p = elim p.worker [ asleep ↦ wait p | receiving ↦ receive p ]

  -- The loop of `WorkerThread::in_thread`, up to where it blocks or has made so many steps.
  unfoldable pub in_thread : ℕ → Threadpool T → Threadpool T
  in_thread zero p = p
  in_thread (suc n) p = elim (work p) [ none ↦ p | some q ↦ in_thread n q ]

-- A thread inside `add_task` has sent its task and not released the semaphore yet, or is elsewhere.
pub data SenderPc : Type 0 where
  elsewhere sent : SenderPc

pub record System (T : Type 0) : Type 0 where
  pub pool : Threadpool T
  pub senders : List SenderPc
  pub accepted : List T

-- `accepted` collects the tasks in the order in which the channel took them.
pub data Step {T : Type 0} (s t : System T) : Type 0 where
  sends :
      (before after : List SenderPc) (task : T)
      → s.senders ≡ before ++ (elsewhere ∷ after)
      → enqueue task s.pool ≡ some t.pool
      → t.senders ≡ before ++ (sent ∷ after)
      → t.accepted ≡ s.accepted ++ (task ∷ [])
      → Step s t
  releases :
      (before after : List SenderPc)
      → s.senders ≡ before ++ (sent ∷ after)
      → t.pool ≡ release s.pool
      → t.senders ≡ before ++ (elsewhere ∷ after)
      → t.accepted ≡ s.accepted
      → Step s t
  works : work s.pool ≡ some t.pool → t.senders ≡ s.senders → t.accepted ≡ s.accepted → Step s t

abbrev pub initial : {T : Type 0} → List SenderPc → System T
initial senders = record { pool = threadpool; senders = senders; accepted = [] }

abbrev pub sending : SenderPc → ℕ
sending sent = 1
sending elsewhere = 0

pub data Reach {T : Type 0} (threads : ℕ) : System T → Type 0 where
  start : Reach threads (initial (replicate threads elsewhere))
  later : {s t : System T} → Reach threads s → Step s t → Reach threads t
