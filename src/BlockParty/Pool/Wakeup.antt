-- ===== src/BlockParty/Pool/Wakeup.antt =====
-- block_party/src/pool.rs as interleaved steps: the senders in `launch_if_needed_user_waiting` and the
-- worker, whose task channel, flag and side channel they share. A step is one call that others see.
pub mod Heard
mod Tests
use kiruna.Base.{ℕ, Bool, true, false, if◌then◌else◌, List, [], ◌∷◌, ◌++◌, replicate, ◌≡◌}

-- Where a sender stands: outside, behind `send`, before `spawn_thread` or before the `wake`.
pub data SenderPc : Type 0 where
  away sent launching swapped : SenderPc

-- Where the worker stands: before it is spawned and after it has left, in `read_greedy`, in `wait_any`,
-- before it makes a new side channel, in the longer `recv_timeout`, and behind the loop.
pub data WorkerPc : Type 0 where
  gone reading waiting refreshing resting leaving : WorkerPc

-- `woken` is whether the side channel that is in its place has been woken.
pub record Shared (I : Type 0) : Type 0 where
  pub receiver : List I
  pub thread_launched : Bool
  pub woken : Bool
  pub worker : WorkerPc
  pub tasks : List I

-- The moves of `launch_if_needed_user_waiting`; the channel is bounded by 1.
pub data Sender {I : Type 0} (p : Shared I) : SenderPc → Shared I → SenderPc → Type 0 where
  sends : (info : I) → p.receiver ≡ [] → Sender p away (record p { receiver = info ∷ [] }) sent
  launches :
      p.thread_launched ≡ false → Sender p sent (record p { thread_launched = true }) launching
  swaps : p.thread_launched ≡ true → Sender p sent p swapped
  spawns : Sender p launching (record p { worker = reading; tasks = [] }) away
  wakes : Sender p swapped (record p { woken = true }) away

-- The test of the worker's loop.
unfoldable pub top : {I : Type 0} → List I → WorkerPc
top [] = resting
top (i ∷ is) = reading

-- The moves of `worker_fn_user_waiting`. `wait_any` may answer the side channel at any time.
pub data Worker {I : Type 0} (one_wait_only : Bool) (p : Shared I) : Shared I → Type 0 where
  takes :
      (info : I) (rest : List I)
      → p.worker ≡ reading
      → p.receiver ≡ info ∷ rest
      → Worker one_wait_only p (record p { receiver = rest; tasks = p.tasks ++ (info ∷ []) })
  asks :
      (info : I) (rest : List I)
      → p.worker ≡ reading
      → p.receiver ≡ []
      → p.tasks ≡ info ∷ rest
      → Worker one_wait_only p (record p { worker = waiting })
  rests :
      p.worker ≡ reading
      → p.receiver ≡ []
      → p.tasks ≡ []
      → Worker one_wait_only p (record p { worker = resting })
  notices : p.worker ≡ waiting → Worker one_wait_only p (record p { worker = refreshing })
  mails :
      (before after : List I) (info : I)
      → p.worker ≡ waiting
      → p.tasks ≡ before ++ (info ∷ after)
      → Worker one_wait_only p (record p {
        tasks = before ++ after;
        worker = if one_wait_only then refreshing else top (before ++ after);
      })
  refreshes :
      p.worker ≡ refreshing
      → Worker one_wait_only p (record p { woken = false; worker = top p.tasks })
  receives :
      (info : I) (rest : List I)
      → p.worker ≡ resting
      → p.receiver ≡ info ∷ rest
      → Worker one_wait_only p (record p { receiver = rest; tasks = info ∷ []; worker = reading })
  times_out :
      p.worker ≡ resting → p.receiver ≡ [] → Worker one_wait_only p (record p { worker = leaving })
  shuts_down :
      p.worker ≡ leaving
      → Worker one_wait_only p (record p { thread_launched = false; worker = gone })

pub record System (I : Type 0) : Type 0 where
  pub shared : Shared I
  pub senders : List SenderPc

pub data Step {I : Type 0} (one_wait_only : Bool) (s t : System I) : Type 0 where
  sender :
      (before after : List SenderPc) (pc pc' : SenderPc)
      → s.senders ≡ before ++ (pc ∷ after)
      → Sender s.shared pc t.shared pc'
      → t.senders ≡ before ++ (pc' ∷ after)
      → Step one_wait_only s t
  worker : Worker one_wait_only s.shared t.shared → t.senders ≡ s.senders → Step one_wait_only s t

-- A new pool, with so many threads that will send.
abbrev pub initial : {I : Type 0} → ℕ → System I
initial threads = record {
  shared = record {
    receiver = [];
    thread_launched = false;
    woken = false;
    worker = gone;
    tasks = [];
  };
  senders = replicate threads away;
}

pub data Reach {I : Type 0} (one_wait_only : Bool) (threads : ℕ) : System I → Type 0 where
  start : Reach one_wait_only threads (initial threads)
  later :
      {s t : System I}
      → Reach one_wait_only threads s
      → Step one_wait_only s t
      → Reach one_wait_only threads t
