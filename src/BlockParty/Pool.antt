-- ===== src/BlockParty/Pool.antt =====
-- block_party/src/pool.rs and the `WakeResult` of block_party/src/lib.rs: the worker
-- of a pool. The task's `wait_any` and the time that a `recv_timeout` lets pass are arguments.
pub mod Pairs
pub mod Mails
pub mod Shutdown
pub mod Wakeup
use kiruna.Base.{
  ℕ, zero, suc, ◌+◌, ◌-◌, Bool, true, false, if◌then◌else◌, List, [], ◌∷◌, ◌++◌, Option, none, some,
  Outcome, returns, panics, Fault, ◌>>=◌,
}

pub data WakeResult (O : Type 0) : Type 0 where
  task : ℕ → O → WakeResult O
  sidechannel : WakeResult O

pub record WorkerSideInfo (T M : Type 0) : Type 0 where
  pub task : T
  pub mailbox : M

-- What the worker keeps on its stack and what the receiver has for it, beside the mail that it has
-- sent so far and the number of side channels that it has made.
pub record Worker (T M O : Type 0) : Type 0 where
  pub receiver : List (WorkerSideInfo T M)
  pub tasks : List T
  pub mailboxes : List M
  pub mails : List (M × O)
  pub refreshes : ℕ

-- `Vec::remove`: what it takes and what it leaves, or a panic.
unfoldable pub remove : {A : Type 0} → ℕ → List A → Outcome (A × List A)
remove i [] = panics Fault.index_out_of_bounds
remove zero (x ∷ xs) = returns (x, xs)
remove (suc i) (x ∷ xs) = remove i xs >>= λ (a, rest). returns (a, x ∷ rest)

-- Both `push` calls, for one `WorkerSideInfo`.
unfoldable pub push : {T M O : Type 0} → WorkerSideInfo T M → Worker T M O → Worker T M O
push i w = record w {
  tasks = w.tasks ++ (i.task ∷ []);
  mailboxes = w.mailboxes ++ (i.mailbox ∷ []);
}

abbrev pub push_all : {T M O : Type 0} → List (WorkerSideInfo T M) → Worker T M O → Worker T M O
push_all [] w = w
push_all (i ∷ infos) w = push_all infos (push i w)

-- `read_greedy`: everything that the receiver holds by now.
unfoldable pub read_greedy : {T M O : Type 0} → Worker T M O → Worker T M O
read_greedy w = push_all w.receiver (record w { receiver = [] })

-- The start of `worker_fn_user_waiting`, before its loop.
unfoldable pub begin : {T M O : Type 0} → List (WorkerSideInfo T M) → Worker T M O
begin receiver =
    read_greedy
      (record { receiver = receiver; tasks = []; mailboxes = []; mails = []; refreshes = 0 })

module _ {T M O : Type 0} (one_wait_only : Bool) where
  -- `wait_any_one`, by what `wait_any` answers.
  unfoldable pub wait_any_one : WakeResult O → Worker T M O → Outcome (Worker T M O)
  wait_any_one (task idx output) w = remove idx w.tasks >>= λ (t, tasks).
      remove idx w.mailboxes >>= λ (m, mailboxes). returns (record w {
        tasks = tasks;
        mailboxes = mailboxes;
        mails = w.mails ++ ((m, output) ∷ []);
        refreshes = if one_wait_only then w.refreshes + 1 else w.refreshes;
      })
  wait_any_one sidechannel w = returns (record w { refreshes = w.refreshes + 1 })

  -- One turn of the loop of `worker_fn_user_waiting`, where `answer` is what `wait_any` answers if it
  -- is called. `none` says that the `recv_timeout` has nothing and the loop ends.
  unfoldable pub turn : WakeResult O → Worker T M O → Outcome (Option (Worker T M O))
  turn answer w = elim w.tasks [
    | t ∷ ts ↦ wait_any_one answer (read_greedy w) >>= λ w'. returns (some w')
    | [] ↦ elim w.receiver [
      | [] ↦ returns none
      | i ∷ rest ↦ returns (some (push i (record w { receiver = rest })))
    ]
  ]
