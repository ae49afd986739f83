-- ===== src/BlockParty/Mailbox.antt =====
-- block_party/src/future.rs: the mailbox between a worker and a future, and the future's poll.
pub mod Delivery
use kiruna.Base.{
  ℕ, Bool, true, false, if◌then◌else◌, Option, none, some, Poll, ready, pending, Outcome, returns,
  panics, Fault, ◌>>=◌,
}
use kiruna.Base.AtomicWaker.{AtomicWaker}
use kiruna.Base.Priority.{Priority}

-- `output` is the cell of `MaybeUninit`, which `has_output` guards; the three flags `sent`, `read` and
-- `has_output` belong to the sender, the receiver and both.
pub record Mailbox (A : AtomicWaker) (O : Type 0) : Type 0 where
  pub has_output : Bool
  pub output : Option O
  pub waker : A.State
  pub sent : Bool
  pub read : Bool

-- `TaskInfo` with the sending half of the mailbox; the halves share one `Mailbox` here.
pub record Future (A : AtomicWaker) (T O : Type 0) : Type 0 where
  pub task : Option T
  pub mailbox : Mailbox A O
  pub priority : Priority

module _ (A : AtomicWaker) {O : Type 0} where
  -- `mailbox()`
  unfoldable pub mailbox : Mailbox A O
  mailbox = record { has_output = false; output = none; waker = A.new; sent = false; read = false }

  -- `MailboxSender::send_mail`: the mailbox that it leaves, and the waker that it wakes.
  unfoldable pub send_mail : O → Mailbox A O → Outcome (Mailbox A O × Option ℕ)
  send_mail o m =
      if m.sent
      then panics Fault.assertion
      else (if m.has_output
          then panics Fault.assertion
          else returns (
            record m { sent = true; output = some o; has_output = true; waker = A.take m.waker },
            A.held m.waker,
          ))

  -- The read of the cell: that of a cell without a value is undefined, which is a panic here.
  unfoldable pub assume_init_read : Option O → Mailbox A O → Outcome (Option O × Mailbox A O)
  assume_init_read none m = panics Fault.unwrap_none
  assume_init_read (some o) m = returns (some o, record m { read = true })

  -- `MailboxReceiver::recv_mail`
  unfoldable pub recv_mail : Mailbox A O → Outcome (Option O × Mailbox A O)
  recv_mail m =
      if m.has_output
      then (if m.read then panics Fault.assertion else assume_init_read m.output m)
      else returns (none, m)

-- Whether a poll answers, and the task that it hands to `launch_if_needed_user_waiting`.
pub record Polled (A : AtomicWaker) (T O : Type 0) : Type 0 where
  pub answer : Poll O
  pub future : Future A T O
  pub launches : Option T

module _ (A : AtomicWaker) {T O : Type 0} where
  -- `Future::new`
  unfoldable pub new : T → Priority → Future A T O
  new task priority = record { task = some task; mailbox = mailbox A; priority = priority }

  -- `poll_thunk`
  unfoldable pub poll_thunk : Future A T O → Outcome (Poll O × Future A T O)
  poll_thunk f = recv_mail A f.mailbox >>= λ (mail, m). returns (elim mail [
    | none ↦ (pending, record f { mailbox = m })
    | some o ↦ (ready o, record f { mailbox = m })
  ])

  -- `Future::poll`: the mailbox of the worker's thread may fill up between the two reads, which the
  -- function `meanwhile` does.
  unfoldable pub poll :
      (waker : ℕ) → (Mailbox A O → Mailbox A O) → Future A T O → Outcome (Polled A T O)
  poll waker meanwhile f =
      let registered = record f.mailbox { waker = A.register waker f.mailbox.waker } in
      elim f.task [
        | some task ↦ returns (record {
          answer = pending;
          future = record f { task = none; mailbox = registered };
          launches = some task;
        })
        | none ↦ poll_thunk f >>= λ (answer, f'). elim answer [
          | ready o ↦ returns (record { answer = ready o; future = f'; launches = none })
          | pending ↦ poll_thunk (record f { mailbox = meanwhile registered }) >>= λ (again, f'').
              returns (record { answer = again; future = f''; launches = none })
        ]
      ]
