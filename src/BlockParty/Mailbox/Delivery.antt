-- ===== src/BlockParty/Mailbox/Delivery.antt =====
-- The delivery of an output through the mailbox of block_party/src/future.rs.
use kiruna.Base.{
  panics, Fault, pending, ℕ, true, false, List, [], ◌∷◌, ◌++◌, Option, none, some, ready, Outcome,
  returns, ◌>>=◌, ◌≡◌, refl, ap,
}
use kiruna.Base.AtomicWaker.{AtomicWaker}
use kiruna.Base.Priority.{Priority}
use kiruna.BlockParty.Mailbox.{
  Mailbox, Future, mailbox, send_mail, recv_mail, assume_init_read, new, poll_thunk, poll,
}

abbrev pub to_list {ℓ} : {T : Type ℓ} → Option T → List T
to_list none = []
to_list (some t) = t ∷ []

abbrev pub last : ℕ → List ℕ → ℕ
last w [] = w
last w (v ∷ ws) = last v ws

module _ (A : AtomicWaker) where
  abbrev register_all : List ℕ → A.State → A.State
  register_all [] s = s
  register_all (w ∷ ws) s = register_all ws (A.register w s)

  held-register_all :
      (w : ℕ) (ws : List ℕ) (s : A.State) → A.held (register_all (w ∷ ws) s) ≡ some (last w ws)
  held-register_all w [] s = A.held-register w s
  held-register_all w (v ∷ ws) s = held-register_all v ws (A.register w s)

module _ (A : AtomicWaker) {T O : Type 0} where
  -- The future is polled with each waker in turn and has to be pending; what it launches.
  abbrev pub poll_all : List ℕ → Future A T O → Outcome (List T × Future A T O)
  poll_all [] f = returns ([], f)
  poll_all (w ∷ ws) f = poll A w (λ m. m) f >>= λ p. elim p.answer [
    | pending ↦ poll_all ws p.future >>= λ (ts, f'). returns (to_list p.launches ++ ts, f')
    | ready r ↦ panics Fault.explicit_panic
  ]

  -- The task is with the worker, and the mailbox is empty.
  abbrev awaiting : Priority → A.State → Future A T O
  awaiting priority s = record {
    task = none;
    mailbox = record (mailbox A) { waker = s };
    priority = priority;
  }

  poll_all-awaiting :
      (priority : Priority) (ws : List ℕ) (s : A.State)
      → poll_all ws (awaiting priority s) ≡ returns ([], awaiting priority (register_all A ws s))
  unfolding poll poll_thunk recv_mail mailbox
  poll_all-awaiting priority [] s = refl
  poll_all-awaiting priority (w ∷ ws) s = rw (poll_all-awaiting priority ws (A.register w s)) refl

  -- A future that is polled once or more hands its task to the pool exactly once, and each poll is
  -- pending. An output that the worker sends then is delivered without a panic and wakes the waker of
  -- the last poll; the next poll, through whichever waker, answers with that output.
  pub poll_all-delivers :
      (task : T) (priority : Priority) (w : ℕ) (ws : List ℕ) (o : O) (v : ℕ)
      → (f : Future A T O) × (poll_all (w ∷ ws) (new A task priority) ≡ returns (task ∷ [], f))
        × ((m : Mailbox A O) × (send_mail A o f.mailbox ≡ returns (m, some (last w ws)))
            × ((f' : Future A T O) × (poll A v (λ k. k) (record f { mailbox = m })
                  ≡ returns (record { answer = ready o; future = f'; launches = none }))))
  unfolding new mailbox send_mail poll poll_thunk recv_mail assume_init_read
  poll_all-delivers task priority w ws o v =
      let s = register_all A (w ∷ ws) A.new in
      let m : Mailbox A O = record {
        has_output = true;
        output = some o;
        waker = A.take s;
        sent = true;
        read = false;
      } in
      (
        awaiting priority s,
        rw (poll_all-awaiting priority ws (A.register w A.new)) refl,
        (m, ap (λ k. returns (m, k)) (held-register_all A w ws A.new), (_, refl)),
      )
