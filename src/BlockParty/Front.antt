-- ===== src/BlockParty/Front.antt =====
-- The futures of block_party/src/future.rs and the pool of block_party/src/pool.rs together: a future
-- and its mailbox have the same number, and the mails of the worker go into the mailboxes.
use kiruna.Base.{
  subst, ℕ, ◌+◌, ◌≤◌, List, [], ◌∷◌, ◌++◌, map, Bool, true, false, ◌==◌, if◌then◌else◌, Has, All,
  none, some, ready, pending, Outcome, returns, ◌>>=◌, ◌≡◌, inl, inr, refl, ap, sym, ◌∙◌, arith,
}
use kiruna.Base.AtomicWaker.{AtomicWaker}
use kiruna.Base.Priority.{Priority}
use kiruna.BlockParty.Mailbox.{
  Mailbox, Future, mailbox, send_mail, recv_mail, assume_init_read, new, poll_thunk, poll,
}
use kiruna.BlockParty.Mailbox.Delivery.{to_list}
use kiruna.BlockParty.Pool.{Worker, begin}
use kiruna.BlockParty.Pool.Mails.{Event, occurs, run, arrived, mailed, places}
use kiruna.BlockParty.Pool.Mails.Turns.{Sound}
use kiruna.BlockParty.Pool.Mails.Run.{run-mails}

All-Has : {B : Type 0} (P : B → Type 0) (b : B) (xs : List B) → All P xs → Has b xs → P b
All-Has P b [] all h = absurd h
All-Has P b (x ∷ xs) all (inl e) = subst P e all.0
All-Has P b (x ∷ xs) all (inr h) = All-Has P b xs all.1 h

Has-occurs :
    {O : Type 0} (m : ℕ) (o : O) (mails : List (ℕ × O))
    → Has (m, o) mails
    → 1 ≤ occurs m (map (λ p. p.0) mails)
Has-occurs m o [] h = absurd h
Has-occurs m o ((n, q) ∷ mails) (inl e) = let same : n ≡ m = ap (λ p. p.0) e in ground (arith, same)
Has-occurs m o ((n, q) ∷ mails) (inr h) = omega (arith, Has-occurs m o mails h)

module _ (A : AtomicWaker) {O : Type 0} where
  abbrev empty_box : ℕ → Mailbox A O
  empty_box w = record (mailbox A) { waker = A.register w A.new }

  abbrev full_box : ℕ → O → Mailbox A O
  full_box w o = record {
    has_output = true;
    output = some o;
    waker = A.take (A.register w A.new);
    sent = true;
    read = false;
  }

  send_mail-empty_box :
      (w : ℕ) (o : O) → send_mail A o (empty_box w) ≡ returns (full_box w o, some w)
  unfolding send_mail mailbox
  send_mail-empty_box w o = rw (A.held-register w A.new) refl

module _ (A : AtomicWaker) {T O : Type 0} where
  abbrev update : ℕ → Future A T O → (ℕ → Future A T O) → (ℕ → Future A T O)
  update n f fs = λ k. if n == k then f else fs k

  -- `mailbox.send_mail(output)` for each mail: the futures that it leaves, and the wakers it wakes.
  abbrev pub send_mails : List (ℕ × O) → (ℕ → Future A T O) → Outcome ((ℕ → Future A T O) × List ℕ)
  send_mails [] fs = returns (fs, [])
  send_mails ((n, o) ∷ mails) fs = send_mail A o (fs n).mailbox >>= λ (m, woken).
      send_mails mails (update n (record (fs n) { mailbox = m }) fs) >>= λ (gs, wakes).
      returns (gs, to_list woken ++ wakes)

  -- A future that has launched its task, polled with the waker, and one that has got its mail.
  abbrev asleep : Priority → ℕ → Future A T O
  asleep priority w = record { task = none; mailbox = empty_box A w; priority = priority }

  abbrev filled : Priority → ℕ → O → Future A T O
  filled priority w o = record { task = none; mailbox = full_box A w o; priority = priority }

  update_self : (n : ℕ) (f : Future A T O) (fs : ℕ → Future A T O) → update n f fs n ≡ f
  update_self n f fs = ground arith

  module _ (priority : Priority) (waker : ℕ → ℕ) where
    abbrev Filled : List (ℕ × O) → (ℕ → Future A T O) → Type 0
    Filled mails fs =
        (gs : ℕ → Future A T O) × (send_mails mails fs ≡ returns (gs, map (λ p. waker p.0) mails))
        × ((m : ℕ) (o : O) → Has (m, o) mails → gs m ≡ filled priority (waker m) o)
        × ((m : ℕ) → occurs m (map (λ p. p.0) mails) ≡ 0 → gs m ≡ fs m)

    send_mails-fills :
        (mails : List (ℕ × O)) (fs : ℕ → Future A T O)
        → ((m : ℕ) → occurs m (map (λ p. p.0) mails) ≤ 1)
        → ((m : ℕ) → 1 ≤ occurs m (map (λ p. p.0) mails) → fs m ≡ asleep priority (waker m))
        → Filled mails fs
    send_mails-fills [] fs once sleeping = (fs, refl, λ m o h. absurd h, λ m z. refl)
    send_mails-fills ((n, o) ∷ mails) fs once sleeping =
        let here : fs n ≡ asleep priority (waker n) = sleeping n (ground arith) in
        let f = filled priority (waker n) o in
        let last : occurs n (map (λ p. p.0) mails) ≡ 0 = ground (arith, once n) in
        let hs = update n f fs in
        let (gs, done, got, kept) =
          send_mails-fills mails hs (λ m. omega (arith, once m))
            (λ m h.
              let other : (n == m) ≡ false = ground (arith, once m, h) in
              let there : fs m ≡ asleep priority (waker m) = sleeping m (omega (arith, h)) in
              rw other there) in
        (
          gs,
          rw (here, send_mail-empty_box A (waker n) o) (rw done refl),
          λ m q h. elim h [
            | inl e ↦
                ap gs (sym (ap (λ p. p.0) e))
                ∙ kept n last
                ∙ update_self n f fs
                ∙ ap (λ p. filled priority (waker p.0) p.1) e
            | inr h' ↦ got m q h'
          ],
          λ m z.
              let other : (n == m) ≡ false = ground (arith, z) in
              kept m (omega (arith, z)) ∙ rw other refl,
        )

  poll-asleep :
      (priority : Priority) (w v : ℕ)
      → (f : Future A T O) × (poll A v (λ k. k) (asleep priority w)
          ≡ returns (record { answer = pending; future = f; launches = none }))
  unfolding poll poll_thunk recv_mail mailbox
  poll-asleep priority w v = (_, refl)

  poll-filled :
      (priority : Priority) (w v : ℕ) (o : O)
      → (f : Future A T O) × (poll A v (λ k. k) (filled priority w o)
          ≡ returns (record { answer = ready o; future = f; launches = none }))
  unfolding poll poll_thunk recv_mail assume_init_read
  poll-filled priority w v o = (_, refl)

  -- Futures that are polled once each launch their task and are pending. A worker starts with nothing
  -- to do, the tasks arrive, each with the mailbox of its future and none twice, and `wait_any` only
  -- ever names a task that it was shown, with an output of it. Then the worker does not panic, and
  -- neither does a delivery of its mails: each mail wakes the waker of its own future, whose next poll
  -- is ready with what was sent, an output of its own task; the poll of a future without mail is
  -- pending and launches nothing. Each mailbox that has arrived has got its mail, or its task is still
  -- with the worker.
  pub run-delivers :
      (Says : T → O → Type 0) (one_wait_only : Bool) (priority : Priority) (waker : ℕ → ℕ)
      (task : ℕ → T) (es : List (Event T O))
      → All (Sound (λ t m. t ≡ task m) Says) es
      → ((m : ℕ) → occurs m (arrived es) ≤ 1)
      → (fs : ℕ → Future A T O) × ((m : ℕ)
          → poll A (waker m) (λ k. k) (new A (task m) priority)
            ≡ returns (record { answer = pending; future = fs m; launches = some (task m) }))
        × ((w : Worker T ℕ O) × (rest : List (Event T O)) × (run one_wait_only es (begin [])
              ≡ returns (w, rest))
            × ((m : ℕ) → places m w + occurs m (arrived rest) ≡ occurs m (arrived es))
            × ((gs : ℕ → Future A T O) × (send_mails w.mails fs
                  ≡ returns (gs, map (λ p. waker p.0) w.mails))
                × ((m v : ℕ) (o : O)
                    → Has (m, o) w.mails
                    → Says (task m) o
                      × ((f : Future A T O) × (poll A v (λ k. k) (gs m)
                            ≡ returns (record { answer = ready o; future = f; launches = none }))))
                × ((m v : ℕ)
                    → occurs m (mailed w) ≡ 0
                    → (f : Future A T O) × (poll A v (λ k. k) (gs m)
                        ≡ returns (record { answer = pending; future = f; launches = none })))))
  unfolding new poll mailbox
  run-delivers Says one_wait_only priority waker task es sound once =
      let fs : ℕ → Future A T O = λ m. asleep priority (waker m) in
      let (w, rest, ran, moved, few, met) =
        run-mails (λ t m. t ≡ task m) Says one_wait_only es sound in
      let (gs, done, got, kept) =
        send_mails-fills priority waker w.mails fs (λ m. omega (arith, few m, once m))
          (λ m h. refl) in
      (
        fs,
        λ m. refl,
        (
          w,
          rest,
          ran,
          moved,
          (
            gs,
            done,
            λ m v o h.
                let (t, own, says) = All-Has _ (m, o) w.mails met h in
                (
                  subst (λ u. Says u o) own says,
                  rw (got m o h) (poll-filled priority (waker m) v o),
                ),
            λ m v z. rw (kept m z) (poll-asleep priority (waker m) v),
          ),
        ),
      )
