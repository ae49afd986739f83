-- ===== src/Tpc/Channel/Levels.antt =====
-- The channel as a list of queues, one for each level: what one thread sees of it.
use kiruna.Base.{
  ℕ, zero, suc, ◌+◌, ◌<◌, List, [], ◌∷◌, ◌++◌, map, Option, none, some, Option-cases, returns,
  get_elem?, set, length, length-append, length-eq_zero, All-get, All-set, All, total, total-set,
  ◌≡◌, ◌⊎◌, inl, inr, arith, refl, ap,
}
use kiruna.Tpc.Channel.Platform.{Semaphore, ArrayQueue}
use kiruna.Tpc.Channel.{
  SharedOne, Channel, got, waits, send_one, pop_one, recv_nonblock, send, scan, recv_all,
}

-- A message joins the end of its level.
abbrev pub put {ℓ} : {E : Type ℓ} → ℕ → E → List (List E) → List (List E)
put level e [] = []
put zero e (q ∷ qs) = (q ++ (e ∷ [])) ∷ qs
put (suc level) e (q ∷ qs) = q ∷ put level e qs

-- The oldest message of the first level that has any.
abbrev pub take_first {ℓ} : {E : Type ℓ} → List (List E) → Option (E × List (List E))
take_first [] = none
take_first ((e ∷ q) ∷ qs) = some (e, q ∷ qs)
take_first ([] ∷ qs) = elim (take_first qs) [ none ↦ none | some (e, qs') ↦ some (e, [] ∷ qs') ]

module _ (S : Semaphore) {E : Type 0} (Q : ArrayQueue E) where
  abbrev pub waiting : SharedOne S Q → List E
  waiting s = Q.contents s.queue

  abbrev pub size : SharedOne S Q → ℕ
  size s = length (waiting s)

  abbrev pub Settled : SharedOne S Q → Type 0
  Settled s = S.count s.local_semaphore ≡ size s

  abbrev pub view : Channel S Q → List (List E)
  view c = map waiting c.shared

  -- The semaphores count the messages.
  pub record Holds (c : Channel S Q) : Type 0 where
    pub settled : All Settled c.shared
    pub counted : S.count c.global_semaphore ≡ total size c.shared

  -- What a `recv_nonblock` on a settled level comes to.
  abbrev pub Taken : SharedOne S Q → Type 0
  Taken s =
      ((waiting s ≡ []) × (recv_nonblock S Q s ≡ returns none))
      ⊎ ((e : E) × (s' : SharedOne S Q) × (recv_nonblock S Q s ≡ returns (some (e, s')))
          × (waiting s ≡ e ∷ waiting s')
          × Settled s')

  pub recv_nonblock-Taken : (s : SharedOne S Q) → Settled s → Taken s
  unfolding recv_nonblock pop_one
  recv_nonblock-Taken s h = go (S.decrement s.local_semaphore) refl
    where
      hit :
          (t : S.State)
          → S.decrement s.local_semaphore ≡ some t
          → (o : Option (E × Q.State)) → Q.pop s.queue ≡ o
          → Taken s
      hit t d none p = absurd (omega (arith, S.decrement-some _ t d, ap length (Q.pop-none _ p)))
      hit t d (some (e, q')) p = inr (
        e,
        record { queue = q'; local_semaphore = t },
        rw (d, recv_nonblock, pop_one, p) refl,
        (Q.pop-some _ q' e p).0,
        omega (arith, S.decrement-some _ t d, ap length ((Q.pop-some _ q' e p).0)),
      )

      go : (o : Option S.State) → S.decrement s.local_semaphore ≡ o → Taken s
      go none d = inl (
        length-eq_zero (waiting s) (omega (arith, S.decrement-none _ d)),
        rw (d, recv_nonblock) refl,
      )
      go (some t) d = hit t d (Q.pop s.queue) refl

  -- The scan over settled levels, against the abstract queues.
  abbrev Scanned : List (SharedOne S Q) → Type 0
  Scanned ss =
      ((take_first (map waiting ss) ≡ none) × (total size ss ≡ 0))
      ⊎ ((e : E) × (ss' : List (SharedOne S Q)) × (scan S Q ss ≡ returns (e, ss'))
          × (take_first (map waiting ss) ≡ some (e, map waiting ss'))
          × All Settled ss'
          × (total size ss ≡ total size ss' + 1))

  scan-Scanned : (ss : List (SharedOne S Q)) → All Settled ss → Scanned ss
  unfolding scan
  scan-Scanned [] h = inl (refl, refl)
  scan-Scanned (s ∷ ss) h = elim (recv_nonblock-Taken s h.0) [
    | inr (e, s', r, w, st) ↦
        inr (e, s' ∷ ss, rw r refl, rw w refl, (st, h.1), omega (arith, ap length w))
    | inl (w, r) ↦ elim (scan-Scanned ss h.1) [
      | inl (t, z) ↦ inl (rw (w, t) refl, omega (arith, ap length w))
      | inr (e, ss', p, t, st, z) ↦
          inr (e, s ∷ ss', rw (r, p) refl, rw (w, t) refl, (h.0, st), omega (arith, ap length w))
    ]
  ]

  -- `recv_all` waits only when no level has a message. Otherwise it takes the oldest message of the
  -- first level that has one, and leaves the rest in its order. It does not panic.
  pub recv_all-takes :
      (c : Channel S Q)
      → Holds c
      → ((take_first (view c) ≡ none) × (recv_all S Q c ≡ returns waits))
        ⊎ ((e : E) × (c' : Channel S Q) × (recv_all S Q c ≡ returns (got e c'))
            × (take_first (view c) ≡ some (e, view c'))
            × Holds c')
  unfolding recv_all
  recv_all-takes c h = go (S.decrement c.global_semaphore) refl (scan-Scanned c.shared h.settled)
    where
      go :
          (o : Option S.State)
          → S.decrement c.global_semaphore ≡ o
          → Scanned c.shared
          → ((take_first (view c) ≡ none) × (recv_all S Q c ≡ returns waits))
            ⊎ ((e : E) × (c' : Channel S Q) × (recv_all S Q c ≡ returns (got e c'))
                × (take_first (view c) ≡ some (e, view c'))
                × Holds c')
      go none d (inl (t, z)) = inl (t, rw (d, recv_all) refl)
      go none d (inr (e, ss', p, t, st, z)) =
          absurd (omega (arith, S.decrement-none _ d, h.counted))
      go (some g) d (inl (t, z)) = absurd (omega (arith, S.decrement-some _ g d, h.counted))
      go (some g) d (inr (e, ss', p, t, st, z)) = inr (
        e,
        record { shared = ss'; global_semaphore = g },
        rw (d, recv_all, p) refl,
        t,
        record { settled = st; counted = omega (arith, S.decrement-some _ g d, h.counted) },
      )

  put-set :
      (ss : List (SharedOne S Q)) (level : ℕ) (s s' : SharedOne S Q) (e : E)
      → get_elem? ss level ≡ some s
      → waiting s' ≡ waiting s ++ (e ∷ [])
      → map waiting (set ss level s') ≡ put level e (map waiting ss)
  put-set [] level s s' e g w = cc
  put-set (x ∷ ss) zero s s' e g w =
      let same : x ≡ s = cc in rw same (ap (λ q. q ∷ map waiting ss) w)
  put-set (x ∷ ss) (suc level) s s' e g w = ap (◌∷◌ (waiting x)) (put-set ss level s s' e g w)

  -- The channel after `send`, where the queue of the level has become `q`.
  abbrev pub sent : Channel S Q → ℕ → SharedOne S Q → Q.State → Channel S Q
  sent c level s q = record {
    shared =
        set c.shared level (record { queue = q; local_semaphore = S.signal s.local_semaphore });
    global_semaphore = S.signal c.global_semaphore;
  }

  sent-Holds :
      (c : Channel S Q) (message : E) (level : ℕ) (s : SharedOne S Q) (q : Q.State)
      → get_elem? c.shared level ≡ some s
      → Q.push s.queue message ≡ some q
      → Holds c
      → Holds (sent c level s q)
  sent-Holds c message level s q g p h =
      let s' : SharedOne S Q = record { queue = q; local_semaphore = S.signal s.local_semaphore } in
      let n : size s' ≡ size s + 1 = omega (
        arith,
        ap length ((Q.push-some _ q message p).0),
        length-append (waiting s) (message ∷ []),
      ) in
      record {
        settled = All-set Settled c.shared level s' h.settled (
            omega (
              arith,
              n,
              S.count-signal s.local_semaphore,
              All-get Settled c.shared level s h.settled g,
            ));
        counted = omega (
          arith,
          n,
          S.count-signal c.global_semaphore,
          h.counted,
          total-set size c.shared level s s' g,
        );
      }

  -- A level whose queue has room takes a message.
  pub send-pushes :
      (c : Channel S Q) (message : E) (level : ℕ) (s : SharedOne S Q)
      → get_elem? c.shared level ≡ some s
      → length (waiting s) < Q.capacity s.queue
      → Holds c
      → (q : Q.State) × (Q.push s.queue message ≡ some q)
        × (send S Q c message level ≡ returns (sent c level s q))
        × Holds (sent c level s q)
  unfolding send send_one
  send-pushes c message level s g room h = elim (Option-cases (Q.push s.queue message)) [
    | inl p ↦ absurd (omega (arith, Q.push-none _ message p))
    | inr (q, p) ↦ (q, p, rw (g, send, send_one, p) refl, sent-Holds c message level s q g p h)
  ]

  -- A message sent to a level whose queue has room joins the end of that level, and no other level
  -- changes; the send does not panic.
  pub send-puts :
      (c : Channel S Q) (message : E) (level : ℕ) (s : SharedOne S Q)
      → get_elem? c.shared level ≡ some s
      → length (waiting s) < Q.capacity s.queue
      → Holds c
      → (c' : Channel S Q) × (send S Q c message level ≡ returns c')
        × (view c' ≡ put level message (view c))
        × Holds c'
  send-puts c message level s g room h =
      let (q, p, same, holds) = send-pushes c message level s g room h in
      (
        sent c level s q,
        same,
        put-set c.shared level s _ message g ((Q.push-some _ q message p).0),
        holds,
      )
