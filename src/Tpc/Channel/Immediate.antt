-- ===== src/Tpc/Channel/Immediate.antt =====
-- `recv_immediate` and a new channel, against the list of queues.
use kiruna.Base.{
  ℕ, zero, suc, List, [], ◌∷◌, map, Option, none, some, returns, get_elem?, set, replicate, length,
  All, All-get, All-set, total, total-set, le-total, ◌<◌, ◌≡◌, ◌⊎◌, inl, inr, arith, refl, ap,
}
use kiruna.Tpc.Channel.Platform.{Semaphore, ArrayQueue}
use kiruna.Tpc.Channel.{
  SharedOne, Channel, new, send, recv_level, recv_immediate, recv_all, got, waits,
}
use kiruna.Tpc.Channel.Levels.{
  waiting, size, view, put, take_first, Settled, Holds, Taken, recv_nonblock-Taken, send-puts,
  recv_all-takes,
}

module _ (S : Semaphore) {E : Type 0} (Q : ArrayQueue E) where
  abbrev empty_level : ℕ → SharedOne S Q
  empty_level bounded = record { queue = Q.new bounded; local_semaphore = S.new }

  replicate-Holds :
      (n bounded : ℕ)
      → All (Settled S Q) (replicate n (empty_level bounded))
        × (total (size S Q) (replicate n (empty_level bounded)) ≡ 0)
  replicate-Holds zero bounded = (tt, refl)
  replicate-Holds (suc n) bounded =
      let no_message : length (Q.contents (Q.new bounded)) ≡ 0 =
        ap length ((Q.new_lem bounded).0) in
      let (settled, none_there) = replicate-Holds n bounded in
      ((omega (arith, S.count-new, no_message), settled), omega (arith, no_message, none_there))

  -- A new channel counts its messages: there are none.
  pub new-Holds : (bounded levels : ℕ) → Holds S Q (new S Q bounded levels)
  unfolding new
  new-Holds bounded levels =
      let (settled, none_there) = replicate-Holds levels bounded in
      record { settled = settled; counted = omega (arith, S.count-new, none_there) }

  map-set :
      (ss : List (SharedOne S Q)) (level : ℕ) (s' : SharedOne S Q)
      → map (waiting S Q) (set ss level s') ≡ set (map (waiting S Q) ss) level (waiting S Q s')
  map-set [] level s' = refl
  map-set (x ∷ ss) zero s' = refl
  map-set (x ∷ ss) (suc level) s' = ap (◌∷◌ (waiting S Q x)) (map-set ss level s')

  -- What a `recv_immediate` at a level `s` comes to.
  abbrev pub Immediate : Channel S Q → ℕ → SharedOne S Q → Type 0
  Immediate c level s =
      ((waiting S Q s ≡ [])
        × ((c' : Channel S Q) × (recv_immediate S Q c level ≡ returns (none, c'))
            × (view S Q c' ≡ view S Q c)
            × Holds S Q c'))
      ⊎ ((e : E) × (rest : List E) × (c' : Channel S Q) × (waiting S Q s ≡ e ∷ rest)
          × (recv_immediate S Q c level ≡ returns (some e, c'))
          × (view S Q c' ≡ set (view S Q c) level rest)
          × Holds S Q c')

  -- `recv_immediate` gives nothing and changes nothing exactly when its level has no message, whatever
  -- the others hold; otherwise it takes the oldest message of that level. It does not panic.
  pub recv-Immediate-takes :
      (c : Channel S Q) (level : ℕ) (s : SharedOne S Q)
      → get_elem? c.shared level ≡ some s
      → Holds S Q c
      → Immediate c level s
  unfolding recv_immediate recv_level
  recv-Immediate-takes c level s g h =
      go (S.decrement c.global_semaphore) refl (recv_nonblock-Taken S Q s settled)
    where
      settled : Settled S Q s
      settled = All-get (Settled S Q) c.shared level s h.settled g

      go :
          (o : Option S.State)
          → S.decrement c.global_semaphore ≡ o
          → Taken S Q s
          → Immediate c level s
      go none d (inl (w, r)) = inl (w, (c, rw (d, recv_immediate) refl, refl, h))
      go none d (inr (e, s', r, w, st)) = absurd (
          omega (
            arith,
            S.decrement-none _ d,
            h.counted,
            le-total (size S Q) c.shared level s g,
            ap length w,
          ))
      go (some t) d (inl (w, r)) = inl (
        w,
        (
          record c { global_semaphore = S.signal t },
          rw (d, recv_immediate, recv_level, g, r) refl,
          refl,
          record {
            settled = h.settled;
            counted = omega (arith, S.count-signal t, S.decrement-some _ t d, h.counted);
          },
        ),
      )
      go (some t) d (inr (e, s', r, w, st)) = inr (
        e,
        waiting S Q s',
        record { shared = set c.shared level s'; global_semaphore = t },
        w,
        rw (d, recv_immediate, recv_level, g, r) refl,
        map-set c.shared level s',
        record {
          settled = All-set (Settled S Q) c.shared level s' h.settled st;
          counted = omega (
            arith,
            S.decrement-some _ t d,
            h.counted,
            ap length w,
            total-set (size S Q) c.shared level s s' g,
          );
        },
      )

  -- The three methods against a list of queues, one for each level, in a channel whose semaphores count
  -- its messages. A message sent to a level whose queue has room joins the end of that level and
  -- changes no other. `recv_immediate` gives nothing and changes nothing exactly when its level has no
  -- message, whatever the others hold; otherwise it takes the oldest message of that level. `recv_all`
  -- waits only when no level has a message; otherwise it takes the oldest message of the first level
  -- that has one. None of them panics, and the semaphores count the messages afterwards.
  pub methods_refine :
      (c : Channel S Q) (message : E) (level : ℕ) (s : SharedOne S Q)
      → get_elem? c.shared level ≡ some s
      → length (waiting S Q s) < Q.capacity s.queue
      → Holds S Q c
      → ((c' : Channel S Q) × (send S Q c message level ≡ returns c')
          × (view S Q c' ≡ put level message (view S Q c))
          × Holds S Q c')
        × Immediate c level s
        × (((take_first (view S Q c) ≡ none) × (recv_all S Q c ≡ returns waits))
            ⊎ ((e : E) × (c' : Channel S Q) × (recv_all S Q c ≡ returns (got e c'))
                × (take_first (view S Q c) ≡ some (e, view S Q c'))
                × Holds S Q c'))
  methods_refine c message level s g room h = (
    send-puts S Q c message level s g room h,
    recv-Immediate-takes c level s g h,
    recv_all-takes S Q c h,
  )
