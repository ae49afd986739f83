-- ===== src/Tpc/Bin/Futures/Spawned.antt =====
-- From the spawning of futures in tpc/src/bin.rs to their end.
use kiruna.Base.{
  ℕ, suc, ◌+◌, ◌≤◌, ◌<◌, List, [], ◌∷◌, ◌++◌, append_assoc, append-nil, map, length, length-map,
  length-append, replicate, get_elem?, All, false, some, ready, Outcome, returns, panics, Fault,
  ◌≡◌, refl, ap, sym, ◌∙◌, subst, arith,
}
use kiruna.Base.Priority.{Priority}
use kiruna.Tpc.Global.{GlobalState}
use kiruna.Tpc.Channel
use kiruna.Tpc.Channel.Platform.{Semaphore, ArrayQueue}
use kiruna.Tpc.Channel.{SharedOne, Channel}
use kiruna.Tpc.Channel.Levels.{waiting, put, send-puts}
use kiruna.Tpc.Channel.Threads.Capacity.{room, send-rooms}
use kiruna.Tpc.Bin.{
  ThreadMessage, work, sleeps, Bin, send_to, send_each, enforce, user_waiting_bin, with_bin,
  spawn_mixed, obey, turn,
}
use kiruna.Tpc.Bin.Spawning.{user_waiting_bin-Loaded, Loaded-view, any_priority}
use kiruna.Tpc.Bin.Futures.{Polled, OurFuture, new, poll_ours, Machine, update, perform, rounds}
use kiruna.Tpc.Bin.Futures.Standing.{Stands, turn-Stands}
use kiruna.Tpc.Bin.Futures.Finish.{Distinct, Behaves, Waits, schedule, polled, rounds-finish}

module _ (S : Semaphore) {Job : Type 0} (Q : ArrayQueue (ThreadMessage Job)) where
  first :
      (ss : List (SharedOne S Q)) (p q : List (ThreadMessage Job)) (r r' : ℕ)
      → map (waiting S Q) ss ≡ p ∷ q ∷ []
      → map (room S Q) ss ≡ r ∷ r' ∷ []
      → (s : SharedOne S Q) × (get_elem? ss 1 ≡ some s) × (waiting S Q s ≡ q) × (room S Q s ≡ r')
  first [] p q r r' e k = cc
  first (x ∷ []) p q r r' e k = cc
  first (x ∷ s ∷ ss) p q r r' e k = (s, refl, cc e, cc k)

  send_each-Stands :
      (new messages : List (ThreadMessage Job)) (b : Bin S Q)
      → length new + length messages ≤ 1_000_000
      → Stands S Q b.channel [] messages
      → (b' : Bin S Q) × (send_each S Q new b ≡ returns b')
        × Stands S Q b'.channel [] (messages ++ new)
  unfolding send_each send_to
  send_each-Stands [] messages b fits st =
      (b, refl, subst (Stands S Q b.channel []) (sym (append-nil messages)) st)
  send_each-Stands (m ∷ ms) messages b fits st =
      let (s, at, held, limit) = first b.channel.shared [] messages _ _ st.seen st.limits in
      let small : length (waiting S Q s) < Q.capacity s.queue =
        omega (arith, ap length held, limit, fits) in
      let (c, sends, v, k) = send-puts S Q b.channel m 1 s at small st.holds in
      let next : Stands S Q c [] (messages ++ (m ∷ [])) = record {
        seen = v ∙ ap (put 1 m) st.seen;
        holds = k;
        limits = send-rooms S Q b.channel c m 1 s at sends ∙ st.limits;
      } in
      let (b', rest, st') =
        send_each-Stands ms (messages ++ (m ∷ [])) (record b { channel = c })
          (omega (arith, fits, length-append messages (m ∷ []))) next in
      (
        b',
        rw (sends, rest) refl,
        subst (Stands S Q b'.channel []) (append_assoc messages (m ∷ []) ms) st',
      )

  user_waiting_bin-Stands :
      (state : GlobalState) → Stands S Q (user_waiting_bin S Q state).channel [] []
  unfolding user_waiting_bin Channel.new
  user_waiting_bin-Stands state =
      let l = user_waiting_bin-Loaded S Q state in
      let size = (Q.new_lem 1_000_000).1 in
      record {
        seen = Loaded-view S Q _ [] 1_000_000 l;
        holds = l.holds;
        limits = ap (λ n. n ∷ n ∷ []) size;
      }

  spawned-Stands :
      (p : Priority) (state : GlobalState) (ids : List ℕ)
      → length ids ≤ 1_000_000
      → (b : Bin S Q) × (with_bin S Q p (spawn_mixed S Q ids) (user_waiting_bin S Q state)
          ≡ returns b)
        × Stands S Q b.channel [] (map work ids)
  unfolding spawn_mixed enforce
  spawned-Stands p state ids fits =
      let start = user_waiting_bin S Q state in
      let (b, sends, st) =
        send_each-Stands (map work ids) [] (enforce S Q (length ids) start)
          (omega (arith, fits, length-map {B = ThreadMessage Job} work ids))
          (user_waiting_bin-Stands state) in
      (b, any_priority S Q p (spawn_mixed S Q ids) start ∙ sends, st)

  module _ {F : Type 0} (poll : F → Outcome (Polled F)) where
    abbrev pub machine : Bin S Q → (ℕ → F) → Machine S Q poll
    machine b futures = record { bin = b; futures = λ i. new (futures i) }

    all_Waits :
        (need : ℕ → ℕ) (futures : ℕ → F) (b : Bin S Q) (ids : List ℕ)
        → All (λ i. Behaves poll (need i) (futures i)) ids
        → All (Waits poll S Q need (machine b futures)) ids
    unfolding new
    all_Waits need futures b [] all = tt
    all_Waits need futures b (i ∷ ids) all = ((refl, all.0), all_Waits need futures b ids all.1)

    -- Futures, each another one, are spawned in a new bin; each is pending some number of times, wakes
    -- its waker once each time, and then is ready. Nothing panics, and a worker that nobody else
    -- disturbs polls each future up to its end, in the order in which they were spawned: so often as it
    -- was pending and once more, and never again after it was ready. Then the worker sleeps. There are
    -- at most 1,000,000 futures.
    pub spawn_mixed-finishes :
        (p : Priority) (state : GlobalState) (need : ℕ → ℕ) (futures : ℕ → F) (ids : List ℕ)
        → length ids ≤ 1_000_000
        → Distinct ids
        → All (λ i. Behaves poll (need i) (futures i)) ids
        → (b : Bin S Q) × (with_bin S Q p (spawn_mixed S Q ids) (user_waiting_bin S Q state)
            ≡ returns b)
          × ((w : Machine S Q poll) × (rounds S Q poll
                  (length (schedule need ids))
                  (machine b futures)
                ≡ returns (schedule need ids, w))
              × (turn S Q false w.bin ≡ returns sleeps))
    spawn_mixed-finishes p state need futures ids fits distinct all =
        let (b, spawned, st) = spawned-Stands p state ids fits in
        (
          b,
          spawned,
          rounds-finish poll S Q need ids (machine b futures) st distinct
              (all_Waits need futures b ids all),
        )

    -- A future wakes its waker in the very poll in which it is ready. `OurFuture` does not keep that it
    -- was ready, so that the worker polls it again in its next turn, before every other task; where the
    -- future panics then, as a block that is `async` does, the worker panics.
    pub spawn_mixed-repolls :
        (p : Priority) (state : GlobalState) (futures : ℕ → F) (i : ℕ) (ids : List ℕ) (f : F)
        (wakes n : ℕ) (fault : Fault)
        → length (i ∷ ids) ≤ 1_000_000
        → wakes < 1_000_000
        → poll (futures i) ≡ returns (record { answer = ready tt; future = f; wakes = suc wakes })
        → poll f ≡ panics fault
        → (b : Bin S Q) × (with_bin S Q p (spawn_mixed S Q (i ∷ ids)) (user_waiting_bin S Q state)
            ≡ returns b)
          × (rounds S Q poll (suc (suc n)) (machine b futures) ≡ panics fault)
    unfolding new rounds perform poll_ours obey
    spawn_mixed-repolls p state futures i ids f wakes n fault fits few done broken =
        let (b, spawned, st) = spawned-Stands p state (i ∷ ids) fits in
        let w = machine b futures in
        let messages = map work ids in
        let (c, r, st') =
          polled poll S Q w i [] (work i ∷ messages) [] messages _ st refl refl done
            (omega (arith, few)) in
        let g : OurFuture F = record { underlying = f; locked = false } in
        let (c', t, st'') =
          turn-Stands S Q (work i) (work i ∷ replicate wakes (work i)) messages
            (replicate wakes (work i)) messages c refl st' in
        let now : update i g w.futures i ≡ g = ground arith in
        let again : rounds S Q poll (suc n) (record { bin = c; futures = update i g w.futures })
            ≡ panics fault =
          rw (t, rounds, perform, poll_ours, now, broken) refl in
        (b, spawned, r (suc n) ∙ rw again refl)
