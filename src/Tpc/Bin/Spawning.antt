-- ===== src/Tpc/Bin/Spawning.antt =====
-- From the spawning methods of tpc/src/bin.rs, through the channel, to the loop of a worker.
pub mod Drain
use kiruna.Base.{
  ℕ, suc, ◌+◌, ◌-◌, ◌≤◌, ◌<◌, List, [], ◌∷◌, ◌++◌, map, append_assoc, append-nil, length,
  length-append, length-map, get_elem?, set, some, Outcome, returns, false, ◌≡◌, refl, ap, ◌∙◌,
  subst, arith,
}
use kiruna.Base.Priority.{Priority, user_waiting, testing}
use kiruna.Tpc.Global.{GlobalState}
use kiruna.Tpc.Channel
use kiruna.Tpc.Channel.Platform.{Semaphore, ArrayQueue}
use kiruna.Tpc.Channel.{SharedOne, Channel, send}
use kiruna.Tpc.Channel.Levels.{waiting, view, Holds, sent, send-pushes}
use kiruna.Tpc.Bin.{
  ThreadMessage, simple, work, sleeps, Bin, send_to, send_each, enforce, user_waiting_bin, with_bin,
  spawn_mixed, spawn_mixed_simple, turn,
}
use kiruna.Tpc.Bin.Spawning.Drain.{turns, turns-drains}

module _ (S : Semaphore) {Job : Type 0} (Q : ArrayQueue (ThreadMessage Job)) where
  -- Nothing waits in level 0, and level 1 holds the messages and has room for more.
  pub record Loaded (c : Channel S Q) (messages : List (ThreadMessage Job)) (room : ℕ)
      : Type 0 where
    zeroth : SharedOne S Q
    first : SharedOne S Q
    levels : c.shared ≡ zeroth ∷ first ∷ []
    quiet : waiting S Q zeroth ≡ []
    held : waiting S Q first ≡ messages
    bound : Q.capacity first.queue ≡ length messages + room
    pub holds : Holds S Q c

  send-Loaded :
      (c : Channel S Q) (messages : List (ThreadMessage Job)) (m : ThreadMessage Job) (room : ℕ)
      → Loaded c messages (suc room)
      → (c' : Channel S Q) × (send S Q c m 1 ≡ returns c') × Loaded c' (messages ++ (m ∷ [])) room
  send-Loaded c messages m room l =
      let at : get_elem? c.shared 1 ≡ some l.first = ap (λ ss. get_elem? ss 1) l.levels in
      let fits : length (waiting S Q l.first) < Q.capacity l.first.queue =
        omega (arith, l.bound, ap length l.held) in
      let (q, p, same, holds) = send-pushes S Q c m 1 l.first at fits l.holds in
      let pushed = Q.push-some l.first.queue q m p in
      let first : SharedOne S Q = record {
        queue = q;
        local_semaphore = S.signal l.first.local_semaphore;
      } in
      (
        sent S Q c 1 l.first q,
        same,
        record {
          zeroth = l.zeroth;
          first = first;
          levels = ap (λ ss. set ss 1 first) l.levels;
          quiet = l.quiet;
          held = pushed.0 ∙ ap (λ ms. ms ++ (m ∷ [])) l.held;
          bound = omega (arith, pushed.1, l.bound, length-append messages (m ∷ []));
          holds = holds;
        },
      )

  pub send_each-Loaded :
      (new messages : List (ThreadMessage Job)) (room : ℕ) (b : Bin S Q)
      → Loaded b.channel messages (length new + room)
      → (b' : Bin S Q) × (send_each S Q new b ≡ returns b')
        × Loaded b'.channel (messages ++ new) room
        × (b'.state ≡ b.state)
  unfolding send_each send_to
  send_each-Loaded [] messages room b l =
      (b, refl, rw (append-nil messages) (subst (Loaded b.channel messages) (omega arith) l), refl)
  send_each-Loaded (m ∷ new) messages room b l =
      let (c, same, l') =
        send-Loaded b.channel messages m (length new + room)
          (subst (Loaded b.channel messages) (omega arith) l) in
      let (b', rest, l'', kept) =
        send_each-Loaded new (messages ++ (m ∷ [])) room (record b { channel = c }) l' in
      (
        b',
        rw (same, rest) refl,
        subst (λ ms. Loaded b'.channel ms room) (append_assoc messages (m ∷ []) new) l'',
        kept,
      )

  pub Loaded-view :
      (c : Channel S Q) (messages : List (ThreadMessage Job)) (room : ℕ)
      → Loaded c messages room
      → view S Q c ≡ [] ∷ messages ∷ []
  Loaded-view c messages room l = ap (map (waiting S Q)) l.levels ∙ rw (l.quiet, l.held) refl

  new-Holds : (bounded : ℕ) → Holds S Q (Channel.new S Q bounded 2)
  unfolding Channel.new
  new-Holds bounded =
      let one : S.count S.new ≡ length (Q.contents (Q.new bounded)) =
        omega (arith, S.count-new, ap length ((Q.new_lem bounded).0)) in
      record { settled = (one, (one, tt)); counted = omega (arith, one, S.count-new) }

  pub user_waiting_bin-Loaded :
      (state : GlobalState) → Loaded (user_waiting_bin S Q state).channel [] 1_000_000
  unfolding user_waiting_bin Channel.new
  user_waiting_bin-Loaded state =
      let empty = Q.new_lem 1_000_000 in
      record {
        zeroth = record { queue = Q.new 1_000_000; local_semaphore = S.new };
        first = record { queue = Q.new 1_000_000; local_semaphore = S.new };
        levels = refl;
        quiet = empty.0;
        held = empty.0;
        bound = omega (arith, empty.1);
        holds = new-Holds 1_000_000;
      }

  pub any_priority :
      (p : Priority) (f : Bin S Q → Outcome (Bin S Q)) (b : Bin S Q) → with_bin S Q p f b ≡ f b
  unfolding with_bin
  any_priority user_waiting f b = refl
  any_priority testing f b = refl

  -- The executor takes a batch of futures and then one of jobs, each at any priority, with the
  -- threads that the policy starts for each: nothing panics, and they wait in level 1 of the bin. A
  -- worker that nobody else disturbs then deals with every one of them once, in the order in which
  -- they were spawned, and with nothing else; after that it sleeps. The two batches are of at most
  -- 1,000,000 tasks together.
  pub spawn_mixed-turns :
      (p q : Priority) (state : GlobalState) (futures : List ℕ) (jobs : List Job)
      → length futures + length jobs ≤ 1_000_000
      → (b1 b2 b3 : Bin S Q) × (with_bin S Q p
            (spawn_mixed S Q futures)
            (user_waiting_bin S Q state)
          ≡ returns b1)
        × (with_bin S Q q (spawn_mixed_simple S Q jobs) b1 ≡ returns b2)
        × (view S Q b2.channel ≡ [] ∷ (map work futures ++ map simple jobs) ∷ [])
        × (turns S Q (length (map work futures ++ map simple jobs)) b2
            ≡ returns (map work futures ++ map simple jobs, b3))
        × (turn S Q false b3 ≡ returns sleeps)
  unfolding spawn_mixed spawn_mixed_simple enforce
  spawn_mixed-turns p q state futures jobs h =
      let room = 1_000_000 - (length futures + length jobs) in
      let loaded = user_waiting_bin-Loaded state in
      let (b1, first, l1, kept) =
        send_each-Loaded (map work futures) [] (length (map simple jobs) + room)
          (enforce S Q (length futures) (user_waiting_bin S Q state))
          (subst (Loaded _ [])
            (omega (
              arith,
              length-map {B = ThreadMessage Job} work futures,
              length-map {B = ThreadMessage Job} simple jobs,
            ))
            loaded) in
      let (b2, second, l2, kept') =
        send_each-Loaded (map simple jobs) (map work futures) room (enforce S Q (length jobs) b1)
          l1 in
      let v = Loaded-view b2.channel _ room l2 in
      let (b3, drained, asleep) =
        turns-drains S Q (map work futures ++ map simple jobs) b2 v l2.holds in
      (b1, b2, b3, any_priority p _ _ ∙ first, any_priority q _ _ ∙ second, v, drained, asleep)
