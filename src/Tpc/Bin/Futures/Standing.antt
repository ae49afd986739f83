-- ===== src/Tpc/Bin/Futures/Standing.antt =====
-- The channel of tpc/src/bin.rs between two turns of a worker.
use kiruna.Base.{
  ℕ, zero, suc, ◌+◌, ◌≤◌, ◌<◌, List, [], ◌∷◌, ◌++◌, append_assoc, append-nil, map, length,
  length-append, replicate, get_elem?, some, false, returns, ◌≡◌, inl, inr, refl, ap, sym, ◌∙◌,
  subst, arith,
}
use kiruna.Tpc.Channel.Platform.{Semaphore, ArrayQueue}
use kiruna.Tpc.Channel.{SharedOne, Channel}
use kiruna.Tpc.Channel.Levels.{waiting, view, put, take_first, Holds, send-puts}
use kiruna.Tpc.Channel.Threads.Capacity.{room, rooms, send-rooms}
use kiruna.Tpc.Bin.{ThreadMessage, work, sleeps, Bin, send_to, obey, turn}
use kiruna.Tpc.Bin.Turns.{turn-takes}
use kiruna.Tpc.Bin.Spawning.Drain.{turn-none}
use kiruna.Tpc.Bin.Futures.{wake_times}

module _ (S : Semaphore) {Job : Type 0} (Q : ArrayQueue (ThreadMessage Job)) where
  abbrev Messages : Type 0
  Messages = List (ThreadMessage Job)

  -- Level 0 holds these messages and level 1 those, in queues of the bin's size.
  pub record Stands (c : Channel S Q) (q0 q1 : Messages) : Type 0 where
    pub seen : view S Q c ≡ q0 ∷ q1 ∷ []
    pub holds : Holds S Q c
    pub limits : rooms S Q c ≡ 1_000_000 ∷ 1_000_000 ∷ []

  zeroth :
      (ss : List (SharedOne S Q)) (q : Messages) (qs : List Messages) (r : ℕ) (rs : List ℕ)
      → map (waiting S Q) ss ≡ q ∷ qs
      → map (room S Q) ss ≡ r ∷ rs
      → (s : SharedOne S Q) × (get_elem? ss 0 ≡ some s) × (waiting S Q s ≡ q) × (room S Q s ≡ r)
  zeroth [] q qs r rs e k = cc
  zeroth (s ∷ ss) q qs r rs e k = (s, refl, cc e, cc k)

  pub turn-Stands :
      (m : ThreadMessage Job) (q0 q1 p0 p1 : Messages) (b : Bin S Q)
      → take_first (q0 ∷ q1 ∷ []) ≡ some (m, p0 ∷ p1 ∷ [])
      → Stands b.channel q0 q1
      → (c : Channel S Q) × (turn S Q false b
          ≡ returns (obey S Q false m (record b { channel = c })))
        × Stands c p0 p1
  turn-Stands m q0 q1 p0 p1 b first st =
      let (s, at, _, _) = zeroth b.channel.shared q0 _ _ _ st.seen st.limits in
      let seen = ap take_first st.seen in
      elim (turn-takes S Q false b s at st.holds) [
        | inl (t, e) ↦ absurd (cc (t, seen, first))
        | inr (m', c, e, t, k, r) ↦
            let same : some (m', view S Q c) ≡ some (m, p0 ∷ p1 ∷ []) = sym t ∙ seen ∙ first in
            let oldest : m' ≡ m = cc same in
            (
              c,
              e ∙ ap (λ x. returns (obey S Q false x (record b { channel = c }))) oldest,
              record { seen = cc same; holds = k; limits = r ∙ st.limits },
            )
      ]

  pub turn-sleeps : (b : Bin S Q) → Stands b.channel [] [] → turn S Q false b ≡ returns sleeps
  turn-sleeps b st = turn-none S Q false b st.seen st.holds

  pub wake_times-Stands :
      (n i : ℕ) (q0 q1 : Messages) (b : Bin S Q)
      → n + length q0 ≤ 1_000_000
      → Stands b.channel q0 q1
      → (b' : Bin S Q) × (wake_times S Q n i b ≡ returns b')
        × Stands b'.channel (q0 ++ replicate n (work i)) q1
  unfolding wake_times send_to
  wake_times-Stands zero i q0 q1 b fits st =
      (b, refl, subst (λ q. Stands b.channel q q1) (sym (append-nil q0)) st)
  wake_times-Stands (suc n) i q0 q1 b fits st =
      let (s, at, held, limit) = zeroth b.channel.shared q0 _ _ _ st.seen st.limits in
      let small : length (waiting S Q s) < Q.capacity s.queue =
        omega (arith, ap length held, limit, fits) in
      let (c, sends, v, k) = send-puts S Q b.channel (work i) 0 s at small st.holds in
      let next : Stands c (q0 ++ (work i ∷ [])) q1 = record {
        seen = v ∙ ap (put 0 (work i)) st.seen;
        holds = k;
        limits = send-rooms S Q b.channel c (work i) 0 s at sends ∙ st.limits;
      } in
      let (b', wakes, st') =
        wake_times-Stands n i (q0 ++ (work i ∷ [])) q1 (record b { channel = c })
          (omega (arith, fits, length-append q0 (work i ∷ []))) next in
      (
        b',
        rw (sends, wakes) refl,
        subst (λ q. Stands b'.channel q q1) (append_assoc q0 (work i ∷ []) (replicate n (work i)))
            st',
      )
