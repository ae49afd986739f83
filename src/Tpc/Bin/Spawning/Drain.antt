-- ===== src/Tpc/Bin/Spawning/Drain.antt =====
-- The turns of a worker of tpc/src/bin.rs until its channel is empty.
use kiruna.Base.{
  Bool, ℕ, zero, suc, List, [], ◌∷◌, map, length, get_elem?, none, some, Outcome, returns, ◌>>=◌,
  false, ◌≡◌, inl, inr, refl, ap, sym, ◌∙◌,
}
use kiruna.Tpc.Channel.Platform.{Semaphore, ArrayQueue}
use kiruna.Tpc.Channel.{SharedOne, Channel}
use kiruna.Tpc.Channel.Levels.{waiting, view, take_first, Holds}
use kiruna.Tpc.Bin.Turns.{turn-takes}
use kiruna.Tpc.Bin.{
  ThreadMessage, simple, work, idle, runs, polls, stays, shuts_down, sleeps, Bin, obey, turn,
  consider_shutdown,
}

-- The first turns of a worker that stays useful, with the messages that it deals with, up to
-- where it sleeps.
abbrev pub turns :
    (S : Semaphore) {Job : Type 0} (Q : ArrayQueue (ThreadMessage Job))
    → ℕ
    → Bin S Q
    → Outcome (List (ThreadMessage Job) × Bin S Q)
turns S Q zero b = returns ([], b)
turns S Q (suc n) b = turn S Q false b >>= elim [
  | sleeps ↦ returns ([], b)
  | shuts_down b' ↦ returns (idle ∷ [], b')
  | stays b' ↦ turns S Q n b' >>= λ (ms, b''). returns (idle ∷ ms, b'')
  | runs job b' ↦ turns S Q n b' >>= λ (ms, b''). returns (simple job ∷ ms, b'')
  | polls future b' ↦ turns S Q n b' >>= λ (ms, b''). returns (work future ∷ ms, b'')
]

module _ (S : Semaphore) {Job : Type 0} (Q : ArrayQueue (ThreadMessage Job)) where
  differs : {A : Type 0} {a : A} → none ≡ some a → ⊥
  differs e = cc

  zeroth-shared :
      (ss : List (SharedOne S Q)) (q : List (ThreadMessage Job))
      (qs : List (List (ThreadMessage Job)))
      → map (waiting S Q) ss ≡ q ∷ qs
      → (s : SharedOne S Q) × (get_elem? ss 0 ≡ some s)
  zeroth-shared [] q qs e = cc
  zeroth-shared (s ∷ ss) q qs e = (s, refl)

  pub turn-first :
      (late : Bool) (m : ThreadMessage Job) (messages : List (ThreadMessage Job)) (b : Bin S Q)
      → view S Q b.channel ≡ [] ∷ (m ∷ messages) ∷ []
      → Holds S Q b.channel
      → (c : Channel S Q) × (turn S Q late b ≡ returns (obey S Q late m (record b { channel = c })))
        × (view S Q c ≡ [] ∷ messages ∷ [])
        × Holds S Q c
  turn-first late m messages b v h =
      let (s, at) = zeroth-shared b.channel.shared [] _ v in
      elim (turn-takes S Q late b s at h) [
        | inl (t, e) ↦ absurd (differs (sym t ∙ ap take_first v))
        | inr (m', c, e, t, k, _) ↦
            let same : some (m', view S Q c) ≡ some (m, [] ∷ messages ∷ []) =
              sym t ∙ ap take_first v in
            let oldest : m' ≡ m = cc same in
            (
              c,
              e ∙ ap (λ x. returns (obey S Q late x (record b { channel = c }))) oldest,
              cc same,
              k,
            )
      ]

  pub turn-none :
      (late : Bool) (b : Bin S Q)
      → view S Q b.channel ≡ [] ∷ [] ∷ []
      → Holds S Q b.channel
      → turn S Q late b ≡ returns sleeps
  turn-none late b v h =
      let (s, at) = zeroth-shared b.channel.shared [] _ v in
      elim (turn-takes S Q late b s at h) [
        | inl (t, e) ↦ e
        | inr (m, c, e, t, k, _) ↦ absurd (differs (sym (ap take_first v) ∙ t))
      ]

  pub turns-drains :
      (messages : List (ThreadMessage Job)) (b : Bin S Q)
      → view S Q b.channel ≡ [] ∷ messages ∷ []
      → Holds S Q b.channel
      → (b' : Bin S Q) × (turns S Q (length messages) b ≡ returns (messages, b'))
        × (turn S Q false b' ≡ returns sleeps)
  unfolding obey consider_shutdown
  turns-drains [] b v h = (b, refl, turn-none false b v h)
  turns-drains (simple job ∷ ms) b v h =
      let (c, t, v', k) = turn-first false (simple job) ms b v h in
      let (b', r, e) = turns-drains ms (record b { channel = c }) v' k in (b', rw (t, r) refl, e)
  turns-drains (work future ∷ ms) b v h =
      let (c, t, v', k) = turn-first false (work future) ms b v h in
      let (b', r, e) = turns-drains ms (record b { channel = c }) v' k in (b', rw (t, r) refl, e)
  turns-drains (idle ∷ ms) b v h =
      let (c, t, v', k) = turn-first false (idle) ms b v h in
      let (b', r, e) = turns-drains ms (record b { channel = c }) v' k in (b', rw (t, r) refl, e)
