-- ===== src/Tpc/Bin/Turns.antt =====
-- One turn of a worker of tpc/src/bin.rs against the levels of its channel.
use kiruna.Base.{
  List, [], ◌∷◌, map, none, some, returns, get_elem?, set, Bool, ◌≡◌, ◌⊎◌, inl, inr, refl, ap, sym,
  ◌∙◌,
}
use kiruna.Tpc.Channel.Platform.{Semaphore, ArrayQueue}
use kiruna.Tpc.Channel.{SharedOne, Channel}
use kiruna.Tpc.Channel.Levels.{waiting, view, take_first, Holds, recv_all-takes}
use kiruna.Tpc.Channel.Immediate.{recv-Immediate-takes}
use kiruna.Tpc.Channel.Threads.Capacity.{rooms, recv_immediate-rooms, recv_all-rooms}
use kiruna.Tpc.Bin.{ThreadMessage, Bin, sleeps, obey, turn}

take_first-head :
    {E : Type 0} (qs : List (List E)) (e : E) (rest : List E)
    → get_elem? qs 0 ≡ some (e ∷ rest)
    → take_first qs ≡ some (e, set qs 0 rest)
take_first-head [] e rest h = cc
take_first-head (q ∷ qs) e rest h = let same : q ≡ e ∷ rest = cc in rw same refl

module _ (S : Semaphore) {Job : Type 0} (Q : ArrayQueue (ThreadMessage Job)) where
  abbrev C : Type 0
  C = Channel S Q

  get_elem?-view :
      (ss : List (SharedOne S Q)) (s : SharedOne S Q)
      → get_elem? ss 0 ≡ some s
      → get_elem? (map (waiting S Q) ss) 0 ≡ some (waiting S Q s)
  get_elem?-view [] s g = cc
  get_elem?-view (x ∷ ss) s g = let same : x ≡ s = cc in ap (λ y. some (waiting S Q y)) same

  -- A turn of a worker deals with the oldest message of the first level that has any, so that the
  -- wakeups of level 0 come before the new tasks and the idle messages of level 1; the worker sleeps
  -- only where no level has a message. The channel is between operations, and has a level 0. Each
  -- queue keeps its capacity.
  pub turn-takes :
      (late : Bool) (b : Bin S Q) (s : SharedOne S Q)
      → get_elem? b.channel.shared 0 ≡ some s
      → Holds S Q b.channel
      → ((take_first (view S Q b.channel) ≡ none) × (turn S Q late b ≡ returns sleeps))
        ⊎ ((m : ThreadMessage Job) × (c : C) × (turn S Q late b
              ≡ returns (obey S Q late m (record b { channel = c })))
            × (take_first (view S Q b.channel) ≡ some (m, view S Q c))
            × Holds S Q c
            × (rooms S Q c ≡ rooms S Q b.channel))
  unfolding turn
  turn-takes late b s g h = elim (recv-Immediate-takes S Q b.channel 0 s g h) [
    | inl (w, (c, r, v, k)) ↦ elim (recv_all-takes S Q c k) [
      | inl (t, q) ↦ inl (ap take_first (sym v) ∙ t, rw (r, q) refl)
      | inr (m, c', q, t, k') ↦ inr (
        m,
        c',
        rw (r, q) refl,
        ap take_first (sym v) ∙ t,
        k',
        recv_all-rooms S Q c c' m q ∙ recv_immediate-rooms S Q b.channel c 0 s none g r,
      )
    ]
    | inr (m, rest, c, w, r, v, k) ↦ inr (
      m,
      c,
      rw r refl,
      take_first-head _ m rest (get_elem?-view b.channel.shared s g ∙ ap some w)
          ∙ ap (λ q. some (m, q)) (sym v),
      k,
      recv_immediate-rooms S Q b.channel c 0 s (some m) g r,
    )
  ]
