-- ===== src/Tpc/Bin/Futures/Finish.antt =====
-- How the futures of tpc/src/bin.rs come to their end on a worker.
use kiruna.Base.{
  ℕ, zero, suc, ◌+◌, ◌≤◌, ne→==, false, List, [], ◌∷◌, ◌++◌, map, length, length-append,
  length-replicate, replicate, some, All, ready, pending, Outcome, returns, ◌>>=◌, ◌≡◌, ◌≢◌, refl,
  ap, sym, ◌∙◌, subst, arith,
}
use kiruna.Tpc.Channel.Platform.{Semaphore, ArrayQueue}
use kiruna.Tpc.Channel.Levels.{take_first}
use kiruna.Tpc.Bin.{ThreadMessage, work, sleeps, Bin, obey, turn}
use kiruna.Tpc.Bin.Futures.{Polled, OurFuture, poll_ours, Machine, update, perform, rounds}
use kiruna.Tpc.Bin.Futures.Standing.{Stands, turn-Stands, turn-sleeps, wake_times-Stands}

-- No two are the same.
abbrev pub Distinct : List ℕ → Type 0
Distinct [] = Unit
Distinct (i ∷ is) = All (λ j. i ≢ j) is × Distinct is

-- Each future so often as it is pending and once more, one after the other.
abbrev pub schedule : (ℕ → ℕ) → List ℕ → List ℕ
schedule need [] = []
schedule need (i ∷ ids) = replicate (suc (need i)) i ++ schedule need ids

adds : ℕ → ℕ → ℕ
adds zero k = k
adds (suc n) k = suc (adds n k)

adds-eq : (n k : ℕ) → adds n k ≡ n + k
unfolding adds
adds-eq zero k = omega arith
adds-eq (suc n) k = omega (arith, adds-eq n k)

module _ {F : Type 0} (poll : F → Outcome (Polled F)) where
  -- The future is pending so often, wakes its waker once each time, and then is ready.
  abbrev pub Behaves : ℕ → F → Type 0
  Behaves zero f =
      (f' : F) × (poll f ≡ returns (record { answer = ready tt; future = f'; wakes = 0 }))
  Behaves (suc n) f =
      (f' : F) × (poll f ≡ returns (record { answer = pending; future = f'; wakes = 1 }))
      × Behaves n f'

  module _ (S : Semaphore) {Job : Type 0} (Q : ArrayQueue (ThreadMessage Job)) where
    abbrev M : Type 0
    M = Machine S Q poll

    -- A turn that polls an unlocked future, which wakes itself `n` times.
    pub polled :
        (w : M) (i : ℕ) (q0 q1 p0 p1 : List (ThreadMessage Job)) (p : Polled F)
        → Stands S Q w.bin.channel q0 q1
        → take_first (q0 ∷ q1 ∷ []) ≡ some (work i, p0 ∷ p1 ∷ [])
        → (w.futures i).locked ≡ false
        → poll (w.futures i).underlying ≡ returns p
        → p.wakes + length p0 ≤ 1_000_000
        → (b : Bin S Q) × ((n : ℕ)
            → rounds S Q poll (suc n) w ≡ (
                rounds S Q poll n (record {
                  bin = b;
                  futures = update i (record { underlying = p.future; locked = false }) w.futures;
                })
                >>= λ (is, w''). returns (i ∷ is, w'')))
          × Stands S Q b.channel (p0 ++ replicate p.wakes (work i)) p1
    unfolding rounds perform poll_ours obey
    polled w i q0 q1 p0 p1 p st first free e fits =
        let (c, t, st') = turn-Stands S Q (work i) q0 q1 p0 p1 w.bin first st in
        let (b, wakes, st'') =
          wake_times-Stands S Q p.wakes i p0 p1 (record w.bin { channel = c }) fits st' in
        (b, λ n. rw (t, perform, poll_ours, free, e, wakes) refl, st'')

    -- From the turn that takes the future's message on, the worker polls this future up to its end.
    runs_through :
        (n : ℕ) (w : M) (i : ℕ) (q0 q1 p1 : List (ThreadMessage Job))
        → Stands S Q w.bin.channel q0 q1
        → take_first (q0 ∷ q1 ∷ []) ≡ some (work i, [] ∷ p1 ∷ [])
        → (w.futures i).locked ≡ false
        → Behaves n (w.futures i).underlying
        → (w' : M) × ((k : ℕ) (is : List ℕ) (w'' : M)
            → rounds S Q poll k w' ≡ returns (is, w'')
            → rounds S Q poll (suc (adds n k)) w ≡ returns (replicate (suc n) i ++ is, w''))
          × Stands S Q w'.bin.channel [] p1
          × ((j : ℕ) → i ≢ j → w'.futures j ≡ w.futures j)
    unfolding adds
    runs_through zero w i q0 q1 p1 st first free (f', e) =
        let (b, r, st') = polled w i q0 q1 [] p1 _ st first free e (omega arith) in
        let v : M = record {
          bin = b;
          futures = update i (record { underlying = f'; locked = false }) w.futures;
        } in
        (v, λ k is w'' h. r k ∙ rw h refl, st', λ j ne. rw (ne→== i j ne) refl)
    runs_through (suc n) w i q0 q1 p1 st first free (f', e, more) =
        let (b, r, st') = polled w i q0 q1 [] p1 _ st first free e (omega arith) in
        let f : OurFuture F = record { underlying = f'; locked = false } in
        let v : M = record { bin = b; futures = update i f w.futures } in
        let now : update i f w.futures i ≡ f = ground arith in
        let (w', go, st'', kept) =
          runs_through n v i (work i ∷ []) p1 p1 st' refl (ap (λ g. g.locked) now)
            (subst (λ g. Behaves n g.underlying) (sym now) more) in
        (
          w',
          λ k is w'' h. r (suc (adds n k)) ∙ rw (go k is w'' h) refl,
          st'',
          λ j ne. kept j ne ∙ rw (ne→== i j ne) refl,
        )

    abbrev pub Waits : (ℕ → ℕ) → M → ℕ → Type 0
    Waits need w i = ((w.futures i).locked ≡ false) × Behaves (need i) (w.futures i).underlying

    kept_waiting :
        (need : ℕ → ℕ) (w w' : M) (i : ℕ) (ids : List ℕ)
        → ((j : ℕ) → i ≢ j → w'.futures j ≡ w.futures j)
        → All (λ j. i ≢ j) ids
        → All (Waits need w) ids
        → All (Waits need w') ids
    kept_waiting need w w' i [] same other all = tt
    kept_waiting need w w' i (j ∷ ids) same other all = (
      subst (λ g. (g.locked ≡ false) × Behaves (need j) g.underlying) (sym (same j other.0)) all.0,
      kept_waiting need w w' i ids same other.1 all.1,
    )

    -- Futures have been spawned, each once, and no other task; each is pending some number of times,
    -- wakes its waker once each time, and then is ready. A worker that nobody else disturbs polls each
    -- future up to its end, in the order in which they were spawned: so often as it was pending and
    -- once more, and never again after it was ready. Then the worker sleeps.
    pub rounds-finish :
        (need : ℕ → ℕ) (ids : List ℕ) (w : M)
        → Stands S Q w.bin.channel [] (map work ids)
        → Distinct ids
        → All (Waits need w) ids
        → (w' : M) × (rounds S Q poll (length (schedule need ids)) w
            ≡ returns (schedule need ids, w'))
          × (turn S Q false w'.bin ≡ returns sleeps)
    unfolding rounds
    rounds-finish need [] w st distinct all = (w, refl, turn-sleeps S Q w.bin st)
    rounds-finish need (i ∷ ids) w st (other, distinct) (one, all) =
        let (v, go, st', kept) =
          runs_through (need i) w i [] (work i ∷ map work ids) (map work ids) st refl one.0 one.1 in
        let (w', done, sleeping) =
          rounds-finish need ids v st' distinct (kept_waiting need w v i ids kept other all) in
        let same : suc (adds (need i) (length (schedule need ids)))
            ≡ length (schedule need (i ∷ ids)) =
          omega (
            arith,
            adds-eq (need i) (length (schedule need ids)),
            length-append (replicate (suc (need i)) i) (schedule need ids),
            length-replicate (suc (need i)) i,
          ) in
        (
          w',
          subst (λ n. rounds S Q poll n w ≡ returns (schedule need (i ∷ ids), w')) same
              (go (length (schedule need ids)) (schedule need ids) w' done),
          sleeping,
        )
