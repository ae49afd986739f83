-- ===== src/Tpc/Channel/Threads/Scan.antt =====
-- `recv_all` of tpc/src/channel.rs as a run of one thread.
use kiruna.Base.{
  ℕ, ◌+◌, List, [], ◌∷◌, ◌++◌, append_assoc, append-nil, Option, none, some, get_elem?, set, length,
  length-append, Outcome, returns, panics, Fault, ◌>>=◌, ◌≡◌, refl, ap, sym, ◌∙◌, subst,
}
use kiruna.Tpc.Channel.Platform.{Semaphore, ArrayQueue}
use kiruna.Tpc.Channel.{
  SharedOne, Channel, Received, got, waits, pop_one, recv_nonblock, scan, recv_all,
}
use kiruna.Tpc.Channel.Threads.{
  Pc, outside, scanning, popping, panicked, wait, scan_hit, scan_miss, scan_end, pop, pop_nothing,
}
use kiruna.Tpc.Channel.Threads.Methods.{
  Run, done, then, Fails, get_elem?-behind, set-behind, get_elem?-end,
}

module _ (S : Semaphore) {E : Type 0} (Q : ArrayQueue E) (preferred : ℕ) (global : S.State) where
  abbrev over : List (SharedOne S Q) → Channel S Q
  over ss = record { shared = ss; global_semaphore = global }

  -- The loop from the level behind `before` on.
  abbrev Scans :
      List (SharedOne S Q) → List (SharedOne S Q) → Outcome (E × List (SharedOne S Q)) → Type 0
  Scans before ss (returns (e, ss')) =
      (level : ℕ) × Run S Q preferred (over (before ++ ss)) (scanning (length before))
        (over (before ++ ss')) outside [] ((level, e) ∷ [])
  Scans before ss (panics f) =
      (c' : Channel S Q) × Run S Q preferred (over (before ++ ss)) (scanning (length before)) c'
        (panicked f) [] []

  module _ (before ss : List (SharedOne S Q)) (s : SharedOne S Q) where
    abbrev k : ℕ
    k = length before

    at_level : get_elem? (before ++ (s ∷ ss)) k ≡ some s
    at_level = get_elem?-behind before ss s

    onward :
        {c' : Channel S Q} {p' : Pc} {ins outs : List (ℕ × E)}
        → Run S Q preferred
            (over ((before ++ (s ∷ [])) ++ ss))
            (scanning (length (before ++ (s ∷ []))))
            c'
            p'
            ins
            outs
        → Run S Q preferred (over (before ++ (s ∷ ss))) (scanning (k + 1)) c' p' ins outs
    onward {c'} {p'} {ins} {outs} r =
        subst (λ n. Run S Q preferred (over (before ++ (s ∷ ss))) (scanning n) c' p' ins outs)
          (length-append before (s ∷ []))
          (subst
            (λ xs.
              Run S Q preferred (over xs) (scanning (length (before ++ (s ∷ [])))) c' p' ins outs)
            (append_assoc before (s ∷ []) ss) r)

    miss :
        S.decrement s.local_semaphore ≡ none
        → (o : Outcome (E × List (SharedOne S Q))) → Scans (before ++ (s ∷ [])) ss o
        → Scans before (s ∷ ss) (o >>= λ (e, ss'). returns (e, s ∷ ss'))
    miss h (returns (e, ss')) (level, r) = (
      level,
      then (scan_miss s at_level h) (
          subst
            (λ xs.
              Run S Q preferred (over (before ++ (s ∷ ss))) (scanning (k + 1)) (over xs) outside []
                ((level, e) ∷ []))
            (append_assoc before (s ∷ []) ss') (onward r)),
    )
    miss h (panics f) (c', r) = (c', then (scan_miss s at_level h) (onward r))

    -- A local semaphore that has come down, and what `pop` does then.
    popped :
        (t : S.State) (e : E) (q : Q.State)
        → Q.pop s.queue ≡ some (e, q)
        → Run S Q preferred
            (over (set (before ++ (s ∷ ss)) k (record s { local_semaphore = t })))
            (popping k)
            (over (before ++ (record { queue = q; local_semaphore = t } ∷ ss)))
            outside
            []
            ((k, e) ∷ [])
    popped t e q p =
        let a : SharedOne S Q = record s { local_semaphore = t } in
        let b : SharedOne S Q = record { queue = q; local_semaphore = t } in
        subst
          (λ xs.
            Run S Q preferred (over xs) (popping k) (over (before ++ (b ∷ ss))) outside []
              ((k, e) ∷ []))
          (sym (set-behind before ss s a))
          (subst
            (λ xs.
              Run S Q preferred (over (before ++ (a ∷ ss))) (popping k) (over xs) outside []
                ((k, e) ∷ []))
            (set-behind before ss a b) (then (pop a e q (get_elem?-behind before ss a) p) done))

    broken :
        (t : S.State)
        → Q.pop s.queue ≡ none
        → (c' : Channel S Q) × Run S Q preferred
            (over (set (before ++ (s ∷ ss)) k (record s { local_semaphore = t })))
            (popping k)
            c'
            (panicked Fault.unwrap_none)
            []
            []
    broken t p =
        let a : SharedOne S Q = record s { local_semaphore = t } in
        (
          _,
          then
              (pop_nothing a
                (ap (λ xs. get_elem? xs k) (set-behind before ss s a)
                  ∙ get_elem?-behind before ss a)
                p)
              done,
        )

    hit :
        (t : S.State)
        → S.decrement s.local_semaphore ≡ some t
        → (o : Option (E × Q.State)) → Q.pop s.queue ≡ o
        → Scans before (s ∷ ss) (
            pop_one S Q s.queue t >>= elim [
              | some (e, s') ↦ returns (e, s' ∷ ss)
              | none ↦ scan S Q ss >>= λ (e, ss'). returns (e, s ∷ ss')
            ])
    unfolding pop_one
    hit t h none p =
        let (c', r) = broken t p in rw (p, pop_one) (c', then (scan_hit s t at_level h) r)
    hit t h (some (e, q)) p = rw (p, pop_one) (k, then (scan_hit s t at_level h) (popped t e q p))

  scan-Run : (ss before : List (SharedOne S Q)) → Scans before ss (scan S Q ss)
  unfolding scan recv_nonblock pop_one
  scan-Run [] before = (
    _,
    then
        (scan_end
          (ap (λ xs. get_elem? xs (length before)) (append-nil before) ∙ get_elem?-end before))
        done,
  )
  scan-Run (s ∷ ss) before =
      let rest = scan-Run ss (before ++ (s ∷ [])) in go rest (S.decrement s.local_semaphore) refl
    where
      go :
          Scans (before ++ (s ∷ [])) ss (scan S Q ss)
          → (o : Option S.State) → S.decrement s.local_semaphore ≡ o
          → Scans before (s ∷ ss) (scan S Q (s ∷ ss))
      go rest none h = rw (h, recv_nonblock) (miss before ss s h (scan S Q ss) rest)
      go rest (some t) h = rw (h, recv_nonblock) (hit before ss s t h (Q.pop s.queue) refl)

module _ (S : Semaphore) {E : Type 0} (Q : ArrayQueue E) (preferred : ℕ) where
  abbrev pub Takes : Channel S Q → Outcome (Received S Q) → Type 0
  Takes c (returns (got e c')) =
      (level : ℕ) × Run S Q preferred c outside c' outside [] ((level, e) ∷ [])
  Takes c (returns waits) = S.decrement c.global_semaphore ≡ none
  Takes c (panics f) = Fails S Q preferred c f

  pub recv_all-Run : (c : Channel S Q) → Takes c (recv_all S Q c)
  unfolding recv_all
  recv_all-Run c = go (S.decrement c.global_semaphore) refl
    where
      ended :
          (global : S.State)
          → S.decrement c.global_semaphore ≡ some global
          → (o : Outcome (E × List (SharedOne S Q))) → Scans S Q preferred global [] c.shared o
          → Takes c (
              o >>= λ (e, shared).
              returns (got e (record { shared = shared; global_semaphore = global })))
      ended global d (returns (e, ss')) (level, r) = (level, then (wait global d) r)
      ended global d (panics f) (c', r) = (c', then (wait global d) r)

      go : (o : Option S.State) → S.decrement c.global_semaphore ≡ o → Takes c (recv_all S Q c)
      go none d = rw (d, recv_all) d
      go (some global) d =
          rw (d, recv_all)
            (ended global d (scan S Q c.shared) (scan-Run S Q preferred global c.shared []))
