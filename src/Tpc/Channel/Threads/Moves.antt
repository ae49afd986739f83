-- ===== src/Tpc/Channel/Threads/Moves.antt =====
-- Each step of the threads of tpc/src/channel.rs keeps the invariant.
use kiruna.Base.{
  ℕ, zero, suc, ◌+◌, ◌≤◌, List, [], ◌∷◌, ◌++◌, none, some, Fault, get_elem?, length, length-append,
  total, total-append, ◌≡◌, arith, refl, ap, sym, subst,
}
use native.Mathlib.Decide.{dec_lt, ℕ_discrete}
use kiruna.Tpc.Channel.Platform.{Semaphore, ArrayQueue}
use kiruna.Tpc.Channel.{SharedOne, Channel}
use kiruna.Tpc.Channel.Threads.{
  Pc, outside, pushed, announced, trying, restoring, scanning, popping, panicked, Move, push,
  push_full, signal_local, signal_global, try_global, try_nothing, try_hit, try_miss, restore, wait,
  scan_hit, scan_miss, scan_end, pop, pop_nothing, System, Step, moves,
}
use kiruna.Tpc.Channel.Threads.Counts.{
  total_from, total_from-zero, total_from-step, total_from-end, total_mono,
}
use kiruna.Tpc.Channel.Threads.Invariant.{at, holds, past, dead, tokens, Inv, written, unwritten}

module _ (S : Semaphore) {E : Type 0} (Q : ArrayQueue E) where
  past-le-holds : (p : Pc) → past 0 p ≤ holds p
  past-le-holds p = ground arith

  past-antitone : (l : ℕ) (p : Pc) → past (suc l) p ≤ past l p
  past-antitone l p = ground arith

  -- A thread that scans level `l` leaves a token for it at `l` or above, and so for every other one
  -- that has come so far.
  supplied_at :
      (m : Channel S Q) (l : ℕ) (rest : List Pc)
      → Inv S Q m (scanning l ∷ rest)
      → suc (total (past l) rest) ≤ total_from (tokens S Q) l m.shared
  supplied_at m zero rest inv = omega (
    arith,
    inv.balanced,
    total_mono (past 0) holds past-le-holds rest,
    total_from-zero (tokens S Q) m.shared,
  )
  supplied_at m (suc l) rest inv =
      let q : past (suc l) (scanning (suc l)) ≡ 1 = ground arith in
      omega (arith, q, inv.supplied (suc l) (omega arith))

  total-gather :
      (w : Pc → ℕ) (before after : List Pc) (p : Pc)
      → total w (before ++ (p ∷ after)) ≡ total w (p ∷ (before ++ after))
  total-gather w before after p =
      omega (arith, total-append w before (p ∷ after), total-append w before after)

  pub gather :
      {m : Channel S Q} (before after : List Pc) (p : Pc)
      → Inv S Q m (before ++ (p ∷ after))
      → Inv S Q m (p ∷ (before ++ after))
  gather before after p inv = record {
    settled = λ l s q. omega (arith, inv.settled l s q, total-gather (at l) before after p);
    balanced = omega (arith, inv.balanced, total-gather holds before after p);
    supplied = λ l pos. omega (arith, inv.supplied l pos, total-gather (past l) before after p);
    alive = omega (arith, inv.alive, total-gather dead before after p);
  }

  reorder :
      {m : Channel S Q} (before after : List Pc) (p : Pc)
      → Inv S Q m (p ∷ (before ++ after))
      → Inv S Q m (before ++ (p ∷ after))
  reorder before after p inv = record {
    settled = λ l s q. omega (arith, inv.settled l s q, total-gather (at l) before after p);
    balanced = omega (arith, inv.balanced, total-gather holds before after p);
    supplied = λ l pos. omega (arith, inv.supplied l pos, total-gather (past l) before after p);
    alive = omega (arith, inv.alive, total-gather dead before after p);
  }

  -- A scan goes past level `k`, which has no token.
  scan_on :
      (m : Channel S Q) (k : ℕ) (s : SharedOne S Q) (rest : List Pc)
      → get_elem? m.shared k ≡ some s
      → S.decrement s.local_semaphore ≡ none
      → Inv S Q m (scanning k ∷ rest)
      → Inv S Q m (scanning (k + 1) ∷ rest)
  scan_on m k s rest g h inv = record {
    settled = λ l r q. omega (arith, inv.settled l r q);
    balanced = omega (arith, inv.balanced);
    supplied = λ l pos. elim (dec_lt k l) [
      | no below ↦ ground (arith, inv.supplied l pos)
      | yes above ↦ elim (ℕ_discrete l (suc k)) [
        | yes next ↦
            subst
              (λ i. total (past i) (scanning (k + 1) ∷ rest) ≤ total_from (tokens S Q) i m.shared)
              (sym next)
              (let one : past (suc k) (scanning (k + 1)) ≡ 1 = ground arith in
                omega (
                  arith,
                  one,
                  supplied_at m k rest inv,
                  total_from-step (tokens S Q) k m.shared s g,
                  S.decrement-none _ h,
                  total_mono (past (suc k)) (past k) (past-antitone k) rest,
                ))
        | no far ↦ ground (arith, inv.supplied l pos)
      ]
    ];
    alive = inv.alive;
  }

  -- Each step of one thread keeps the invariant, beside any other threads.
  Move-Inv :
      {m m' : Channel S Q} {p p' : Pc} (rest : List Pc)
      → Move S Q 0 m p m' p'
      → Inv S Q m (p ∷ rest)
      → Inv S Q m' (p' ∷ rest)
  Move-Inv {m} rest (push k e s q g h) inv =
      written S Q m outside (pushed k) rest k s (record s { queue = q }) g
        (ground
          (arith, ap length ((Q.push-some _ q e h).0), length-append (Q.contents s.queue) (e ∷ [])))
        (λ l ne. ground arith) (omega arith) (λ l pos le. omega arith) (λ l pos lt. omega arith)
        refl inv
  Move-Inv {m} rest (push_full k e s g h) inv =
      unwritten S Q m outside (panicked Fault.assertion) rest m.global_semaphore refl (λ l. refl)
        (λ l pos. omega arith) refl inv
  Move-Inv {m} rest (signal_local {level = k} s g) inv =
      written S Q m (pushed k) announced rest k s
        (record s { local_semaphore = S.signal s.local_semaphore }) g
        (ground (arith, S.count-signal s.local_semaphore)) (λ l ne. ground arith)
        (omega (arith, S.count-signal s.local_semaphore))
        (λ l pos le. omega (arith, S.count-signal s.local_semaphore)) (λ l pos lt. omega arith) refl
        inv
  Move-Inv {m} rest signal_global inv =
      unwritten S Q m announced outside rest (S.signal m.global_semaphore)
        (omega (arith, S.count-signal m.global_semaphore)) (λ l. refl) (λ l pos. omega arith) refl
        inv
  Move-Inv {m} rest (try_global g h) inv =
      unwritten S Q m outside trying rest g (omega (arith, S.decrement-some _ g h)) (λ l. refl)
        (λ l pos. omega arith) refl inv
  Move-Inv {m} rest (try_nothing h) inv = inv
  Move-Inv {m} rest (try_hit s t g h) inv =
      written S Q m trying (popping 0) rest 0 s (record s { local_semaphore = t }) g
        (ground (arith, S.decrement-some _ t h)) (λ l ne. ground arith)
        (omega (arith, S.decrement-some _ t h)) (λ l pos le. absurd (omega arith))
        (λ l pos lt. omega arith) refl inv
  Move-Inv {m} rest (try_miss s g h) inv =
      unwritten S Q m trying restoring rest m.global_semaphore refl (λ l. refl)
        (λ l pos. omega arith) refl inv
  Move-Inv {m} rest restore inv =
      unwritten S Q m restoring outside rest (S.signal m.global_semaphore)
        (omega (arith, S.count-signal m.global_semaphore)) (λ l. refl) (λ l pos. omega arith) refl
        inv
  Move-Inv {m} rest (wait g h) inv =
      unwritten S Q m outside (scanning 0) rest g (omega (arith, S.decrement-some _ g h))
        (λ l. refl) (λ l pos. ground arith) refl inv
  Move-Inv {m} rest (scan_hit {level = k} s t g h) inv =
      written S Q m (scanning k) (popping k) rest k s (record s { local_semaphore = t }) g
        (ground (arith, S.decrement-some _ t h)) (λ l ne. ground arith)
        (omega (arith, S.decrement-some _ t h)) (λ l pos le. ground (arith, S.decrement-some _ t h))
        (λ l pos lt. omega arith) refl inv
  Move-Inv {m} rest (scan_miss {level = k} s g h) inv = scan_on m k s rest g h inv
  Move-Inv {m} rest (scan_end {level = k} g) inv =
      absurd (omega (arith, supplied_at m k rest inv, total_from-end (tokens S Q) k m.shared g))
  Move-Inv {m} rest (pop {level = k} s e q g h) inv =
      written S Q m (popping k) outside rest k s (record s { queue = q }) g
        (ground (arith, ap length ((Q.pop-some _ q e h).0))) (λ l ne. ground arith) (omega arith)
        (λ l pos le. omega arith) (λ l pos lt. omega arith) refl inv
  Move-Inv {m} rest (pop_nothing {level = k} s g h) inv =
      let promised : at k (popping k) ≡ 1 = ground arith in
      absurd (omega (arith, promised, inv.settled k s g, ap length (Q.pop-none _ h)))

  pub Step-Inv :
      {s t : System S Q} → Step S Q 0 s t → Inv S Q s.chan s.threads → Inv S Q t.chan t.threads
  Step-Inv {s} {t} (moves before after {p} {p'} {m'} e mv c e') inv =
      subst (λ ts. Inv S Q t.chan ts) (sym e')
        (subst (λ m. Inv S Q m (before ++ (p' ∷ after))) (sym c)
          (reorder before after p'
            (Move-Inv (before ++ after) mv (gather before after p (subst (Inv S Q s.chan) e inv)))))
