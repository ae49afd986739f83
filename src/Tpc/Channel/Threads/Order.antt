-- ===== src/Tpc/Channel/Threads/Order.antt =====
-- In which order the messages of tpc/src/channel.rs come out, whatever the threads do.
use kiruna.Base.{
  ℕ, List, [], ◌∷◌, ◌++◌, append_assoc, append-nil, some, get_elem?, get_elem?-set_self,
  get_elem?-set_ne, get_elem?-lt_length, set, get_elem?-replicate, ◌==◌, if◌then◌else◌, ◌≡◌, ◌≢◌,
  refl, ap, sym, ◌∙◌, subst, arith,
}
use native.Mathlib.Decide.{ℕ_discrete}
use kiruna.Tpc.Channel.Platform.{Semaphore, ArrayQueue}
use kiruna.Tpc.Channel.{SharedOne, Channel, new}
use kiruna.Tpc.Channel.Threads.{
  Pc, Move, push, push_full, signal_local, signal_global, try_global, try_nothing, try_hit,
  try_miss, restore, wait, scan_hit, scan_miss, scan_end, pop, pop_nothing, write, System, moves,
  Reach, start, later,
}

-- The messages of one level in a log of levels and messages.
abbrev pub on : {E : Type 0} → ℕ → List (ℕ × E) → List E
on l [] = []
on l ((k, e) ∷ log) = if k == l then e ∷ on l log else on l log

on-append : {E : Type 0} (l : ℕ) (xs ys : List (ℕ × E)) → on l (xs ++ ys) ≡ on l xs ++ on l ys
on-append l [] ys = refl
on-append l ((k, e) ∷ xs) ys = ground (arith, on-append l xs ys)

module _ (S : Semaphore) {E : Type 0} (Q : ArrayQueue E) where
  -- What a step puts into a queue, and what it takes out of one.
  abbrev pub pushed_by :
      {preferred : ℕ} {m m' : Channel S Q} {p p' : Pc} → Move S Q preferred m p m' p' → List (ℕ × E)
  pushed_by (push level e s q g h) = (level, e) ∷ []
  pushed_by _ = []

  abbrev pub popped_by :
      {preferred : ℕ} {m m' : Channel S Q} {p p' : Pc} → Move S Q preferred m p m' p' → List (ℕ × E)
  popped_by (pop {level} s e q g h) = (level, e) ∷ []
  popped_by _ = []

  -- The logs of a history.
  abbrev pub all_pushed :
      {preferred bounded levels : ℕ} {threads : List Pc} {s : System S Q}
      → Reach S Q preferred bounded levels threads s
      → List (ℕ × E)
  all_pushed start = []
  all_pushed (later r (moves before after e mv c e')) = all_pushed r ++ pushed_by mv

  abbrev pub all_popped :
      {preferred bounded levels : ℕ} {threads : List Pc} {s : System S Q}
      → Reach S Q preferred bounded levels threads s
      → List (ℕ × E)
  all_popped start = []
  all_popped (later r (moves before after e mv c e')) = all_popped r ++ popped_by mv

  -- Every level holds what was pushed to it and not popped, in this order.
  abbrev Ordered : Channel S Q → List (ℕ × E) → List (ℕ × E) → Type 0
  Ordered m ins outs =
      (l : ℕ) (x : SharedOne S Q)
      → get_elem? m.shared l ≡ some x
      → on l ins ≡ on l outs ++ Q.contents x.queue

  -- A step that writes level `k`.
  module _ (m : Channel S Q) (k : ℕ) (s s' : SharedOne S Q) (ins outs more less : List (ℕ × E))
      (g : get_elem? m.shared k ≡ some s) (o : Ordered m ins outs)
      (near : Q.contents s.queue ++ on k more ≡ on k less ++ Q.contents s'.queue) where
    written_level :
        (x : SharedOne S Q)
        → get_elem? (set m.shared k s') k ≡ some x
        → on k (ins ++ more) ≡ on k (outs ++ less) ++ Q.contents x.queue
    written_level x h =
        let bound = get_elem?-set_self m.shared k s' (get_elem?-lt_length m.shared k g) in
        let same : s' ≡ x = cc in
        subst (λ y. on k (ins ++ more) ≡ on k (outs ++ less) ++ Q.contents y.queue) same
          (on-append k ins more
            ∙ rw (o k s g, append_assoc (on k outs) (Q.contents s.queue) (on k more), near)
                (rw (on-append k outs less)
                  (sym (append_assoc (on k outs) (on k less) (Q.contents s'.queue)))))

    written :
        ((l : ℕ) → l ≢ k → (on l more ≡ []) × (on l less ≡ []))
        → Ordered (write S Q m k s') (ins ++ more) (outs ++ less)
    written far l x h = elim (ℕ_discrete l k) [
      | yes same ↦
          subst
            (λ i.
              get_elem? (set m.shared k s') i ≡ some x
              → on i (ins ++ more) ≡ on i (outs ++ less) ++ Q.contents x.queue)
            (sym same) (written_level x) h
      | no other ↦
          let there = sym (get_elem?-set_ne m.shared k l s' (λ e. other (sym e))) ∙ h in
          let (no_more, no_less) = far l other in
          on-append l ins more
          ∙ rw
              (
                no_more,
                on-append l outs less,
                no_less,
                append-nil (on l ins),
                append-nil (on l outs),
              )
              (o l x there)
    ]

  unwritten :
      (m : Channel S Q) (global : S.State) (ins outs : List (ℕ × E))
      → Ordered m ins outs
      → Ordered (record m { global_semaphore = global }) (ins ++ []) (outs ++ [])
  unwritten m global ins outs o = rw (append-nil ins, append-nil outs) o

  Move-Ordered :
      {preferred : ℕ} {m m' : Channel S Q} {p p' : Pc} (ins outs : List (ℕ × E))
      (mv : Move S Q preferred m p m' p')
      → Ordered m ins outs
      → Ordered m' (ins ++ pushed_by mv) (outs ++ popped_by mv)
  Move-Ordered {preferred} {m} ins outs (push k e s q g h) o =
      written m k s (record s { queue = q }) ins outs ((k, e) ∷ []) [] g o
        (ground (arith, (Q.push-some _ q e h).0)) (λ l ne. ground arith)
  Move-Ordered {preferred} {m} ins outs (push_full k e s g h) o =
      unwritten m m.global_semaphore ins outs o
  Move-Ordered {preferred} {m} ins outs (signal_local {level = k} s g) o =
      written m k s (record s { local_semaphore = S.signal s.local_semaphore }) ins outs [] [] g o
        (append-nil _) (λ l ne. (refl, refl))
  Move-Ordered {preferred} {m} ins outs signal_global o =
      unwritten m (S.signal m.global_semaphore) ins outs o
  Move-Ordered {preferred} {m} ins outs (try_global t h) o = unwritten m t ins outs o
  Move-Ordered {preferred} {m} ins outs (try_nothing h) o =
      unwritten m m.global_semaphore ins outs o
  Move-Ordered {preferred} {m} ins outs (try_hit s t g h) o =
      written m preferred s (record s { local_semaphore = t }) ins outs [] [] g o (append-nil _)
        (λ l ne. (refl, refl))
  Move-Ordered {preferred} {m} ins outs (try_miss s g h) o =
      unwritten m m.global_semaphore ins outs o
  Move-Ordered {preferred} {m} ins outs restore o =
      unwritten m (S.signal m.global_semaphore) ins outs o
  Move-Ordered {preferred} {m} ins outs (wait t h) o = unwritten m t ins outs o
  Move-Ordered {preferred} {m} ins outs (scan_hit {level = k} s t g h) o =
      written m k s (record s { local_semaphore = t }) ins outs [] [] g o (append-nil _)
        (λ l ne. (refl, refl))
  Move-Ordered {preferred} {m} ins outs (scan_miss s g h) o =
      unwritten m m.global_semaphore ins outs o
  Move-Ordered {preferred} {m} ins outs (scan_end g) o = unwritten m m.global_semaphore ins outs o
  Move-Ordered {preferred} {m} ins outs (pop {level = k} s e q g h) o =
      written m k s (record s { queue = q }) ins outs [] ((k, e) ∷ []) g o
        (ground (arith, append-nil (Q.contents s.queue), (Q.pop-some _ q e h).0))
        (λ l ne. ground arith)
  Move-Ordered {preferred} {m} ins outs (pop_nothing s g h) o =
      unwritten m m.global_semaphore ins outs o

  -- Whatever threads there are, whatever each of them calls, and in whatever order their steps come:
  -- what has come out of a level is, in this order, what first went into it, and the level holds the
  -- rest. So no message is lost, made up, doubled or moved to another level, and the messages of one
  -- level do not overtake each other.
  pub Reach-Ordered :
      {preferred bounded levels : ℕ} {threads : List Pc} {s : System S Q}
      (r : Reach S Q preferred bounded levels threads s) (l : ℕ) (x : SharedOne S Q)
      → get_elem? s.chan.shared l ≡ some x
      → on l (all_pushed r) ≡ on l (all_popped r) ++ Q.contents x.queue
  unfolding new
  Reach-Ordered {levels = n} start l x h =
      let same = get_elem?-replicate n _ x l h in
      sym (ap (λ y. Q.contents y.queue) (sym same) ∙ (Q.new_lem _).0)
  Reach-Ordered (later r (moves before after e mv c e')) l x h =
      subst (λ m. Ordered m (all_pushed r ++ pushed_by mv) (all_popped r ++ popped_by mv)) (sym c)
        (Move-Ordered (all_pushed r) (all_popped r) mv (Reach-Ordered r)) l x h
