-- ===== src/Stream/Overlapped/Completion.antt =====
-- An overlapped operation under any interleaving of its polls with what the system does.
use kiruna.Base.{
  ℕ, List, [], ◌∷◌, Option, none, some, Poll, ready, pending, Outcome, returns, panics, Fault,
  ◌>>=◌, ◌≡◌, refl, ap, ◌∙◌,
}
use kiruna.Stream.Overlapped.{
  poll, gone, maybe_take, polled, Child, absent, queued, started, dropped, Operation, new,
  poll_shared, poll_parent, deliver, went, proceed,
}

-- A poll with a waker, or an event of the system.
pub data Act (E : Type 0) : Type 0 where
  polls : ℕ → Act E
  system : E → Act E

module _ {E P R : Type 0} (begin_op resume_op : E → P → Poll R × P) where
  -- The executor polls, and expects the operation to be pending.
  abbrev pub run : List (Act E) → Operation P R → Outcome (Option (Operation P R))
  run [] o = returns (some o)
  run (polls w ∷ acts) o =
      poll_parent w o >>= λ (a, o'). elim a [ pending ↦ run acts o' | ready r ↦ returns none ]
  run (system e ∷ acts) o = run acts (proceed begin_op resume_op e o)

  -- The payload alone, from the child's state: what it answers to one event, and whether it stays
  -- pending under all of them.
  abbrev pub answer : E → Child P → Option (Poll R × P)
  answer e (queued p) = some (begin_op e p)
  answer e (started p) = some (resume_op e p)
  answer e absent = none
  answer e dropped = none

  abbrev pub stays : Option (Poll R × P) → Option P
  stays none = none
  stays (some (ready r, p)) = none
  stays (some (pending, p)) = some p

  abbrev pub advance : List (Act E) → Child P → Option (Child P)
  advance [] c = some c
  advance (polls w ∷ acts) c = advance acts c
  advance (system e ∷ acts) c = elim (stays (answer e c)) [
    | none ↦ none
    | some p ↦ advance acts (started p)
  ]

  abbrev pub last_waker : ℕ → List (Act E) → ℕ
  last_waker w [] = w
  last_waker w (polls v ∷ acts) = last_waker v acts
  last_waker w (system e ∷ acts) = last_waker w acts

  abbrev in_flight : ℕ → Child P → Operation P R
  in_flight w c = record {
    state = polled;
    shared = some (record { waker = w; result = poll pending });
    child = c;
    woken = [];
  }

  went-stays :
      (a : Poll R × P) (w : ℕ) (c : Child P) (p : P)
      → stays (some a) ≡ some p
      → went a (in_flight w c) ≡ in_flight w (started p)
  unfolding went
  went-stays (ready r, q) w c p h = cc
  went-stays (pending, q) w c p h = let same : q ≡ p = cc in ap (λ x. in_flight w (started x)) same

  proceed-stays :
      (e : E) (w : ℕ) (c : Child P) (p : P)
      → stays (answer e c) ≡ some p
      → proceed begin_op resume_op e (in_flight w c) ≡ in_flight w (started p)
  unfolding proceed
  proceed-stays e w (queued q) p h = went-stays (begin_op e q) w (queued q) p h
  proceed-stays e w (started q) p h = went-stays (resume_op e q) w (started q) p h
  proceed-stays e w absent p h = cc
  proceed-stays e w dropped p h = cc

  run-in_flight :
      (acts : List (Act E)) (w : ℕ) (c c' : Child P)
      → advance acts c ≡ some c'
      → run acts (in_flight w c) ≡ returns (some (in_flight (last_waker w acts) c'))
  unfolding poll_parent poll_shared maybe_take
  run-in_flight [] w c c' h =
      let same : c ≡ c' = cc in ap (λ x. returns (some (in_flight w x))) same
  run-in_flight (polls v ∷ acts) w c c' h = run-in_flight acts v c c' h
  run-in_flight (system e ∷ acts) w c c' h =
      go (λ p. run-in_flight acts w (started p) c') (stays (answer e c)) refl h
    where
      go :
          ((p : P)
            → advance acts (started p) ≡ some c'
            → run acts (in_flight w (started p))
              ≡ returns (some (in_flight (last_waker w acts) c')))
          → (s : Option P) → stays (answer e c) ≡ s
          → elim s [ none ↦ none | some p ↦ advance acts (started p) ] ≡ some c'
          → run acts (proceed begin_op resume_op e (in_flight w c))
            ≡ returns (some (in_flight (last_waker w acts) c'))
      go ih none q k = cc
      go ih (some p) q k = ap (run acts) (proceed-stays e w c p q) ∙ ih p k

  proceed-ready :
      (e : E) (w : ℕ) (c : Child P) (r : R) (p : P)
      → answer e c ≡ some (ready r, p)
      → proceed begin_op resume_op e (in_flight w c) ≡ deliver r (in_flight w c)
  unfolding proceed went
  proceed-ready e w (queued q) r p h = let same : begin_op e q ≡ (ready r, p) = cc in rw same refl
  proceed-ready e w (started q) r p h = let same : resume_op e q ≡ (ready r, p) = cc in rw same refl
  proceed-ready e w absent r p h = cc
  proceed-ready e w dropped r p h = cc

  -- An operation that is polled, and then polled again any number of times while the system makes
  -- progress with the child in any interleaving, answers pending as long as its payload does, and
  -- wakes no one. The event at which the payload is ready wakes the waker of the last poll and no
  -- other, the next poll answers with the payload's result, and a poll after that panics.
  pub run-completes :
      (payload : P) (w : ℕ) (acts : List (Act E)) (c : Child P) (e : E) (r : R) (p : P)
      → advance acts (queued payload) ≡ some c
      → answer e c ≡ some (ready r, p)
      → (o : Operation P R) × (run (polls w ∷ acts) (new payload) ≡ returns (some o))
        × (o.woken ≡ [])
        × ((proceed begin_op resume_op e o).woken ≡ last_waker w acts ∷ [])
        × ((v : ℕ)
            → (o' : Operation P R) × (poll_parent v (proceed begin_op resume_op e o)
                ≡ returns (ready r, o'))
              × ((u : ℕ) → poll_parent u o' ≡ panics Fault.explicit_panic))
  unfolding new poll_parent poll_shared maybe_take deliver
  run-completes payload w acts c e r p h k =
      let last = last_waker w acts in
      let done = proceed-ready e last c r p k in
      (
        in_flight last c,
        run-in_flight acts w (queued payload) c h,
        refl,
        ap (λ o. o.woken) done,
        λ v. (
          record (in_flight last c) {
            shared = some (record { waker = last; result = gone });
            child = dropped;
            woken = last ∷ [];
          },
          ap (poll_parent v) done,
          λ u. refl,
        ),
      )
