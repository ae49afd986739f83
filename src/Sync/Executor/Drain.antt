-- ===== src/Sync/Executor/Drain.antt =====
-- `drain` finishes every task, for futures that are diligent.
use kiruna.Base.{
  ℕ, zero, suc, ◌≤◌, ◌<◌, List, [], ◌∷◌, ◌++◌, Option, none, some, Poll, ready, pending, false,
  returns, get_elem?, length, set, All, Has, Has-append_left, Has-append_right, total,
  get_elem?-set_self, get_elem?-set_ne, get_elem?-some, le-total, ◌≡◌, ◌≢◌, ◌⊎◌, inl, inr, arith,
  refl, sym, subst, ap, ◌∙◌, Bool-cases, ◌==◌, ==→eq,
}
use native.Mathlib.Decide.{ℕ_discrete}
use kiruna.Sync.Executor.{Polled, Executor, settle, do_a_wakeup, recv, drained, drain_loop, drain}
use kiruna.Sync.Executor.Turn.{Frugal, cost, settle-cost, settle-tasks}
use kiruna.Sync.Executor.Invariant.{IsValid, present, settle-IsValid}

-- A future wakes itself whenever it is not ready, and it has only so many wakes to give. It may wake
-- any of the `n` tasks besides.
pub record Diligent {Fut : Type 0} (poll : ℕ → Fut → Polled Fut) (n : ℕ) (weight : Fut → ℕ)
    : Type 0 where
  pub frugal : Frugal poll n weight
  pub rewakes : (h : ℕ) (f : Fut) → (poll h f).answer ≡ pending → Has h (poll h f).woken

module _ {Fut : Type 0} (poll : ℕ → Fut → Polled Fut) (n : ℕ) (weight : Fut → ℕ)
    (diligent : Diligent poll n weight) where
  -- Every task that has not finished has a message on its way.
  abbrev pub Scheduled : Executor Fut → Type 0
  Scheduled e = (h : ℕ) (f : Fut) → get_elem? e.tasks h ≡ some (some f) → Has h e.channel

  pub record Runs (e : Executor Fut) : Type 0 where
    pub valid : IsValid e
    pub sized : length e.tasks ≡ n
    pub scheduled : Scheduled e

  -- The message `h` has been taken from the channel, and is to be handled.
  record Handles (h : ℕ) (e : Executor Fut) : Type 0 where
    valid : IsValid e
    sized : length e.tasks ≡ n
    named : h < length e.tasks
    scheduled : (j : ℕ) (f : Fut) → get_elem? e.tasks j ≡ some (some f) → (h ≡ j) ⊎ Has j e.channel

  abbrev Turned : Executor Fut → Executor Fut → Type 0
  Turned e e' = Runs e' × (cost weight e' ≤ cost weight e)

  turn_passed :
      (h : ℕ) (e : Executor Fut) → get_elem? e.tasks h ≡ some none → Handles h e → Turned e e
  turn_passed h e q r = (
    record {
      valid = r.valid;
      sized = r.sized;
      scheduled = λ j f p. elim (r.scheduled j f p) [
        | inl here ↦ cc (ap (get_elem? e.tasks) here)
        | inr there ↦ there
      ];
    },
    omega arith,
  )

  -- The slot `h` after a poll, and what the others wait for.
  scheduled-set :
      (h : ℕ) (e : Executor Fut) (slot : Option Fut) (woken : List ℕ)
      → Handles h e
      → ((f : Fut) → slot ≡ some f → Has h woken)
      → (j : ℕ) (f : Fut) → get_elem? (set e.tasks h slot) j ≡ some (some f)
      → Has j (e.channel ++ woken)
  scheduled-set h e slot woken r self j f p = elim (ℕ_discrete h j) [
    | yes here ↦
        let stored : get_elem? (set e.tasks h slot) h ≡ some slot =
          get_elem?-set_self e.tasks h slot r.named in
        let same : slot ≡ some f = cc (ap (get_elem? (set e.tasks h slot)) here) in
        subst (λ i. Has i (e.channel ++ woken)) here
          (Has-append_right h e.channel woken (self f same))
    | no there ↦ elim (r.scheduled j f (sym (get_elem?-set_ne e.tasks h j slot there) ∙ p)) [
      | inl here ↦ absurd (there here)
      | inr has ↦ Has-append_left j e.channel woken has
    ]
  ]

  settle-Scheduled :
      (h : ℕ) (e : Executor Fut) (f : Fut) → Handles h e → Scheduled (settle e h (poll h f))
  unfolding settle
  settle-Scheduled h e f r = go (poll h f).answer refl
    where
      go : (a : Poll (Unit {0})) → (poll h f).answer ≡ a → Scheduled (settle e h (poll h f))
      go (ready x) eq = rw (eq, settle) (scheduled-set h e none (poll h f).woken r (λ g w. cc))
      go pending eq =
          rw (eq, settle)
            (scheduled-set h e (some (poll h f).future) (poll h f).woken r
              (λ g w. diligent.rewakes h f eq))

  turn_polled :
      (h : ℕ) (e : Executor Fut) (f : Fut)
      → get_elem? e.tasks h ≡ some (some f)
      → Handles h e
      → Turned e (settle e h (poll h f))
  turn_polled h e f q r = (
    record {
      valid = settle-IsValid e h f (poll h f) q (rw r.sized (diligent.frugal.known h f)) r.valid;
      sized = settle-tasks poll n weight diligent.frugal e h (poll h f) ∙ r.sized;
      scheduled = settle-Scheduled h e f r;
    },
    settle-cost poll n weight diligent.frugal e h f q,
  )

  turn :
      (h : ℕ) (e : Executor Fut)
      → Handles h e
      → (e' : Executor Fut) × (do_a_wakeup poll e h ≡ returns e') × Turned e e'
  unfolding do_a_wakeup
  turn h e r = go (get_elem? e.tasks h) refl
    where
      go :
          (o : Option (Option Fut))
          → get_elem? e.tasks h ≡ o
          → (e' : Executor Fut) × (do_a_wakeup poll e h ≡ returns e') × Turned e e'
      go none q = cc ((get_elem?-some e.tasks h r.named).1)
      go (some none) q = (e, rw (q, do_a_wakeup), turn_passed h e q r)
      go (some (some f)) q = (settle e h (poll h f), rw (q, do_a_wakeup), turn_polled h e f q r)

  none_left :
      (xs : List (Option Fut))
      → ((h : ℕ) (f : Fut) → get_elem? xs h ≢ some (some f))
      → total present xs ≡ 0
  none_left [] gone = refl
  none_left (none ∷ xs) gone = omega (arith, none_left xs (λ h. gone (suc h)))
  none_left (some f ∷ xs) gone = absurd (gone 0 f refl)

  abbrev Drains : ℕ → Executor Fut → Type 0
  Drains fuel e =
      (e' : Executor Fut) × (drain_loop poll fuel e ≡ returns (drained e'))
      × (e'.num_active ≡ 0)
      × Runs e'

  -- A turn after which no task is left ends the loop; otherwise it goes on.
  after_turn :
      (fuel h : ℕ) (rest : List ℕ) (e e' : Executor Fut)
      → e.channel ≡ h ∷ rest
      → do_a_wakeup poll (record e { channel = rest }) h ≡ returns e'
      → Runs e'
      → ((e'.num_active == 0) ≡ false → Drains fuel e')
      → Drains (suc fuel) e
  unfolding drain_loop recv
  after_turn fuel h rest e e' c q r more = elim (Bool-cases (e'.num_active == 0)) [
    | inl done ↦ (e', rw (c, recv, q, done) refl, ==→eq _ _ done, r)
    | inr left ↦
        let (last, eq, zero', r') = more left in (last, rw (c, recv, q, left) eq, zero', r')
  ]

  drain_turn :
      (fuel : ℕ) (e : Executor Fut)
      → ((e' : Executor Fut) → cost weight e' < fuel → Runs e' → 0 < e'.num_active → Drains fuel e')
      → cost weight e < suc fuel
      → Runs e
      → 0 < e.num_active
      → Drains (suc fuel) e
  drain_turn fuel e ih lt r active = go e.channel refl
    where
      go : (c : List ℕ) → e.channel ≡ c → Drains (suc fuel) e
      go [] c =
          let idle : total present e.tasks ≡ 0 =
            none_left e.tasks (λ j f p. subst (Has j) c (r.scheduled j f p)) in
          absurd (omega (arith, idle, r.valid.counted))
      go (h ∷ rest) c =
          let (named, others) = subst (All (λ i. i < length e.tasks)) c r.valid.known in
          let s : Executor Fut = record e { channel = rest } in
          let waits : Handles h s = record {
            valid = record { few = r.valid.few; counted = r.valid.counted; known = others };
            sized = r.sized;
            named = named;
            scheduled = λ j f p. subst (Has j) c (r.scheduled j f p);
          } in
          let (e', q, t) = turn h s waits in
          after_turn fuel h rest e e' c q t.0
            (λ left. ih e' (omega (arith, t.1, ap length c)) t.0 (ground arith))

  drain_loop-Drains :
      (fuel : ℕ) (e : Executor Fut)
      → cost weight e < fuel
      → Runs e
      → 0 < e.num_active
      → Drains fuel e
  drain_loop-Drains zero e lt r active = elim lt [ ]
  drain_loop-Drains (suc fuel) e lt r active =
      drain_turn fuel e (drain_loop-Drains fuel) lt r active

  pub drain-Drains :
      (fuel : ℕ) (e : Executor Fut)
      → cost weight e < fuel
      → Runs e
      → (e' : Executor Fut) × (drain poll fuel e ≡ returns (drained e'))
        × (e'.num_active ≡ 0)
        × Runs e'
  unfolding drain
  drain-Drains fuel e lt r = elim (Bool-cases (e.num_active == 0)) [
    | inl done ↦ (e, rw done, ==→eq _ _ done, r)
    | inr left ↦
        let (e', q, z, r') = drain_loop-Drains fuel e lt r (ground arith) in (e', rw left q, z, r')
  ]

  pub all_done :
      (e : Executor Fut)
      → Runs e
      → e.num_active ≡ 0
      → (h : ℕ) → h < n
      → get_elem? e.tasks h ≡ some none
  all_done e r z h lt =
      let (slot, q) = get_elem?-some e.tasks h (omega (arith, r.sized)) in slot_gone slot q
    where
      slot_gone : (o : Option Fut) → get_elem? e.tasks h ≡ some o → get_elem? e.tasks h ≡ some none
      slot_gone none q = q
      slot_gone (some f) q =
          absurd (omega (arith, le-total present e.tasks h (some f) q, r.valid.counted))
