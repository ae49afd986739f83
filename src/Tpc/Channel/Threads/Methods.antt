-- ===== src/Tpc/Channel/Threads/Methods.antt =====
-- The methods of tpc/src/channel.rs as runs of one thread.
use kiruna.Base.{
  ℕ, zero, suc, List, [], ◌∷◌, ◌++◌, Option, none, some, get_elem?, get_elem?-set_self,
  get_elem?-lt_length, set, length, Outcome, returns, panics, Fault, ◌>>=◌, ◌≡◌, refl, ap, subst,
}
use kiruna.Tpc.Channel.Platform.{Semaphore, ArrayQueue}
use kiruna.Tpc.Channel.{
  SharedOne, Channel, send_one, pop_one, recv_nonblock, send, recv_level, recv_immediate,
}
use kiruna.Tpc.Channel.Threads.{
  Pc, outside, panicked, Move, push, push_full, signal_local, signal_global, try_global,
  try_nothing, try_hit, try_miss, restore, pop, pop_nothing,
}
use kiruna.Tpc.Channel.Threads.Order.{pushed_by, popped_by}

set-set : {A : Type 0} (xs : List A) (i : ℕ) (a b : A) → set (set xs i a) i b ≡ set xs i b
set-set [] i a b = refl
set-set (x ∷ xs) zero a b = refl
set-set (x ∷ xs) (suc i) a b = ap (◌∷◌ x) (set-set xs i a b)

pub get_elem?-behind :
    {A : Type 0} (xs ys : List A) (x : A) → get_elem? (xs ++ (x ∷ ys)) (length xs) ≡ some x
get_elem?-behind [] ys x = refl
get_elem?-behind (y ∷ xs) ys x = get_elem?-behind xs ys x

pub set-behind :
    {A : Type 0} (xs ys : List A) (x z : A) → set (xs ++ (x ∷ ys)) (length xs) z ≡ xs ++ (z ∷ ys)
set-behind [] ys x z = refl
set-behind (y ∷ xs) ys x z = ap (◌∷◌ y) (set-behind xs ys x z)

pub get_elem?-end : {A : Type 0} (xs : List A) → get_elem? xs (length xs) ≡ none
get_elem?-end [] = refl
get_elem?-end (x ∷ xs) = get_elem?-end xs

module _ (S : Semaphore) {E : Type 0} (Q : ArrayQueue E) (preferred : ℕ) where
  -- Steps of one thread behind each other, with the logs of what they push and pop.
  pub data Run : Channel S Q → Pc → Channel S Q → Pc → List (ℕ × E) → List (ℕ × E) → Type 0 where
    done : {m : Channel S Q} {p : Pc} → Run m p m p [] []
    then :
        {m m' m'' : Channel S Q} {p p' p'' : Pc} {ins outs : List (ℕ × E)}
        (mv : Move S Q preferred m p m' p')
        → Run m' p' m'' p'' ins outs
        → Run m p m'' p'' (pushed_by S Q mv ++ ins) (popped_by S Q mv ++ outs)

  abbrev pub Fails : Channel S Q → Fault → Type 0
  Fails c f = (c' : Channel S Q) × Run c outside c' (panicked f) [] []

  abbrev pub Sends : Channel S Q → ℕ → E → Outcome (Channel S Q) → Type 0
  Sends c level e (returns c') = Run c outside c' outside ((level, e) ∷ []) []
  Sends c level e (panics f) = Fails c f

  module _ (c : Channel S Q) (level : ℕ) (s : SharedOne S Q)
      (g : get_elem? c.shared level ≡ some s) where
    written : (a : SharedOne S Q) → get_elem? (set c.shared level a) level ≡ some a
    written a = get_elem?-set_self c.shared level a (get_elem?-lt_length c.shared level g)

    -- The end of a run that has written the level twice.
    twice :
        (a b : SharedOne S Q) (global : S.State) (ins outs : List (ℕ × E))
        → Run c outside
            (record { shared = set (set c.shared level a) level b; global_semaphore = global })
            outside
            ins
            outs
        → Run c outside
            (record { shared = set c.shared level b; global_semaphore = global })
            outside
            ins
            outs
    twice a b global ins outs =
        subst
          (λ xs. Run c outside (record { shared = xs; global_semaphore = global }) outside ins outs)
          (set-set c.shared level a b)

  pub send-Run :
      (c : Channel S Q) (level : ℕ) (e : E) (s : SharedOne S Q)
      → get_elem? c.shared level ≡ some s
      → Sends c level e (send S Q c e level)
  unfolding send send_one
  send-Run c level e s g = rw (g, send) (go (Q.push s.queue e) refl)
    where
      go :
          (o : Option Q.State)
          → Q.push s.queue e ≡ o
          → Sends c level e (
              send_one S Q s e >>= λ s'. returns (record {
                shared = set c.shared level s';
                global_semaphore = S.signal c.global_semaphore;
              }))
      go none h = rw (h, send_one) (c, then (push_full level e s g h) done)
      go (some q) h =
          let a : SharedOne S Q = record s { queue = q } in
          rw (h, send_one)
            (twice c level s g a
              (record { queue = q; local_semaphore = S.signal s.local_semaphore }) _ _ _
              (then (push level e s q g h)
                (then (signal_local a (written c level s g a)) (then signal_global done))))

  abbrev pub from : Option E → List (ℕ × E)
  from none = []
  from (some e) = (preferred, e) ∷ []

  abbrev pub Tries : Channel S Q → Outcome (Option E × Channel S Q) → Type 0
  Tries c (returns (o, c')) = Run c outside c' outside [] (from o)
  Tries c (panics f) = Fails c f

  recv_level-Run :
      (c : Channel S Q) (s : SharedOne S Q) (global : S.State)
      → get_elem? c.shared preferred ≡ some s
      → S.decrement c.global_semaphore ≡ some global
      → Tries c (recv_level S Q c global preferred)
  unfolding recv_level recv_nonblock pop_one
  recv_level-Run c s global g d = rw (g, recv_level) (go (S.decrement s.local_semaphore) refl)
    where
      rest : Outcome (Option (E × SharedOne S Q)) → Outcome (Option E × Channel S Q)
      rest r = r >>= elim [
        | some (e, s') ↦
            returns
              (some e, record { shared = set c.shared preferred s'; global_semaphore = global })
        | none ↦ returns (none, record c { global_semaphore = S.signal global })
      ]

      hit :
          (t : S.State)
          → S.decrement s.local_semaphore ≡ some t
          → (o : Option (E × Q.State)) → Q.pop s.queue ≡ o
          → Tries c (rest (pop_one S Q s.queue t))
      hit t h none p =
          let a : SharedOne S Q = record s { local_semaphore = t } in
          rw (p, pop_one)
            (
              _,
              then (try_global global d) (
                  then (try_hit s t g h) (then (pop_nothing a (written c preferred s g a) p) done)),
            )
      hit t h (some (e, q)) p =
          let a : SharedOne S Q = record s { local_semaphore = t } in
          rw (p, pop_one)
            (twice c preferred s g a (record { queue = q; local_semaphore = t }) global _ _
              (then (try_global global d)
                (then (try_hit s t g h) (then (pop a e q (written c preferred s g a) p) done))))

      go :
          (o : Option S.State)
          → S.decrement s.local_semaphore ≡ o
          → Tries c (rest (recv_nonblock S Q s))
      go none h =
          rw (h, recv_nonblock)
            (then (try_global global d) (then (try_miss s g h) (then restore done)))
      go (some t) h = rw (h, recv_nonblock) (hit t h (Q.pop s.queue) refl)

  pub recv_immediate-Run :
      (c : Channel S Q) (s : SharedOne S Q)
      → get_elem? c.shared preferred ≡ some s
      → Tries c (recv_immediate S Q c preferred)
  unfolding recv_immediate
  recv_immediate-Run c s g = go (S.decrement c.global_semaphore) refl
    where
      go :
          (o : Option S.State)
          → S.decrement c.global_semaphore ≡ o
          → Tries c (recv_immediate S Q c preferred)
      go none d = rw (d, recv_immediate) (then (try_nothing d) done)
      go (some global) d = rw (d, recv_immediate) (recv_level-Run c s global g d)
