-- ===== src/Sync/Executor/Overflow.antt =====
-- Handles have 16 bits, and the list of tasks never shrinks.
use kiruna.Base.{
  ready, pending, ℕ, ◌^◌, ◌≤◌, ◌<◌, List, [], ◌∷◌, ◌++◌, Option, none, some, returns, get_elem?,
  zero, suc, inl, inr, Has, length, All, All-append, get_elem?-set_ne, ◌≡◌, arith, refl, subst, ◌∙◌,
}
use kiruna.Sync.Executor.{Polled, Executor, new, wake, spawn, settle, do_a_wakeup}

-- An executor with the handles that the wakers of its tasks carry.
pub record Woken (Fut : Type 0) : Type 0 where
  pub executor : Executor Fut
  pub handles : List ℕ

-- A history: spawns, wakes through a waker that some task was polled with, from any thread, and turns of
-- the loop of `do_some` or `drain`, in which the task may wake through its own waker and those before.
pub data Step {Fut : Type 0} (poll : ℕ → Fut → Polled Fut) (s t : Woken Fut) : Type 0 where
  spawns : (f : Fut) → t.executor ≡ spawn s.executor f → t.handles ≡ s.handles → Step poll s t
  wakes :
      (h : ℕ)
      → Has h s.handles
      → t.executor ≡ wake s.executor h
      → t.handles ≡ s.handles
      → Step poll s t
  turns :
      (h : ℕ) (rest : List ℕ)
      → s.executor.channel ≡ h ∷ rest
      → ((f : Fut) → All (λ i. Has i (h ∷ s.handles)) (poll h f).woken)
      → do_a_wakeup poll (record s.executor { channel = rest }) h ≡ returns t.executor
      → t.handles ≡ h ∷ s.handles
      → Step poll s t

pub data Runs {Fut : Type 0} (poll : ℕ → Fut → Polled Fut) (s : Woken Fut)
    : Woken Fut → Type 0 where
  stays : Runs poll s s
  then : {t u : Woken Fut} → Runs poll s t → Step poll t u → Runs poll s u

module _ {Fut : Type 0} (poll : ℕ → Fut → Polled Fut) where
  last_task :
      (xs : List (Option Fut)) (f : Fut)
      → get_elem? (xs ++ (some f ∷ [])) (length xs) ≡ some (some f)
  last_task [] f = refl
  last_task (x ∷ xs) f = last_task xs f

  settle-keeps :
      (e : Executor Fut) (h i : ℕ) (p : Polled Fut)
      → h < i
      → get_elem? (settle e h p).tasks i ≡ get_elem? e.tasks i
  unfolding settle
  settle-keeps e h i p lt =
      elim p.answer
        as (λ r. get_elem? (settle e h (record p { answer = r })).tasks i ≡ get_elem? e.tasks i) [
          | ready _ ↦ get_elem?-set_ne e.tasks h i none (λ q. absurd (omega arith))
          | pending ↦ get_elem?-set_ne e.tasks h i (some p.future) (λ q. absurd (omega arith))
        ]

  do_a_wakeup-keeps :
      (e e' : Executor Fut) (h i : ℕ)
      → h < i
      → do_a_wakeup poll e h ≡ returns e'
      → get_elem? e'.tasks i ≡ get_elem? e.tasks i
  unfolding do_a_wakeup
  do_a_wakeup-keeps e e' h i lt q = go (get_elem? e.tasks h) refl
    where
      go :
          (o : Option (Option Fut))
          → get_elem? e.tasks h ≡ o
          → get_elem? e'.tasks i ≡ get_elem? e.tasks i
      go none p = cc (rw (p, do_a_wakeup) at q)
      go (some none) p =
          let same : e ≡ e' = cc (rw (p, do_a_wakeup) at q) in
          subst (λ x. get_elem? x.tasks i ≡ get_elem? e.tasks i) same refl
      go (some (some f)) p =
          let same : settle e h (poll h f) ≡ e' = cc (rw (p, do_a_wakeup) at q) in
          subst (λ x. get_elem? x.tasks i ≡ get_elem? e.tasks i) same
            (settle-keeps e h i (poll h f) lt)

  -- Every handle in the channel and in a waker has 16 bits.
  record Narrow (s : Woken Fut) : Type 0 where
    sent : All (λ h. h < 2 ^ 16) s.executor.channel
    carried : All (λ h. h < 2 ^ 16) s.handles

  Has-All : (h : ℕ) (hs : List ℕ) → Has h hs → All (λ i. i < 2 ^ 16) hs → h < 2 ^ 16
  Has-All h [] has a = absurd has
  Has-All h (i ∷ hs) (inl e) a = omega (arith, e, a.0)
  Has-All h (i ∷ hs) (inr later) a = Has-All h hs later a.1

  All-Has :
      (hs is : List ℕ)
      → All (λ i. Has i hs) is
      → All (λ i. i < 2 ^ 16) hs
      → All (λ i. i < 2 ^ 16) is
  All-Has hs [] has a = tt
  All-Has hs (i ∷ is) has a = (Has-All i hs has.0 a, All-Has hs is has.1 a)

  settle-channel :
      (e : Executor Fut) (h : ℕ) (p : Polled Fut) → (settle e h p).channel ≡ e.channel ++ p.woken
  unfolding settle
  settle-channel e h p =
      elim p.answer
        as (λ r. (settle e h (record p { answer = r })).channel ≡ e.channel ++ p.woken) [
          | ready _ ↦ refl
          | pending ↦ refl
        ]

  do_a_wakeup-sent :
      (e e' : Executor Fut) (h : ℕ)
      → ((f : Fut) → All (λ i. i < 2 ^ 16) (poll h f).woken)
      → All (λ i. i < 2 ^ 16) e.channel
      → do_a_wakeup poll e h ≡ returns e'
      → All (λ i. i < 2 ^ 16) e'.channel
  unfolding do_a_wakeup
  do_a_wakeup-sent e e' h w a q = go (get_elem? e.tasks h) refl
    where
      go : (o : Option (Option Fut)) → get_elem? e.tasks h ≡ o → All (λ i. i < 2 ^ 16) e'.channel
      go none p = cc (rw (p, do_a_wakeup) at q)
      go (some none) p =
          let same : e ≡ e' = cc (rw (p, do_a_wakeup) at q) in
          subst (λ x. All (λ i. i < 2 ^ 16) x.channel) same a
      go (some (some f)) p =
          let same : settle e h (poll h f) ≡ e' = cc (rw (p, do_a_wakeup) at q) in
          subst (λ x. All (λ i. i < 2 ^ 16) x.channel) same
            (rw (settle-channel e h (poll h f))
              (All-append (λ i. i < 2 ^ 16) e.channel (poll h f).woken a (w f)))

  Step-Narrow : {s t : Woken Fut} → Step poll s t → Narrow s → Narrow t
  unfolding spawn wake
  Step-Narrow {s} {t} (spawns f e k) n = record {
    sent = rw e (All-append (λ h. h < 2 ^ 16) s.executor.channel _ n.sent (omega arith, tt));
    carried = rw k n.carried;
  }
  Step-Narrow {s} {t} (wakes h has e k) n = record {
    sent = rw e (
        All-append (λ i. i < 2 ^ 16) s.executor.channel (h ∷ []) n.sent
          (Has-All h s.handles has n.carried, tt));
    carried = rw k n.carried;
  }
  Step-Narrow {s} {t} (turns h rest c w q k) n =
      let (first, others) = subst (All (λ i. i < 2 ^ 16)) c n.sent in
      record {
        sent =
            do_a_wakeup-sent (record s.executor { channel = rest }) t.executor h
              (λ f. All-Has (h ∷ s.handles) (poll h f).woken (w f) (first, n.carried)) others q;
        carried = rw k (first, n.carried);
      }

  Runs-Narrow : {s t : Woken Fut} → Runs poll s t → Narrow s → Narrow t
  Runs-Narrow stays n = n
  Runs-Narrow (then r st) n = Step-Narrow st (Runs-Narrow r n)

  get_elem?-before :
      (xs ys : List (Option Fut)) (i : ℕ) {o : Option Fut}
      → get_elem? xs i ≡ some o
      → get_elem? (xs ++ ys) i ≡ some o
  get_elem?-before [] ys i e = cc
  get_elem?-before (x ∷ xs) ys zero e = e
  get_elem?-before (x ∷ xs) ys (suc i) e = get_elem?-before xs ys i e

  Step-keeps :
      {s t : Woken Fut} {o : Option Fut} (i : ℕ)
      → 2 ^ 16 ≤ i
      → Step poll s t
      → Narrow s
      → get_elem? s.executor.tasks i ≡ some o
      → get_elem? t.executor.tasks i ≡ some o
  unfolding spawn wake
  Step-keeps {s} i far (spawns f e k) n at =
      rw e (get_elem?-before s.executor.tasks (some f ∷ []) i at)
  Step-keeps {s} i far (wakes h has e k) n at = rw e at
  Step-keeps {s} {t} i far (turns h rest c w q k) n at =
      let (first, others) = subst (All (λ i. i < 2 ^ 16)) c n.sent in
      do_a_wakeup-keeps (record s.executor { channel = rest }) t.executor h i (omega arith) q ∙ at

  Runs-keeps :
      {s t : Woken Fut} {o : Option Fut} (i : ℕ)
      → 2 ^ 16 ≤ i
      → Runs poll s t
      → Narrow s
      → get_elem? s.executor.tasks i ≡ some o
      → get_elem? t.executor.tasks i ≡ some o
  Runs-keeps i far stays n at = at
  Runs-keeps i far (then r st) n at =
      Step-keeps i far st (Runs-Narrow r n) (Runs-keeps i far r n at)

  -- Once 2^16 tasks have ever been spawned by an executor, the next one is never polled: after any history
  -- of a new executor, and through any history from then on, of spawns, wakes through wakers and turns
  -- of the loop, the new task lies at its place as it was spawned.
  pub spawn-starves :
      (s t : Woken Fut) (f : Fut)
      → Runs poll (record { executor = new; handles = [] }) s
      → 2 ^ 16 ≤ length s.executor.tasks
      → Runs poll (record s { executor = spawn s.executor f }) t
      → get_elem? t.executor.tasks (length s.executor.tasks) ≡ some (some f)
  unfolding spawn new
  spawn-starves s t f before full after =
      let n = Runs-Narrow before (record { sent = tt; carried = tt }) in
      Runs-keeps (length s.executor.tasks) full after (Step-Narrow (spawns f refl refl) n)
        (last_task s.executor.tasks f)
