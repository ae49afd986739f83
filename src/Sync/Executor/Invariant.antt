-- ===== src/Sync/Executor/Invariant.antt =====
-- The bookkeeping of the executor, whatever the futures and other threads do.
use kiruna.Base.{
  ℕ, ◌+◌, ◌^◌, ◌≤◌, ◌<◌, List, [], ◌∷◌, ◌++◌, Option, none, some, ready, pending, returns,
  get_elem?, length, set, All, total, total-set, total-append, le-total, length-set, length-append,
  All-append, get_elem?-some, ◌≡◌, arith, refl, sym, subst,
}
use kiruna.Sync.Executor.{Polled, Executor, new, wake, spawn, settle, do_a_wakeup}

abbrev pub present {ℓ} : {A : Type ℓ} → Option A → ℕ
present none = 0
present (some a) = 1

-- `num_active` counts the tasks that are still there, and no message names a task that never was.
pub record IsValid {Fut : Type 0} (e : Executor Fut) : Type 0 where
  pub few : length e.tasks < 2 ^ 16
  pub counted : e.num_active ≡ total present e.tasks
  pub known : All (λ h. h < length e.tasks) e.channel

All-lt_mono : (m n : ℕ) (hs : List ℕ) → m ≤ n → All (λ h. h < m) hs → All (λ h. h < n) hs
All-lt_mono m n [] le a = tt
All-lt_mono m n (h ∷ hs) le a = (omega (arith, a.0), All-lt_mono m n hs le a.1)

total-present-le {ℓ} : {A : Type ℓ} (xs : List (Option A)) → total present xs ≤ length xs
total-present-le [] = omega arith
total-present-le (none ∷ xs) = omega (arith, total-present-le xs)
total-present-le (some a ∷ xs) = omega (arith, total-present-le xs)

module _ {Fut : Type 0} where
  pub spawn-IsValid :
      (e : Executor Fut) (f : Fut) → length e.tasks + 1 < 2 ^ 16 → IsValid e → IsValid (spawn e f)
  unfolding spawn
  spawn-IsValid e f room v = record {
    few = omega (arith, length-append e.tasks (some f ∷ []));
    counted = omega (
      arith,
      total-append present e.tasks (some f ∷ []),
      total-present-le e.tasks,
      v.counted,
      v.few,
    );
    known =
        All-append (λ h. h < length (e.tasks ++ (some f ∷ []))) e.channel _
          (All-lt_mono _ _ e.channel (omega (arith, length-append e.tasks (some f ∷ []))) v.known)
          (omega (arith, length-append e.tasks (some f ∷ []), v.few), tt);
  }

  wake-IsValid : (e : Executor Fut) (h : ℕ) → h < length e.tasks → IsValid e → IsValid (wake e h)
  unfolding wake
  wake-IsValid e h lt v = record {
    few = v.few;
    counted = v.counted;
    known = All-append (λ i. i < length e.tasks) e.channel (h ∷ []) v.known (lt, tt);
  }

  replaced :
      (xs : List (Option Fut)) (h : ℕ) (f : Fut) (new : Option Fut)
      → get_elem? xs h ≡ some (some f)
      → (total present (set xs h new) + 1 ≡ total present xs + present new)
        × (length (set xs h new) ≡ length xs)
        × (1 ≤ total present xs)
  replaced xs h f new q =
      (total-set present xs h (some f) new q, length-set xs h new, le-total present xs h (some f) q)

  -- A poll of task `h` that leaves `slot` there, with `n` tasks still active.
  polled-IsValid :
      (e : Executor Fut) (h n : ℕ) (f : Fut) (slot : Option Fut) (woken : List ℕ)
      → get_elem? e.tasks h ≡ some (some f)
      → n + 1 ≡ e.num_active + present slot
      → All (λ i. i < length e.tasks) woken
      → IsValid e
      → IsValid
          (record { channel = e.channel ++ woken; tasks = set e.tasks h slot; num_active = n })
  polled-IsValid e h n f slot woken q count a v = record {
    few = omega (arith, replaced e.tasks h f slot q, v.few);
    counted = omega (arith, replaced e.tasks h f slot q, v.counted);
    known =
        All-append (λ i. i < length (set e.tasks h slot)) e.channel woken
          (rw (length-set e.tasks h slot) v.known) (rw (length-set e.tasks h slot) a);
  }

  pub settle-IsValid :
      (e : Executor Fut) (h : ℕ) (f : Fut) (p : Polled Fut)
      → get_elem? e.tasks h ≡ some (some f)
      → All (λ i. i < length e.tasks) p.woken
      → IsValid e
      → IsValid (settle e h p)
  unfolding settle
  settle-IsValid e h f p q a v =
      elim p.answer as (λ r. IsValid (settle e h (record p { answer = r }))) [
        | ready _ ↦
            polled-IsValid e h _ f none p.woken q
              (omega
                (arith, replaced e.tasks h f none q, total-present-le e.tasks, v.counted, v.few))
              a v
        | pending ↦ polled-IsValid e h _ f (some p.future) p.woken q (omega arith) a v
      ]

-- What may happen to the executor: a spawn, a wake from any thread of a task that was spawned, or
-- one turn of the loop of `do_some` or `drain`, in which the task may wake any tasks.
module _ {Fut : Type 0} (poll : ℕ → Fut → Polled Fut) where
  pub data Step (e : Executor Fut) (e' : Executor Fut) : Type 0 where
    spawns : (f : Fut) → length e.tasks + 1 < 2 ^ 16 → e' ≡ spawn e f → Step e e'
    wakes : (h : ℕ) → h < length e.tasks → e' ≡ wake e h → Step e e'
    turns :
        (h : ℕ) (rest : List ℕ)
        → e.channel ≡ h ∷ rest
        → ((f : Fut) → All (λ i. i < length e.tasks) (poll h f).woken)
        → do_a_wakeup poll (record e { channel = rest }) h ≡ returns e'
        → Step e e'

  -- A turn that names a task which was spawned does not panic, and keeps the bookkeeping.
  pub do_a_wakeup-IsValid :
      (e : Executor Fut) (h : ℕ)
      → h < length e.tasks
      → ((f : Fut) → All (λ i. i < length e.tasks) (poll h f).woken)
      → IsValid e
      → (e' : Executor Fut) × (do_a_wakeup poll e h ≡ returns e') × IsValid e'
  unfolding do_a_wakeup
  do_a_wakeup-IsValid e h lt a v = go (get_elem? e.tasks h) refl
    where
      go :
          (o : Option (Option Fut))
          → get_elem? e.tasks h ≡ o
          → (e' : Executor Fut) × (do_a_wakeup poll e h ≡ returns e') × IsValid e'
      go none q = cc ((get_elem?-some e.tasks h lt).1)
      go (some none) q = (e, rw (q, do_a_wakeup), v)
      go (some (some f)) q =
          (settle e h (poll h f), rw (q, do_a_wakeup), settle-IsValid e h f (poll h f) q (a f) v)

  pub data Reach : Executor Fut → Type 0 where
    start : Reach new
    later : {e e' : Executor Fut} → Reach e → Step e e' → Reach e'

  Step-IsValid : {e e' : Executor Fut} → Step e e' → IsValid e → IsValid e'
  Step-IsValid {e} (spawns f room q) v = subst IsValid (sym q) (spawn-IsValid e f room v)
  Step-IsValid {e} (wakes h lt q) v = subst IsValid (sym q) (wake-IsValid e h lt v)
  Step-IsValid {e} {e'} (turns h rest c a q) v =
      let (known, others) = subst (All (λ i. i < length e.tasks)) c v.known in
      let waiting : IsValid (record e { channel = rest }) = record {
        few = v.few;
        counted = v.counted;
        known = others;
      } in
      let (e'', q', v') = do_a_wakeup-IsValid (record e { channel = rest }) h known a waiting in
      let same : e'' ≡ e' = cc in subst IsValid same v'

  Reach-IsValid : {e : Executor Fut} → Reach e → IsValid e
  unfolding new
  Reach-IsValid start = record { few = omega arith; counted = refl; known = tt }
  Reach-IsValid (later r s) = Step-IsValid s (Reach-IsValid r)

  -- After any history of spawns (fewer than 2^16 of them), wakes of spawned tasks from any thread,
  -- and turns of the loop, `num_active` is the number of tasks that have not finished, and the next
  -- message is handled without a panic.
  pub Reach-turn :
      {e : Executor Fut} (h : ℕ) (rest : List ℕ)
      → Reach e
      → e.channel ≡ h ∷ rest
      → ((f : Fut) → All (λ i. i < length e.tasks) (poll h f).woken)
      → (e.num_active ≡ total present e.tasks)
        × ((e' : Executor Fut) × (do_a_wakeup poll (record e { channel = rest }) h ≡ returns e'))
  Reach-turn {e} h rest r c a =
      let v = Reach-IsValid r in
      let (known, others) = subst (All (λ i. i < length e.tasks)) c v.known in
      let waiting : IsValid (record e { channel = rest }) = record {
        few = v.few;
        counted = v.counted;
        known = others;
      } in
      let (e', q, v') = do_a_wakeup-IsValid (record e { channel = rest }) h known a waiting in
      (v.counted, (e', q))
