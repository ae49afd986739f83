-- ===== src/Sync/Executor/Finish.antt =====
-- A program that spawns futures and drains the executor.
use kiruna.Base.{
  ℕ, zero, suc, ◌+◌, ◌^◌, ◌<◌, u16, List, [], ◌∷◌, ◌++◌, Option, none, some, returns, get_elem?,
  length, Has, Has-append_left, Has-append_right, length-append, ◌≡◌, ◌⊎◌, inl, inr, arith, refl,
  subst, ap,
}
use kiruna.Sync.Executor.{Polled, Executor, new, spawn, drained, drain}
use kiruna.Sync.Executor.Invariant.{IsValid, spawn-IsValid}
use kiruna.Sync.Executor.Turn.{cost}
use kiruna.Sync.Executor.Drain.{Diligent, Runs, drain-Drains, all_done}

unfoldable pub spawn_all : {Fut : Type 0} → List Fut → Executor Fut → Executor Fut
spawn_all [] e = e
spawn_all (f ∷ fs) e = spawn_all fs (spawn e f)

record Spawned {Fut : Type 0} (k : ℕ) (e : Executor Fut) : Type 0 where
  valid : IsValid e
  sized : length e.tasks ≡ k
  scheduled : (h : ℕ) (f : Fut) → get_elem? e.tasks h ≡ some (some f) → Has h e.channel

module _ {Fut : Type 0} where
  -- An index into `xs ++ y ∷ []` is one into `xs`, or the last.
  last_or_before :
      (xs : List (Option Fut)) (y a : Option Fut) (h : ℕ)
      → get_elem? (xs ++ (y ∷ [])) h ≡ some a
      → (get_elem? xs h ≡ some a) ⊎ (length xs ≡ h)
  last_or_before [] y a zero q = inr refl
  last_or_before [] y a (suc h) q = cc
  last_or_before (x ∷ xs) y a zero q = inl q
  last_or_before (x ∷ xs) y a (suc h) q = elim (last_or_before xs y a h q) [
    | inl e ↦ inl e
    | inr e ↦ inr (ap suc e)
  ]

  spawn-Spawned :
      (k : ℕ) (e : Executor Fut) (f : Fut)
      → k + 1 < 2 ^ 16
      → Spawned k e
      → Spawned (suc k) (spawn e f)
  unfolding spawn
  spawn-Spawned k e f room s = record {
    valid = spawn-IsValid e f (omega (arith, s.sized)) s.valid;
    sized = omega (arith, length-append e.tasks (some f ∷ []), s.sized);
    scheduled = λ h g q. elim (last_or_before e.tasks (some f) (some g) h q) [
      | inl old ↦ Has-append_left h e.channel (u16 (length e.tasks) ∷ []) (s.scheduled h g old)
      | inr last ↦
          Has-append_right h e.channel (u16 (length e.tasks) ∷ []) (inl (omega (arith, s.sized)))
    ];
  }

  spawn_all-Spawned :
      (k : ℕ) (fs : List Fut) (e : Executor Fut)
      → k + length fs < 2 ^ 16
      → Spawned k e
      → Spawned (k + length fs) (spawn_all fs e)
  unfolding spawn_all
  spawn_all-Spawned k [] e room s = let z : k ≡ k + 0 = omega arith in subst (λ i. Spawned i e) z s
  spawn_all-Spawned k (f ∷ fs) e room s =
      let z : suc k + length fs ≡ k + suc (length fs) = omega arith in
      subst (λ i. Spawned i (spawn_all fs (spawn e f))) z
        (spawn_all-Spawned (suc k) fs (spawn e f) (omega arith)
          (spawn-Spawned k e f (omega arith) s))

  new-Spawned : Spawned {Fut = Fut} 0 new
  unfolding new
  new-Spawned = record {
    valid = record { few = omega arith; counted = refl; known = tt };
    sized = refl;
    scheduled = λ h f q. cc;
  }

-- Fewer than 2^16 diligent futures are spawned and the executor is drained. Then `drain` returns,
-- without a panic and without waiting for a message that nobody sends, and every task has finished.
-- Fuel above the number of tasks and the wakes that they may give is enough.
pub drain-spawn_all :
    {Fut : Type 0} (poll : ℕ → Fut → Polled Fut) (weight : Fut → ℕ) (fs : List Fut) (fuel : ℕ)
    (diligent : Diligent poll (length fs) weight)
    → length fs < 2 ^ 16
    → cost weight (spawn_all fs new) < fuel
    → (e : Executor Fut) × (drain poll fuel (spawn_all fs new) ≡ returns (drained e))
      × (e.num_active ≡ 0)
      × ((h : ℕ) → h < length fs → get_elem? e.tasks h ≡ some none)
drain-spawn_all poll weight fs fuel diligent few enough =
    let s = spawn_all-Spawned 0 fs new (omega arith) new-Spawned in
    let runs : Runs poll (length fs) weight diligent (spawn_all fs new) = record {
      valid = s.valid;
      sized = omega (arith, s.sized);
      scheduled = s.scheduled;
    } in
    let (e, q, z, r) = drain-Drains poll (length fs) weight diligent fuel _ enough runs in
    (e, q, z, all_done poll (length fs) weight diligent e r z)
