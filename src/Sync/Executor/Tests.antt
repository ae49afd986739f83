-- ===== src/Sync/Executor/Tests.antt =====
-- Runs of the executor over futures that count down and wake themselves.
use kiruna.Base.{
  ℕ, zero, suc, ◌+◌, ◌≤◌, ◌<◌, ◌^◌, [], ◌∷◌, some, none, ready, pending, returns, get_elem?, length,
  length-append, All, Has, total, ◌≡◌, inl, arith, refl,
}
use kiruna.Sync.Executor.{Polled, Executor, new, spawn, do_a_wakeup, recv, drained, drain}
use kiruna.Sync.Executor.Invariant.{Reach, start, later, spawns, present, Reach-turn}
use kiruna.Sync.Executor.Drain.{Diligent}
use kiruna.Sync.Executor.Finish.{spawn_all, drain-spawn_all}
use kiruna.Sync.Executor.Turn.{Frugal}
use kiruna.Sync.Executor.Some.{Emptied, do_some-empties}
use kiruna.Sync.Executor.Overflow
use kiruna.Sync.Executor.Overflow.{Woken, Runs, stays, then, spawn-starves}

abbrev countdown : ℕ → ℕ → Polled ℕ
countdown own zero = record { answer = ready tt; future = zero; woken = [] }
countdown own (suc n) = record { answer = pending; future = n; woken = own ∷ [] }

abbrev two_tasks : Executor ℕ
two_tasks = record { channel = 0 ∷ 1 ∷ []; tasks = some 1 ∷ some 0 ∷ []; num_active = 2 }

spawn_run : spawn_all (1 ∷ 0 ∷ []) new ≡ two_tasks
unfolding spawn_all spawn new
spawn_run = refl

drain_run :
    drain countdown 5 two_tasks
    ≡ returns (drained (record { channel = []; tasks = none ∷ none ∷ []; num_active = 0 }))
unfolding drain recv do_a_wakeup
drain_run = refl

reached : Reach countdown two_tasks
unfolding spawn new
reached = later (later start (spawns 1 (omega arith) refl)) (spawns 0 (omega arith) refl)

countdown_known : (f : ℕ) → All (λ i. i < 2) (countdown 0 f).woken
countdown_known zero = tt
countdown_known (suc f) = (omega arith, tt)

Reach-turn_example :
    (two_tasks.num_active ≡ total present two_tasks.tasks)
    × ((e' : Executor ℕ) × (do_a_wakeup countdown (record two_tasks { channel = 1 ∷ [] }) 0
          ≡ returns e'))
Reach-turn_example = Reach-turn countdown 0 (1 ∷ []) reached refl countdown_known

-- Futures that are counting down from any number, if only their own tasks exist: handles from 2 on
-- are never given out, so there the future is taken to be ready.
abbrev guarded : ℕ → ℕ → Polled ℕ
guarded zero f = countdown 0 f
guarded (suc zero) f = countdown 1 f
guarded (suc (suc h)) f = record { answer = ready tt; future = f; woken = [] }

guarded-Diligent : Diligent guarded 2 (λ f. f)
guarded-Diligent = record {
  frugal = record { known = known; pays = pays; pays_last = pays_last };
  rewakes = rewakes;
}
  where
    known : (h f : ℕ) → All (λ i. i < 2) (guarded h f).woken
    known zero zero = tt
    known zero (suc f) = (omega arith, tt)
    known (suc zero) zero = tt
    known (suc zero) (suc f) = (omega arith, tt)
    known (suc (suc h)) f = tt

    rewakes : (h f : ℕ) → (guarded h f).answer ≡ pending → Has h (guarded h f).woken
    rewakes zero zero e = cc
    rewakes zero (suc f) e = inl refl
    rewakes (suc zero) zero e = cc
    rewakes (suc zero) (suc f) e = inl refl
    rewakes (suc (suc h)) f e = cc

    pays :
        (h f : ℕ)
        → (guarded h f).answer ≡ pending
        → (guarded h f).future + length (guarded h f).woken ≤ f
    pays zero zero e = cc
    pays zero (suc f) e = omega arith
    pays (suc zero) zero e = cc
    pays (suc zero) (suc f) e = omega arith
    pays (suc (suc h)) f e = cc

    pays_last : (h f : ℕ) → (guarded h f).answer ≡ ready tt → length (guarded h f).woken ≤ f
    pays_last zero zero e = omega arith
    pays_last zero (suc f) e = omega arith
    pays_last (suc zero) zero e = omega arith
    pays_last (suc zero) (suc f) e = omega arith
    pays_last (suc (suc h)) f e = omega arith

drain-spawn_all_example :
    (e : Executor ℕ) × (drain guarded 5 (spawn_all (1 ∷ 0 ∷ []) new) ≡ returns (drained e))
    × (e.num_active ≡ 0)
    × ((h : ℕ) → h < 2 → get_elem? e.tasks h ≡ some none)
unfolding spawn_all spawn new
drain-spawn_all_example =
    drain-spawn_all guarded (λ f. f) (1 ∷ 0 ∷ []) 5 guarded-Diligent (omega arith) (omega arith)

-- Futures that are never ready: each wakes task 1 as often as its number says, and then no one.
abbrev sleepy : ℕ → ℕ → Polled ℕ
sleepy own zero = record { answer = pending; future = zero; woken = [] }
sleepy own (suc n) = record { answer = pending; future = n; woken = 1 ∷ [] }

sleepy-Frugal : Frugal sleepy 2 (λ f. f)
sleepy-Frugal = record { known = known; pays = pays; pays_last = pays_last }
  where
    known : (h f : ℕ) → All (λ i. i < 2) (sleepy h f).woken
    known h zero = tt
    known h (suc f) = (omega arith, tt)

    pays :
        (h f : ℕ)
        → (sleepy h f).answer ≡ pending
        → (sleepy h f).future + length (sleepy h f).woken ≤ f
    pays h zero e = omega arith
    pays h (suc f) e = omega arith

    pays_last : (h f : ℕ) → (sleepy h f).answer ≡ ready tt → length (sleepy h f).woken ≤ f
    pays_last h zero e = cc
    pays_last h (suc f) e = cc

do_some-empties_example : Emptied sleepy 2 (λ f. f) sleepy-Frugal 4 two_tasks
do_some-empties_example =
    do_some-empties sleepy 2 (λ f. f) sleepy-Frugal 4 two_tasks
      (record { few = omega arith; counted = refl; known = (omega arith, (omega arith, tt)) }) refl
      (omega arith)

-- The executor behind so many spawns.
abbrev crowd : ℕ → Woken ℕ
crowd zero = record { executor = new; handles = [] }
crowd (suc n) = record (crowd n) { executor = spawn (crowd n).executor 0 }

crowd-Runs : (n : ℕ) → Runs countdown (crowd zero) (crowd n)
crowd-Runs zero = stays
crowd-Runs (suc n) = then (crowd-Runs n) (Overflow.spawns 0 refl refl)

length-crowd : (n : ℕ) → length (crowd n).executor.tasks ≡ n
unfolding spawn new
length-crowd zero = refl
length-crowd (suc n) =
    omega (arith, length-append (crowd n).executor.tasks (some 0 ∷ []), length-crowd n)

-- One more task after 2^16 of them, and another one behind it.
abbrev crowded : Woken ℕ
crowded = crowd (2 ^ 16)

spawn-starves_example :
    get_elem? (spawn (spawn crowded.executor 7) 9).tasks (length crowded.executor.tasks)
    ≡ some (some 7)
spawn-starves_example =
    spawn-starves countdown crowded
      (record crowded { executor = spawn (spawn crowded.executor 7) 9 }) 7 (crowd-Runs (2 ^ 16))
      (omega (arith, length-crowd (2 ^ 16))) (then stays (Overflow.spawns 9 refl refl))
