-- ===== src/Tpc/Set/Guard/Tests.antt =====
-- Runs of the guards of tpc/src/set.rs.
use kiruna.Base.{
  ℕ, ◌+◌, List, [], ◌∷◌, Option, none, some, Fault, ◌≡◌, inl, refl, arith, total, Has,
}
use kiruna.Base.AtomicWaker.{AtomicWaker}
use kiruna.Tpc.Set.Guard.{set_scoped, registers}
use kiruna.Tpc.Set.Guard.Life.{Reads, run, run-set_scoped}
use kiruna.Tpc.Set.Guard.Wakeup.{
  Job, running, waking, finished, Guard, registering, registered, waiting, System, ends_last, wakes,
  begins, registers, sees_more, works, polls, start, later, Reach, runs, wakings, Reach-wakes,
}

abbrev cell : AtomicWaker
cell = record {
  State = Option ℕ;
  held = λ s. s;
  new = none;
  register = λ w s. some w;
  take = λ s. none;
  held-new = refl;
  held-register = λ w s. refl;
  held-take = λ s. refl;
}

-- Polled twice: the second poll finds no child left, by its second load.
abbrev two_polls : List Reads
two_polls =
    record { waker = 5; room = 9; first = 2; second = 2 }
    ∷ record { waker = 6; room = 9; first = 1; second = 0 }
    ∷ []

-- Where the queue takes one of two tasks, the guard panics in its poll and in its drop.
full_run :
    run ℕ (record { waker = 5; room = 1; first = 2; second = 2 } ∷ []) (set_scoped (7 ∷ 8 ∷ []))
    ≡ Fault.assertion ∷ Fault.unreachable ∷ []
full_run =
    run-set_scoped ℕ (7 ∷ 8 ∷ []) (record { waker = 5; room = 1; first = 2; second = 2 } ∷ [])

-- One job: the guard is polled with waker 5, and the job ends while it waits.
abbrev at : ℕ → Option ℕ → List ℕ → Job → Guard → System cell
at n w ws j g = record {
  shared = record { children_remaining = n; waker = w; woken = ws };
  jobs = j ∷ [];
  guard = g;
}

abbrev Reached : System cell → Type 0
Reached = Reach cell 1

Reached-waiting : Reached (at 1 (some 5) [] running (waiting 5))
Reached-waiting =
    later {s = at 1 (some 5) [] running (registered 5)}
      (later {s = at 1 none [] running (registering 5)}
        (later start (polls (begins 5 (inl refl)) refl refl refl)) (polls registers refl refl refl))
      (polls (sees_more (omega arith)) refl refl refl)

Reached-woken : Reached (at 0 none (5 ∷ []) finished (waiting 5))
Reached-woken =
    later {s = at 0 (some 5) [] waking (waiting 5)}
      (later Reached-waiting (works [] [] refl (ends_last refl) refl refl refl))
      (works [] [] refl wakes refl refl refl)

Reach-wakes_example :
    ((k : ℕ)
      → waiting 5 ≡ waiting k
      → total (runs cell) (finished ∷ []) + total (wakings cell) (finished ∷ []) ≡ 0
      → Has k (5 ∷ []))
    × (waiting 5 ≡ Guard.ready → total (runs cell) (finished ∷ []) ≡ 0)
Reach-wakes_example = Reach-wakes cell 1 (at 0 none (5 ∷ []) finished (waiting 5)) Reached-woken
