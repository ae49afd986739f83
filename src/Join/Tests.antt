-- ===== src/Join/Tests.antt =====
-- Runs of the joins over futures that count down.
use kiruna.Base.{
  ℕ, zero, suc, List, [], ◌∷◌, Poll, ready, pending, Result, ok, err, returns, some, ◌≡◌, refl,
  drive,
}
use kiruna.Join.{new, poll}
use kiruna.Join.Slot.{poll_slot}
use kiruna.Join.Laws.{gives, pair, drive-join2}
use kiruna.Join.TryJoin
use kiruna.Join.TryJoin.{of_b}
use kiruna.Join.TryJoin.Laws.{ends, first_error, drive-try_join2}

-- A future that is ready after so many polls, with its argument as the output.
abbrev countdown : ℕ → ℕ × ℕ → Poll ℕ × (ℕ × ℕ)
countdown cx (zero, out) = (ready out, (zero, out))
countdown cx (suc n, out) = (pending, (n, out))

abbrev contexts : List ℕ
contexts = 0 ∷ 0 ∷ 0 ∷ 0 ∷ []

join2_run : drive (poll countdown countdown) contexts (new (1, 5) (3, 6)) ≡ returns (some (5, 6))
unfolding drive poll poll_slot new
join2_run = refl

drive-join2_example :
    drive (poll countdown countdown) contexts (new (1, 5) (3, 6))
    ≡ returns (pair (gives countdown contexts (1, 5)) (gives countdown contexts (3, 6)))
drive-join2_example = drive-join2 countdown countdown contexts (1, 5) (3, 6)

-- One that fails after so many polls.
abbrev failing : ℕ → ℕ × ℕ → Poll (Result ℕ ℕ) × (ℕ × ℕ)
failing cx (zero, out) = (ready (err out), (zero, out))
failing cx (suc n, out) = (pending, (n, out))

abbrev working : ℕ → ℕ × ℕ → Poll (Result ℕ ℕ) × (ℕ × ℕ)
working cx (zero, out) = (ready (ok out), (zero, out))
working cx (suc n, out) = (pending, (n, out))

-- `b` fails long before `a` ends.
drive-try_join2_example :
    drive (TryJoin.poll working failing) contexts (TryJoin.new (9, 5) (1, 6))
    ≡ returns (first_error (ends working contexts (9, 5)) (ends failing contexts (1, 6)))
drive-try_join2_example = drive-try_join2 working failing contexts (9, 5) (1, 6)

try_join2_run :
    drive (TryJoin.poll working failing) contexts (TryJoin.new (9, 5) (1, 6))
    ≡ returns (some (err (of_b 6)))
unfolding ends
try_join2_run = drive-try_join2_example
