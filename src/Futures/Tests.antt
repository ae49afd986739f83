-- ===== src/Futures/Tests.antt =====
-- Runs of the combinators of futures/src/lib.rs.
use kiruna.Base.{ℕ, zero, suc, ◌+◌, [], ◌∷◌, Poll, ready, pending, returns, some, ◌≡◌, refl, drive}
use kiruna.Futures.{new, poll_map}

-- A countdown, which answers with the context of its last poll.
abbrev countdown : ℕ → ℕ → Poll ℕ × ℕ
countdown cx zero = (ready cx, 0)
countdown cx (suc n) = (pending, n)

map_run : drive (poll_map countdown) (5 ∷ 6 ∷ 7 ∷ []) (new 1 (λ n. n + 10)) ≡ returns (some 16)
unfolding drive poll_map new
map_run = refl
