-- ===== src/Sync/Block/Tests.antt =====
-- A run of the blocking executors of src/sync.rs and src/test.rs.
use kiruna.Base.{
  ℕ, zero, suc, Poll, ready, pending, [], ◌∷◌, some, ok, err, returns, panics, Fault, ◌≡◌,
}
use kiruna.Sync.Block.{timed_out, woken, expires, block, test_await, sparse_await}
use kiruna.Sync.Block.Agreement.{arrives, polls, gives_up, or_else, executors-arrive}

abbrev counting_down : ℕ → ℕ → Poll ℕ × ℕ
counting_down cx zero = (ready cx, 0)
counting_down cx (suc n) = (pending, n)

-- Two polls are not enough for it, three are.
executors-arrive_example :
    (block counting_down 3 7 2 ≡ or_else ok (err timed_out) (arrives counting_down 3 7 2))
    × (test_await counting_down 3 7 2
        ≡ or_else returns (panics Fault.explicit_panic) (arrives counting_down 3 7 2))
    × (sparse_await counting_down (woken ∷ expires ∷ []) 7 2
        ≡ or_else
            (λ output. returns (some output))
            (gives_up (woken ∷ expires ∷ []))
            (arrives counting_down (polls (woken ∷ expires ∷ [])) 7 2))
executors-arrive_example = executors-arrive counting_down 3 (woken ∷ expires ∷ []) 7 2
