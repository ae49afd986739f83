-- ===== src/Sync/Block/Agreement.antt =====
-- The blocking executors of src/sync.rs and src/test.rs give the same output.
use kiruna.Base.{
  ℕ, zero, suc, List, [], ◌∷◌, Option, none, some, Poll, ready, pending, ok, err, Outcome, returns,
  panics, Fault, ◌≡◌, refl,
}
use kiruna.Sync.Block.{
  timed_out, Wait, woken, expires, late, block, test_await, sparse_await, test_poll, test_poll_pin,
}

module _ {C F O : Type 0} (poll : C → F → Poll O × F) where
  abbrev arrived : Poll O × F → (F → Option O) → Option O
  arrived (ready output, f) rest = some output
  arrived (pending, f) rest = rest f

  -- The output of the first of so many polls that is ready.
  unfoldable pub arrives : ℕ → C → F → Option O
  arrives zero cx f = none
  arrives (suc n) cx f = arrived (poll cx f) (arrives n cx)

-- How often `sparse_await` may poll, and what comes after that.
abbrev pub polls : List Wait → ℕ
polls [] = 1
polls (woken ∷ ws) = suc (polls ws)
polls (expires ∷ ws) = 1
polls (late ∷ ws) = 1

abbrev pub gives_up : {O : Type 0} → List Wait → Outcome (Option O)
gives_up [] = returns none
gives_up (woken ∷ ws) = gives_up ws
gives_up (expires ∷ ws) = panics Fault.unwrap_err
gives_up (late ∷ ws) = panics Fault.explicit_panic

-- The output, or what happens where there is none.
abbrev pub or_else : {O R : Type 0} → (O → R) → R → Option O → R
or_else f r (some output) = f output
or_else f r none = r

module _ {C F O : Type 0} (poll : C → F → Poll O × F) where
  block-arrives :
      (n : ℕ) (cx : C) (f : F)
      → block poll n cx f ≡ or_else ok (err timed_out) (arrives poll n cx f)
  unfolding block arrives
  block-arrives zero cx f = refl
  block-arrives (suc n) cx f = go (block-arrives n cx) (poll cx f)
    where
      go :
          ((g : F) → block poll n cx g ≡ or_else ok (err timed_out) (arrives poll n cx g))
          → (r : Poll O × F)
          → elim r.0 [ ready output ↦ ok output | pending ↦ block poll n cx r.1 ]
            ≡ or_else ok (err timed_out) (arrived poll r (arrives poll n cx))
      go ih (ready o, g) = refl
      go ih (pending, g) = ih g

  test_await-arrives :
      (n : ℕ) (cx : C) (f : F)
      → test_await poll n cx f ≡ or_else returns (panics Fault.explicit_panic) (arrives poll n cx f)
  unfolding test_await arrives
  test_await-arrives zero cx f = refl
  test_await-arrives (suc n) cx f = go (test_await-arrives n cx) (poll cx f)
    where
      go :
          ((g : F)
            → test_await poll n cx g
              ≡ or_else returns (panics Fault.explicit_panic) (arrives poll n cx g))
          → (r : Poll O × F)
          → elim r.0 [ ready output ↦ returns output | pending ↦ test_await poll n cx r.1 ]
            ≡ or_else returns (panics Fault.explicit_panic) (arrived poll r (arrives poll n cx))
      go ih (ready o, g) = refl
      go ih (pending, g) = ih g

  -- What `sparse_await` shall come to, by the polls alone.
  abbrev sparsely : List Wait → C → F → Outcome (Option O)
  sparsely ws cx f =
      or_else (λ output. returns (some output)) (gives_up ws) (arrives poll (polls ws) cx f)

  -- The last poll.
  stops :
      (rest : Outcome (Option O)) (r : Poll O × F)
      → elim r.0 [ ready output ↦ returns (some output) | pending ↦ rest ]
        ≡ or_else (λ output. returns (some output)) rest (arrived poll r (λ g. none))
  stops rest (ready o, g) = refl
  stops rest (pending, g) = refl

  sparse_await-arrives :
      (ws : List Wait) (cx : C) (f : F) → sparse_await poll ws cx f ≡ sparsely ws cx f
  unfolding sparse_await arrives
  sparse_await-arrives [] cx f = stops (returns none) (poll cx f)
  sparse_await-arrives (expires ∷ ws) cx f = stops (panics Fault.unwrap_err) (poll cx f)
  sparse_await-arrives (late ∷ ws) cx f = stops (panics Fault.explicit_panic) (poll cx f)
  sparse_await-arrives (woken ∷ ws) cx f = go (sparse_await-arrives ws cx) (poll cx f)
    where
      go :
          ((g : F) → sparse_await poll ws cx g ≡ sparsely ws cx g)
          → (r : Poll O × F)
          → elim r.0 [
            | ready output ↦ returns (some output)
            | pending ↦ sparse_await poll ws cx r.1
          ]
            ≡ or_else
                (λ output. returns (some output))
                (gives_up ws)
                (arrived poll r (arrives poll (polls ws) cx))
      go ih (ready o, g) = refl
      go ih (pending, g) = ih g

  -- Each of the three executors returns the output of the first poll that is ready, if its time allows
  -- for that poll. Otherwise `block` answers `TimedOut` and `test_await` panics, after `n` polls.
  -- `sparse_await` polls once, and once more for each wake up to the first wait that is none: it then
  -- panics in `recv_timeout(..).unwrap()` if that wait expires, panics by itself if the deadline has
  -- passed already, and still waits where its waits have no end yet.
  pub executors-arrive :
      (n : ℕ) (ws : List Wait) (cx : C) (f : F)
      → (block poll n cx f ≡ or_else ok (err timed_out) (arrives poll n cx f))
        × (test_await poll n cx f
            ≡ or_else returns (panics Fault.explicit_panic) (arrives poll n cx f))
        × (sparse_await poll ws cx f
            ≡ or_else
                (λ output. returns (some output))
                (gives_up ws)
                (arrives poll (polls ws) cx f))
  executors-arrive n ws cx f =
      (block-arrives n cx f, test_await-arrives n cx f, sparse_await-arrives ws cx f)

  -- Where a single poll is ready, `test_poll` gives what `test_await` does with time for a poll;
  -- where it is pending, `test_await` goes on from the future that `test_poll_pin` leaves.
  pub test_poll-test_await :
      (n : ℕ) (cx : C) (f : F)
      → ((o : O) → test_poll poll cx f ≡ ready o → test_await poll (suc n) cx f ≡ returns o)
        × (test_poll poll cx f ≡ pending
            → test_await poll (suc n) cx f ≡ test_await poll n cx (test_poll_pin poll cx f).1)
  unfolding test_poll test_poll_pin test_await
  test_poll-test_await n cx f = (λ o e. rw (test_await, e) refl, λ e. rw (test_await, e) refl)
