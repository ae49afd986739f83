-- ===== src/Sync/Block.antt =====
-- src/sync.rs and src/test.rs: the executors that block a thread on one future. The clock is an
-- argument: how often the test `elapsed() < timeout` passes, and what each wait comes to.
pub mod Agreement
mod Tests
use kiruna.Base.{
  ℕ, zero, suc, List, [], ◌∷◌, Option, none, some, Poll, ready, pending, Result, ok, err, Outcome,
  returns, panics, Fault,
}

pub data TimeoutError : Type 0 where
  timed_out : TimeoutError

-- After a pending poll of `sparse_await`: a wake arrives in time, the receive times out, or the
-- deadline has passed already.
pub data Wait : Type 0 where
  woken expires late : Wait

module _ {C F O : Type 0} (poll : C → F → Poll O × F) where
  -- `test_poll_pin`, with the context of the fake waker
  unfoldable pub test_poll_pin : C → F → Poll O × F
  test_poll_pin cx f = poll cx f

  -- `test_poll`, which owns the future and drops it.
  unfoldable pub test_poll : C → F → Poll O
  test_poll cx f = (poll cx f).0

  -- The loop of `block`
  unfoldable pub block : ℕ → C → F → Result O TimeoutError
  block zero cx f = err timed_out
  block (suc n) cx f =
      let (result, f') = poll cx f in
      let rest = block n cx f' in elim result [ ready output ↦ ok output | pending ↦ rest ]

  -- The loop of `test_await` and of `test_await_pin`
  unfoldable pub test_await : ℕ → C → F → Outcome O
  test_await zero cx f = panics Fault.explicit_panic
  test_await (suc n) cx f =
      let (result, f') = poll cx f in
      let rest = test_await n cx f' in
      elim result [ ready output ↦ returns output | pending ↦ rest ]

  -- The loop of `sparse_await`; `none` says that it still waits.
  unfoldable pub sparse_await : List Wait → C → F → Outcome (Option O)
  sparse_await [] cx f = elim (poll cx f).0 [
    | ready output ↦ returns (some output)
    | pending ↦ returns none
  ]
  sparse_await (w ∷ ws) cx f =
      let (result, f') = poll cx f in
      let rest = sparse_await ws cx f' in
      elim result [
        | ready output ↦ returns (some output)
        | pending ↦ elim w [
          | woken ↦ rest
          | expires ↦ panics Fault.unwrap_err
          | late ↦ panics Fault.explicit_panic
        ]
      ]
