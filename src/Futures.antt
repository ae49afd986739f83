-- ===== src/Futures.antt =====
-- futures/src/lib.rs: `PanicFuture`, `Map` and `poll_inline`, over a future that is a parameter.
pub mod Laws
mod Tests
use kiruna.Base.{
  Option, none, some, Poll, ready, pending, Result, ok, err, Outcome, returns, panics, Fault,
}

pub record Map (F A B : Type 0) : Type 0 where
  pub future : F
  pub operation : Option (A → B)

-- `Map::new`
unfoldable pub new : {F A B : Type 0} → F → (A → B) → Map F A B
new future operation = record { future = future; operation = some operation }

module _ {C F A B : Type 0} (poll : C → F → Poll A × F) where
  -- `Map::poll`: the operation is taken out when the future is ready.
  unfoldable pub poll_map : C → Map F A B → Outcome (Poll B × Map F A B)
  poll_map cx m =
      let (result, future) = poll cx m.future in
      elim result [
        | pending ↦ returns (pending, record m { future = future })
        | ready o ↦ elim m.operation [
          | none ↦ panics Fault.unwrap_none
          | some f ↦ returns (ready (f o), record { future = future; operation = none })
        ]
      ]

module _ {C F A : Type 0} (poll : C → F → Poll A × F) where
  -- `poll_inline`, with the context of its own waker.
  unfoldable pub poll_inline : C → F → Option A
  poll_inline cx future = elim (poll cx future).0 [ ready r ↦ some r | pending ↦ none ]

module _ {C F O E : Type 0} (poll : C → F → Poll (Result O E) × F) where
  -- `PanicFuture::poll`
  unfoldable pub poll_panic : C → F → Outcome (Poll O × F)
  poll_panic cx f =
      let (result, f') = poll cx f in
      elim result [
        | pending ↦ returns (pending, f')
        | ready value ↦ elim value [
          | ok o ↦ returns (ready o, f')
          | err e ↦ panics Fault.explicit_panic
        ]
      ]

-- The future of the async fn `panic`, which awaits the future that it holds.
pub data PanicFn (F : Type 0) : Type 0 where
  awaits : F → PanicFn F
  finished : PanicFn F

-- What `panic` does with the result that it has awaited.
unfoldable pub resolved : {F O E : Type 0} → Poll (Result O E) → F → Outcome (Poll O × PanicFn F)
resolved pending f = returns (pending, awaits f)
resolved (ready (ok o)) f = returns (ready o, finished)
resolved (ready (err e)) f = panics Fault.explicit_panic

module _ {C F O E : Type 0} (poll : C → F → Poll (Result O E) × F) where
  -- A poll of `panic`
  unfoldable pub poll_panic_fn : C → PanicFn F → Outcome (Poll O × PanicFn F)
  unfolding resolved
  poll_panic_fn cx finished = panics Fault.polled_after_completion
  poll_panic_fn cx (awaits f) = resolved (poll cx f).0 (poll cx f).1
