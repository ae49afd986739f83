-- ===== src/Tpc/Set/Guard.antt =====
-- tpc/src/set.rs: the children, the guards and their polls. A poll reads `children_remaining`, which
-- other threads bring down meanwhile, so that the values it reads are arguments.
pub mod Life
pub mod Jobs
pub mod Wakeup
mod Tests
use kiruna.Base.{
  ℕ, zero, suc, ◌+◌, u32, ltb, leb, ◌==◌, if◌then◌else◌, List, [], ◌∷◌, length, Bool, true, false,
  Poll, ready, pending, Outcome, returns, panics, Fault,
}

pub record Child (F : Type 0) : Type 0 where
  pub inner : F
  pub done : Bool

-- What a poll or a job does to `SharedSet`: the counter that it leaves, and whether it wakes.
pub record Leaves : Type 0 where
  pub children_remaining : ℕ
  pub wakes : Bool

-- `fetch_sub(1)`, and the wake where that was the last.
unfoldable pub finish_one : ℕ → Leaves
finish_one remaining = record {
  children_remaining = u32 (remaining + 0xffffffff);
  wakes = remaining == 1;
}

module _ {F C : Type 0} (poll : C → F → Poll (Unit {0}) × F) where
  -- `Child::poll`: the counter goes down before the assertion; a pending child is `todo!()`.
  unfoldable pub child_poll : C → ℕ → Child F → Outcome (Leaves × Child F)
  unfolding finish_one
  child_poll cx remaining child =
      let (answer, inner) = poll cx child.inner in
      elim answer [
        | pending ↦ panics Fault.todo
        | ready _ ↦
            if child.done
            then panics Fault.assertion
            else returns (finish_one remaining, record { inner = inner; done = true })
      ]

-- The state of `InternalGuard`; the set that `spawned` shares is outside.
pub data State (V : Type 0) : Type 0 where
  not_spawned : V → State V
  spawned : State V
  done : State V
  invalid : State V

-- What a poll does, in order.
pub data Effect : Type 0 where
  enforces : (coming_soon : ℕ) → Effect
  registers : (waker : ℕ) → Effect
  spawns : (children : ℕ) → Effect

-- `poll_thunk`
unfoldable pub poll_thunk : ℕ → Poll (Unit {0})
poll_thunk zero = ready tt
poll_thunk (suc n) = pending

-- What the guard becomes by the last `poll_thunk` of its poll.
unfoldable pub settled : {V : Type 0} → Poll (Unit {0}) → Outcome (Poll (Unit {0})) × State V
settled (ready u) = (returns (ready u), done)
settled pending = (returns pending, spawned)

module _ {T : Type 0} where
  -- `InternalGuard::poll`: what it has done, what it answers unless it panics, and the state that it
  -- leaves, which is `Invalid` from the `std::mem::swap` on until another one is stored. `first` and
  -- `second` are what its loads read, and `room` is how many children the bin takes before its
  -- queue is full, when the next `spawn_without_hint` panics.
  unfoldable pub poll :
      (waker room first second : ℕ)
      → State (List T)
      → List Effect × (Outcome (Poll (Unit {0})) × State (List T))
  unfolding poll_thunk settled
  poll waker room first second (not_spawned tasks) =
      let n = length tasks in
      if ltb n 0x1_0000_0000
      then (if leb n room
          then (enforces n ∷ registers waker ∷ spawns n ∷ [], settled (poll_thunk first))
          else (enforces n ∷ registers waker ∷ spawns room ∷ [], (panics Fault.assertion, invalid)))
      else (enforces n ∷ registers waker ∷ [], (panics Fault.unwrap_err, invalid))
  poll waker room first second spawned = elim (poll_thunk first) [
    | ready u ↦ ([], (returns (ready u), done))
    | pending ↦ (registers waker ∷ [], settled (poll_thunk second))
  ]
  poll waker room first second done = ([], (panics Fault.already_done, invalid))
  poll waker room first second invalid = ([], (panics Fault.unreachable, invalid))

  -- `set_scoped`
  unfoldable pub set_scoped : List T → State (List T)
  set_scoped tasks = not_spawned tasks

  -- `InternalGuard::drop`
  unfoldable pub drop : State (List T) → Outcome (Unit {0})
  drop (not_spawned tasks) = returns tt
  drop done = returns tt
  drop spawned = panics Fault.active_tasks
  drop invalid = panics Fault.unreachable

pub record SimpleGuard : Type 0 where
  pub jobs : ℕ
  pub spawned : Bool

-- `set_simple_scoped`, and the counter that it starts with.
unfoldable pub set_simple_scoped : ℕ → SimpleGuard × ℕ
set_simple_scoped jobs = (record { jobs = jobs; spawned = false }, jobs)

-- `SimpleGuard::poll`: `remaining` is what its load reads.
unfoldable pub simple_poll :
    (waker remaining : ℕ) → SimpleGuard → List Effect × (Poll (Unit {0}) × SimpleGuard)
unfolding poll_thunk
simple_poll waker remaining g =
    let after = record g { spawned = true } in
    if g.spawned
    then (registers waker ∷ [], (poll_thunk remaining, after))
    else (enforces g.jobs ∷ spawns g.jobs ∷ registers waker ∷ [], (poll_thunk remaining, after))

-- `SimpleGuard::drop`
unfoldable pub simple_drop : ℕ → Outcome (Unit {0})
simple_drop remaining = if remaining == 0 then returns tt else panics Fault.active_tasks
