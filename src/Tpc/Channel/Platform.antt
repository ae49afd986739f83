-- ===== src/Tpc/Channel/Platform.antt =====
-- What the channel takes from elsewhere: the counting semaphore of the operating system, behind
-- tpc/src/platform/*/semaphore.rs, and the bounded queue of the crate crossbeam_queue.
use kiruna.Base.{ℕ, ◌+◌, ◌≤◌, List, [], ◌∷◌, ◌++◌, Option, none, some, length, ◌≡◌}

-- `decrement` is `decrement_immediate`: `none` stands for `Err(())`. A `wait_forever` is a
-- `decrement` that is put off until it succeeds.
pub record Semaphore : Type 1 where
  pub State : Type 0
  pub count : State → ℕ
  pub new : State
  pub signal : State → State
  pub decrement : State → Option State
  pub count-new : count new ≡ 0
  pub count-signal : (s : State) → count (signal s) ≡ count s + 1
  pub decrement-some : (s t : State) → decrement s ≡ some t → count s ≡ count t + 1
  pub decrement-none : (s : State) → decrement s ≡ none → count s ≡ 0

-- `push` gives `none` where the queue is full.
pub record ArrayQueue (E : Type 0) : Type 1 where
  pub State : Type 0
  pub new : ℕ → State
  pub push : State → E → Option State
  pub pop : State → Option (E × State)
  pub capacity : State → ℕ
  pub contents : State → List E
  pub new_lem : (n : ℕ) → (contents (new n) ≡ []) × (capacity (new n) ≡ n)
  pub push-some :
      (q q' : State) (e : E)
      → push q e ≡ some q'
      → (contents q' ≡ contents q ++ (e ∷ [])) × (capacity q' ≡ capacity q)
  pub push-none : (q : State) (e : E) → push q e ≡ none → capacity q ≤ length (contents q)
  pub pop-some :
      (q q' : State) (e : E)
      → pop q ≡ some (e, q')
      → (contents q ≡ e ∷ contents q') × (capacity q' ≡ capacity q)
  pub pop-none : (q : State) → pop q ≡ none → contents q ≡ []
