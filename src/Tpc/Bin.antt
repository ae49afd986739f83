-- ===== src/Tpc/Bin.antt =====
-- tpc/src/bin.rs and the dispatch of tpc/src/lib.rs: the thread policy, the spawning methods, the
-- timer and the loop of a worker. A future is the number of its `OurFuture` in memory; its polling
-- is in the children `Waker` and `Lock`. A launched thread is its `thread_id`.
pub mod Workers
pub mod Turns
pub mod Waker
pub mod Lock
pub mod Spawning
pub mod Idle
pub mod Futures
mod Tests
use kiruna.Base.{
  ℕ, zero, suc, ◌+◌, ◌-◌, ◌/◌, min, u16, ltb, leb, if◌then◌else◌, List, [], ◌∷◌, ◌++◌, map,
  replicate, none, some, Result, ok, err, Outcome, returns, ◌>>=◌, Bool, true, false, length,
}
use kiruna.Base.Priority.{Priority, user_waiting, testing}
use kiruna.Tpc.Global.{
  ThreadCounts, of_u64, to_u64, GlobalState, read_thread_counts, update_thread_counts,
}
use kiruna.Tpc.Channel.Platform.{Semaphore, ArrayQueue}
use kiruna.Tpc.Channel.{Channel, new, send, recv_immediate, recv_all, got, waits}

pub data ThreadMessage (Job : Type 0) : Type 0 where
  simple : Job → ThreadMessage Job
  work : ℕ → ThreadMessage Job
  idle : ThreadMessage Job

abbrev pub user_waiting_min_threads : ℕ
user_waiting_min_threads = 1

-- The loop that launches threads: `thread_id = i + old_threads`.
pub launch : (old i : ℕ) → ℕ → List ℕ
launch old i zero = []
launch old i (suc n) = (i + old) ∷ launch old (suc i) n

-- `Bin::enforce_spare_thread_policy`: the state that it leaves, and the threads that it launches.
pub enforce_spare_thread_policy : ℕ → GlobalState → GlobalState × List ℕ
unfolding launch
enforce_spare_thread_policy coming_soon state =
    let proposed = u16 (min coming_soon state.physical_cpus) in
    let old = state.thread_counts in
    if leb proposed (of_u64 old).user_waiting then (state, []) else (
      record state { thread_counts = to_u64 (record { user_waiting = proposed }) },
      launch old 0 (proposed - (of_u64 old).user_waiting),
    )

-- What the closure of the shutdown does to the counts.
pub one_less : ThreadCounts → ThreadCounts
one_less counts =
    if ltb user_waiting_min_threads counts.user_waiting
    then record { user_waiting = counts.user_waiting - 1 }
    else counts

abbrev pub is_ok : {A E : Type 0} → Result A E → Bool
is_ok (ok a) = true
is_ok (err e) = false

-- The answer to `ThreadMessage::Idle`: whether the worker shuts down. `late` is
-- `last_useful.elapsed() > TARGET_IDLE_TIME`.
pub consider_shutdown : Bool → GlobalState → GlobalState × Bool
unfolding one_less
consider_shutdown false state = (state, false)
consider_shutdown true state =
    let (updated, state') = update_thread_counts one_less state in (state', is_ok updated)

-- One turn of the worker's loop, by what it comes to. Running a job or polling a future makes the
-- thread useful again.
pub data Turn (Job B : Type 0) : Type 0 where
  runs : Job → B → Turn Job B
  polls : ℕ → B → Turn Job B
  stays shuts_down : B → Turn Job B
  sleeps : Turn Job B

module _ (S : Semaphore) {Job : Type 0} (Q : ArrayQueue (ThreadMessage Job)) where
  pub record Bin : Type 0 where
    pub channel : Channel S Q
    pub state : GlobalState
    pub threads : List ℕ  -- every thread that was launched, latest first

  -- `Bin::user_waiting`, when it is first called; the counts belong to the process.
  unfoldable pub user_waiting_bin : GlobalState → Bin
  unfolding new
  user_waiting_bin state = record { channel = new S Q 1_000_000 2; state = state; threads = [] }

  -- Each spawning method sends to level 1; wakers send to level 0.
  unfoldable pub send_to : ℕ → ThreadMessage Job → Bin → Outcome Bin
  send_to level message b =
      send S Q b.channel message level >>= λ c. returns (record b { channel = c })

  unfoldable pub send_each : List (ThreadMessage Job) → Bin → Outcome Bin
  send_each [] b = returns b
  send_each (m ∷ ms) b = send_to 1 m b >>= send_each ms

  unfoldable pub enforce : ℕ → Bin → Bin
  unfolding enforce_spare_thread_policy
  enforce coming_soon b =
      let (state, launched) = enforce_spare_thread_policy coming_soon b.state in
      record b { state = state; threads = launched ++ b.threads }

  -- `Bin::spawn_mixed_simple`
  unfoldable pub spawn_mixed_simple : List Job → Bin → Outcome Bin
  unfolding enforce send_each
  spawn_mixed_simple jobs b = send_each (map simple jobs) (enforce (length jobs) b)

  -- `Bin::spawn_mixed`
  unfoldable pub spawn_mixed : List ℕ → Bin → Outcome Bin
  unfolding enforce send_each
  spawn_mixed futures b = send_each (map work futures) (enforce (length futures) b)

  -- `Bin::spawn_without_hint`
  unfoldable pub spawn_without_hint : ℕ → Bin → Outcome Bin
  unfolding send_to
  spawn_without_hint future b = send_to 1 (work future) b

  -- `Bin::spawn_simple_without_hint`
  unfoldable pub spawn_simple_without_hint : Job → Bin → Outcome Bin
  unfolding send_to
  spawn_simple_without_hint job b = send_to 1 (simple job) b

  -- The match of `Executor::spawn_mixed`, `Executor::spawn_mixed_simple` and `Executor::bin_for`; its
  -- last arm has no priority to match.
  unfoldable pub with_bin : Priority → (Bin → Outcome Bin) → Bin → Outcome Bin
  with_bin user_waiting f b = f b
  with_bin testing f b = f b

  -- `user_waiting_timer_callback`
  unfoldable pub user_waiting_timer_callback : Bin → Outcome Bin
  unfolding send_each
  user_waiting_timer_callback b =
      let counts = read_thread_counts b.state in
      let asked = send_each (replicate (counts.user_waiting / 2) idle) b in
      if ltb user_waiting_min_threads counts.user_waiting then asked else returns b

  -- What the worker does with a message.
  unfoldable pub obey : Bool → ThreadMessage Job → Bin → Turn Job Bin
  obey late (simple job) b = runs job b
  obey late (work future) b = polls future b
  obey late idle b =
      let (state, done) = consider_shutdown late b.state in
      if done then shuts_down (record b { state = state }) else stays (record b { state = state })

  -- One turn of the loop of `thread_user_waiting_entrypoint_fn`: `recv_immediate(0)`, and `recv_all`
  -- where that has nothing.
  unfoldable pub turn : Bool → Bin → Outcome (Turn Job Bin)
  unfolding obey
  turn late b = recv_immediate S Q b.channel 0 >>= λ (m, c). elim m [
    | some message ↦ returns (obey late message (record b { channel = c }))
    | none ↦ recv_all S Q c >>= elim [
      | waits ↦ returns sleeps
      | got message c' ↦ returns (obey late message (record b { channel = c' }))
    ]
  ]
