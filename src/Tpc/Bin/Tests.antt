-- ===== src/Tpc/Bin/Tests.antt =====
-- Runs of the thread policy, the workers and the wakers of tpc/src/bin.rs.
use kiruna.Base.{
  ℕ, ◌+◌, ◌≤◌, ◌-◌, ◌/◌, replicate, min, List, [], ◌∷◌, ◌++◌, map, length, Bool, true, false, total,
  returns, ◌≡◌, ◌↔◌, refl, arith,
}
use kiruna.Base.Priority.{user_waiting, testing}
use kiruna.Tpc.Global.{GlobalState, of_u64, to_u64, new, read_thread_counts, update_thread_counts}
use kiruna.Tpc.Channel.Instance.{counter, list_queue}
use kiruna.Tpc.Channel.Platform.{ArrayQueue}
use kiruna.Tpc.Channel.Levels.{view}
use kiruna.Tpc.Bin.{
  ThreadMessage, Bin, simple, work, idle, turn, sleeps, enforce_spare_thread_policy, launch,
  one_less, consider_shutdown, user_waiting_bin, user_waiting_timer_callback, with_bin, spawn_mixed,
  spawn_mixed_simple,
}
use kiruna.Tpc.Bin.Spawning.{spawn_mixed-turns}
use kiruna.Tpc.Bin.Spawning.Drain.{turns}
use kiruna.Tpc.Bin.Idle.{late_turns, user_waiting_timer_callback-halves}
use kiruna.Tpc.Bin.Workers.{Pool, expect, idle_worker, expects, idles, start, Reach-workers}
use kiruna.Tpc.Bin.Lock
use kiruna.Tpc.Bin.Waker.{
  Handle, spawns, takes, wakes_by_ref, wake_by_ref, raw_waker, spawned, Reach-strong,
}
use kiruna.Tpc.Bin.Lock.{
  away, holding, polling, System, take, acquire, moves, bit, polls, holds, Reach-excludes,
}

abbrev three_running : GlobalState
three_running = record { physical_cpus = 4; thread_counts = 3 }

enforce_run :
    enforce_spare_thread_policy 9 three_running
    ≡ (record three_running { thread_counts = 4 }, 3 ∷ [])
unfolding enforce_spare_thread_policy launch of_u64 to_u64
enforce_run = refl

consider_shutdown_run :
    consider_shutdown true three_running ≡ (record three_running { thread_counts = 2 }, true)
unfolding consider_shutdown update_thread_counts one_less of_u64 to_u64
consider_shutdown_run = refl

-- Four processors: eight tasks are announced, and one worker shuts down.
abbrev busy : Pool
busy = idle_worker true (expect 8 (record { state = new 4; live = 0 }))

Reach-workers_example :
    (busy.state.thread_counts ≡ busy.live)
    × (busy.live ≤ 4)
    × ((coming_soon : ℕ) → min coming_soon 4 ≤ (expect coming_soon busy).live)
    × ((late : Bool) → 1 ≤ busy.live → 1 ≤ (idle_worker late busy).live)
unfolding enforce_spare_thread_policy launch of_u64 to_u64 new
Reach-workers_example =
    Reach-workers 4 busy (omega arith) (idles true (omega arith) (expects 8 start))

abbrev queue : ArrayQueue (ThreadMessage ℕ)
queue = list_queue

-- Two futures and then three jobs.
abbrev futures : List ℕ
futures = 4 ∷ 5 ∷ []

abbrev jobs : List ℕ
jobs = 7 ∷ 8 ∷ 9 ∷ []

spawn_mixed-turns_example :
    (b1 b2 b3 : Bin counter queue) × (with_bin counter queue user_waiting
        (spawn_mixed counter queue futures)
        (user_waiting_bin counter queue three_running)
      ≡ returns b1)
    × (with_bin counter queue testing (spawn_mixed_simple counter queue jobs) b1 ≡ returns b2)
    × (view counter queue b2.channel ≡ [] ∷ (map work futures ++ map simple jobs) ∷ [])
    × (turns counter queue (length (map work futures ++ map simple jobs)) b2
        ≡ returns (map work futures ++ map simple jobs, b3))
    × (turn counter queue false b3 ≡ returns sleeps)
spawn_mixed-turns_example =
    spawn_mixed-turns counter queue user_waiting testing three_running futures jobs (omega arith)

-- Seven workers, of which the timer lets three go.
abbrev seven_running : GlobalState
seven_running = record { physical_cpus = 8; thread_counts = 7 }

user_waiting_timer_callback-halves_example :
    (b b' : Bin counter queue) × (user_waiting_timer_callback counter queue
        (user_waiting_bin counter queue seven_running)
      ≡ returns b)
    × (view counter queue b.channel ≡ [] ∷ replicate (7 / 2) idle ∷ [])
    × (late_turns counter queue (7 / 2) b ≡ returns (7 / 2, b'))
    × ((read_thread_counts b'.state).user_waiting ≡ 7 - 7 / 2)
    × (1 ≤ 7 - 7 / 2)
    × (turn counter queue true b' ≡ returns sleeps)
unfolding to_u64
user_waiting_timer_callback-halves_example =
    user_waiting_timer_callback-halves counter queue seven_running 7 refl (omega arith)
      (omega arith)

-- A worker takes the message of a new future, which wakes itself through the waker.
abbrev self_woken : Handle
self_woken = wake_by_ref (raw_waker spawned)

Reach-strong_example :
    (self_woken.strong ≡ self_woken.wakers + self_woken.messages)
    × ((self_woken.strong ≡ 0) ↔ ((self_woken.wakers ≡ 0) × (self_woken.messages ≡ 0)))
unfolding spawned raw_waker
Reach-strong_example =
    Reach-strong self_woken (wakes_by_ref (omega arith) (takes (omega arith) spawns))

-- Two workers: the first polls the future.
abbrev polled : System
polled = record {
  shared = record { locked = true; queued = 0; signalled = false };
  workers = polling ∷ away ∷ [];
}

abbrev held : System
held = record {
  shared = record { locked = false; queued = 0; signalled = true };
  workers = holding ∷ away ∷ [];
}

Reach-excludes_example :
    (total polls polled.workers ≡ bit polled.shared.locked)
    × (bit polled.shared.signalled ≤ polled.shared.queued + total holds polled.workers)
Reach-excludes_example = Reach-excludes 2 polled (
    Lock.later {s = held}
      (Lock.later Lock.start (moves [] (away ∷ []) refl (take (omega arith)) refl refl))
      (moves [] (away ∷ []) refl (acquire refl) refl refl))
