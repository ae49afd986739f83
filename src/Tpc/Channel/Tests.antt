-- ===== src/Tpc/Channel/Tests.antt =====
-- Runs of the channel of tpc/src/channel.rs.
use kiruna.Base.{
  ℕ, List, [], ◌∷◌, ◌++◌, none, some, returns, Fault, replicate, get_elem?, length, ◌≡◌, ◌≢◌, ◌⊎◌,
  arith, refl,
}
use kiruna.Tpc.Channel.Platform.{ArrayQueue}
use kiruna.Tpc.Channel.Instance.{counter, list_queue}
use kiruna.Tpc.Channel.{
  SharedOne, Channel, new, send, send_one, recv_all, recv_nonblock, pop_one, got, waits,
}
use kiruna.Tpc.Channel.Levels.{view, take_first, Holds}
use kiruna.Tpc.Channel.Immediate.{Immediate, methods_refine}
use kiruna.Tpc.Channel.Threads.{
  Pc, outside, pushed, announced, scanning, panicked, push, signal_local, signal_global, wait,
  scan_miss, scan_hit, popping, pop, System, moves, Reach, start, later,
}
use kiruna.Tpc.Channel.Threads.Safety.{Reach-alive}
use kiruna.Tpc.Channel.Threads.Order.{on, all_pushed, all_popped, Reach-Ordered}
use kiruna.Tpc.Channel.Threads.Methods.{Run}
use kiruna.Tpc.Channel.Threads.Progress.{Reach-serves}

abbrev numbers : ArrayQueue ℕ
numbers = list_queue

abbrev Chan : Type 0
Chan = Channel counter numbers

abbrev Level : Type 0
Level = SharedOne counter numbers

abbrev level_of : List ℕ → Level
level_of xs = record { queue = record { room = 3; items = xs }; local_semaphore = length xs }

-- Two levels: level 0 is empty, level 1 holds 7 and 8.
abbrev two_waiting : Chan
two_waiting = record { shared = level_of [] ∷ level_of (7 ∷ 8 ∷ []) ∷ []; global_semaphore = 2 }

two_waiting-Holds : Holds counter numbers two_waiting
two_waiting-Holds = record { settled = (refl, (refl, tt)); counted = refl }

recv_all_run :
    recv_all counter numbers two_waiting
    ≡ returns
        (got 7 (record { shared = level_of [] ∷ level_of (8 ∷ []) ∷ []; global_semaphore = 1 }))
unfolding recv_all recv_nonblock pop_one
recv_all_run = refl

send_run :
    send counter numbers (new counter numbers 3 2) 5 1
    ≡ returns (record { shared = level_of [] ∷ level_of (5 ∷ []) ∷ []; global_semaphore = 1 })
unfolding send send_one new
send_run = refl

methods_refine_example :
    ((c' : Chan) × (send counter numbers two_waiting 9 0 ≡ returns c')
      × (view counter numbers c' ≡ (9 ∷ []) ∷ (7 ∷ 8 ∷ []) ∷ [])
      × Holds counter numbers c')
    × Immediate counter numbers two_waiting 0 (level_of [])
    × (((take_first (view counter numbers two_waiting) ≡ none)
          × (recv_all counter numbers two_waiting ≡ returns waits))
        ⊎ ((e : ℕ) × (c' : Chan) × (recv_all counter numbers two_waiting ≡ returns (got e c'))
            × (take_first (view counter numbers two_waiting) ≡ some (e, view counter numbers c'))
            × Holds counter numbers c'))
methods_refine_example =
    methods_refine counter numbers two_waiting 9 0 (level_of []) refl (omega arith)
      two_waiting-Holds

-- Two threads: one sends 7 at level 1, the other receives it by `recv_all`.
abbrev Sys : Type 0
Sys = System counter numbers

abbrev state : ℕ → List ℕ → ℕ → List Pc → Sys
state local items global threads = record {
  chan = record {
    shared =
        level_of []
        ∷ record { queue = record { room = 3; items = items }; local_semaphore = local }
        ∷ [];
    global_semaphore = global;
  };
  threads = threads;
}

abbrev Reached : Sys → Type 0
Reached = Reach counter numbers 0 3 2 (replicate 2 outside)

Reached-start : Reached (state 0 [] 0 (outside ∷ outside ∷ []))
unfolding new
Reached-start = start

Reached-pushed : Reached (state 0 (7 ∷ []) 0 (pushed 1 ∷ outside ∷ []))
Reached-pushed = later Reached-start (
    moves [] (outside ∷ []) refl
      (push 1 7 (level_of []) (record { room = 3; items = 7 ∷ [] }) refl refl) refl refl)

Reached-announced : Reached (state 1 (7 ∷ []) 0 (announced ∷ outside ∷ []))
Reached-announced = later Reached-pushed (
    moves [] (outside ∷ []) refl
      (signal_local (record { queue = record { room = 3; items = 7 ∷ [] }; local_semaphore = 0 })
        refl)
      refl refl)

Reached-sent : Reached (state 1 (7 ∷ []) 1 (outside ∷ outside ∷ []))
Reached-sent = later Reached-announced (moves [] (outside ∷ []) refl signal_global refl refl)

Reached-waited : Reached (state 1 (7 ∷ []) 0 (outside ∷ scanning 0 ∷ []))
Reached-waited = later Reached-sent (moves (outside ∷ []) [] refl (wait 0 refl) refl refl)

Reached-scanning : Reached (state 1 (7 ∷ []) 0 (outside ∷ scanning 1 ∷ []))
Reached-scanning =
    later Reached-waited
      (moves (outside ∷ []) [] refl (scan_miss (level_of []) refl refl) refl refl)

Reach-alive_example :
    (scanning 1 ≢ panicked Fault.no_element) × (scanning 1 ≢ panicked Fault.unwrap_none)
Reach-alive_example =
    Reach-alive counter numbers 3 2 2 (state 1 (7 ∷ []) 0 (outside ∷ scanning 1 ∷ []))
      (outside ∷ []) [] (scanning 1) Reached-scanning refl

-- The receiver comes to the message.
Reached-popping : Reached (state 0 (7 ∷ []) 0 (outside ∷ popping 1 ∷ []))
Reached-popping = later Reached-scanning (
    moves (outside ∷ []) [] refl
      (scan_hit (record { queue = record { room = 3; items = 7 ∷ [] }; local_semaphore = 1 }) 0 refl
        refl)
      refl refl)

Reached-popped : Reached (state 0 [] 0 (outside ∷ outside ∷ []))
Reached-popped = later Reached-popping (
    moves (outside ∷ []) [] refl
      (pop (record { queue = record { room = 3; items = 7 ∷ [] }; local_semaphore = 0 }) 7
        (record { room = 3; items = [] }) refl refl)
      refl refl)

Reach-Ordered_example :
    on 1 (all_pushed counter numbers Reached-popped)
    ≡ on 1 (all_popped counter numbers Reached-popped) ++ []
Reach-Ordered_example = Reach-Ordered counter numbers Reached-popped 1 (level_of []) refl

abbrev served : Sys
served = state 1 (7 ∷ []) 1 (outside ∷ outside ∷ [])

Reach-serves_example :
    ((counter.decrement served.chan.global_semaphore ≡ none)
      × ((l : ℕ) (x : Level)
          → get_elem? served.chan.shared l ≡ some x
          → on l (all_pushed counter numbers Reached-sent)
            ≡ on l (all_popped counter numbers Reached-sent)))
    ⊎ ((level : ℕ) × (e : ℕ) × (c' : Chan) × Run counter numbers 0 served.chan outside c' outside []
          ((level, e) ∷ [])
        × (take_first (view counter numbers served.chan) ≡ some (e, view counter numbers c')))
Reach-serves_example = Reach-serves counter numbers 3 2 2 served Reached-sent refl
