-- ===== src/Tpc/Bin/Futures/Tests.antt =====
-- Runs of the futures of tpc/src/bin.rs.
use kiruna.Base.{
  ℕ, zero, suc, ◌-◌, [], ◌∷◌, true, false, ready, pending, Outcome, returns, panics, Fault, ◌≡◌,
  refl, arith,
}
use kiruna.Base.Priority.{testing}
use kiruna.Tpc.Global.{GlobalState}
use kiruna.Tpc.Channel.Instance.{counter, list_queue}
use kiruna.Tpc.Channel.Platform.{ArrayQueue}
use kiruna.Tpc.Bin.{ThreadMessage, Bin, user_waiting_bin, with_bin, spawn_mixed, turn, sleeps}
use kiruna.Tpc.Bin.Futures.{Polled, Machine, poll_ours, rounds}
use kiruna.Tpc.Bin.Futures.Spawned.{machine, spawn_mixed-finishes, spawn_mixed-repolls}

abbrev queue : ArrayQueue (ThreadMessage ℕ)
queue = list_queue

abbrev three_running : GlobalState
three_running = record { physical_cpus = 4; thread_counts = 3 }

-- A future that yields so often before it is ready.
abbrev yields : ℕ → Outcome (Polled ℕ)
yields zero = returns (record { answer = ready tt; future = 0; wakes = 0 })
yields (suc n) = returns (record { answer = pending; future = n; wakes = 1 })

-- A future that wakes itself when it is ready, and panics when it is polled behind its end.
abbrev eager : ℕ → Outcome (Polled ℕ)
eager zero = panics Fault.explicit_panic
eager (suc n) = returns (record { answer = ready tt; future = n; wakes = 1 })

-- A future that is locked wakes its waker, and keeps its state.
poll_ours_locked :
    poll_ours yields (record { underlying = 2; locked = true })
    ≡ returns
        (record { answer = pending; future = record { underlying = 2; locked = true }; wakes = 1 })
unfolding poll_ours
poll_ours_locked = refl

-- Future 5 yields twice, and future 6 once.
abbrev twice_and_once : ℕ → ℕ
twice_and_once i = 7 - i

spawn_mixed-finishes_example :
    (b : Bin counter queue) × (with_bin counter queue testing
        (spawn_mixed counter queue (5 ∷ 6 ∷ []))
        (user_waiting_bin counter queue three_running)
      ≡ returns b)
    × ((w : Machine counter queue yields) × (rounds counter queue yields 5
            (machine counter queue yields b twice_and_once)
          ≡ returns (5 ∷ 5 ∷ 5 ∷ 6 ∷ 6 ∷ [], w))
        × (turn counter queue false w.bin ≡ returns sleeps))
spawn_mixed-finishes_example =
    spawn_mixed-finishes counter queue yields testing three_running twice_and_once twice_and_once
      (5 ∷ 6 ∷ []) (omega arith) (omega arith)
      ((1, refl, (0, refl, (0, refl))), ((0, refl, (0, refl)), tt))

spawn_mixed-repolls_example :
    (b : Bin counter queue) × (with_bin counter queue testing
        (spawn_mixed counter queue (5 ∷ 6 ∷ []))
        (user_waiting_bin counter queue three_running)
      ≡ returns b)
    × (rounds counter queue eager 2 (machine counter queue eager b (λ i. 1))
        ≡ panics Fault.explicit_panic)
spawn_mixed-repolls_example =
    spawn_mixed-repolls counter queue eager testing three_running (λ i. 1) 5 (6 ∷ []) 0 0 0
      Fault.explicit_panic (omega arith) (omega arith) refl refl
