-- ===== src/Stream/Threadpool/Tests.antt =====
-- Runs of stream/src/windows/threadpool.rs.
use kiruna.Base.{ℕ, ◌+◌, ◌≤◌, List, [], ◌∷◌, ◌++◌, length, none, some, total, ◌≡◌, ◌↔◌, refl, arith}
use kiruna.Stream.Threadpool.{
  channel_bound, semaphore_max, asleep, receiving, Threadpool, threadpool, enqueue, release, wait,
  work, elsewhere, sent, System, sends, releases, works, sending, Reach, start, later, in_thread,
}
use kiruna.Stream.Threadpool.Signals.{in_hand, Reach-runs}
use kiruna.Stream.Threadpool.Burst.{send_all, send_all-strands}

-- Two threads; the first adds task 7, the worker wakes for it while the second is between its calls.
abbrev waking : System ℕ
waking = record {
  pool = record { channel = 7 ∷ 8 ∷ []; semaphore = 0; worker = receiving; ran = []; lost = 0 };
  senders = elsewhere ∷ sent ∷ [];
  accepted = 7 ∷ 8 ∷ [];
}

abbrev queued : List ℕ → ℕ → Threadpool ℕ
queued tasks n = record { channel = tasks; semaphore = n; worker = asleep; ran = []; lost = 0 }

waking-Reach : Reach 2 waking
unfolding threadpool enqueue release wait work
waking-Reach =
    later
      {s = record {
        pool = queued (7 ∷ 8 ∷ []) 1;
        senders = elsewhere ∷ sent ∷ [];
        accepted = 7 ∷ 8 ∷ [];
      }}
      (later
        {s = record {
          pool = queued (7 ∷ []) 1;
          senders = elsewhere ∷ elsewhere ∷ [];
          accepted = 7 ∷ [];
        }}
        (later
          {s = record {
            pool = queued (7 ∷ []) 0;
            senders = sent ∷ elsewhere ∷ [];
            accepted = 7 ∷ [];
          }}
          (later start (sends [] (elsewhere ∷ []) 7 refl refl refl refl))
          (releases [] (elsewhere ∷ []) refl refl refl refl))
        (sends (elsewhere ∷ []) [] 8 refl refl refl refl))
      (works refl refl refl)

Reach-runs_example :
    (waking.accepted ≡ waking.pool.ran ++ waking.pool.channel)
    × (length waking.pool.channel ≤ channel_bound)
    × (waking.pool.semaphore ≤ semaphore_max)
    × ((work waking.pool ≡ none) ↔ ((waking.pool.worker ≡ asleep) × (waking.pool.semaphore ≡ 0)))
    × (length waking.pool.channel
        ≡ waking.pool.semaphore
          + in_hand waking.pool.worker
          + total sending waking.senders
          + waking.pool.lost)
Reach-runs_example = Reach-runs waking-Reach

send_all-strands_example :
    (p : Threadpool ℕ) × (send_all (4 ∷ 5 ∷ 6 ∷ 7 ∷ []) threadpool ≡ some p)
    × ((in_thread 4 p).ran ≡ 4 ∷ 5 ∷ [])
    × ((in_thread 4 p).channel ≡ 6 ∷ 7 ∷ [])
    × (work (in_thread 4 p) ≡ none)
send_all-strands_example = send_all-strands 4 5 6 (7 ∷ []) (omega arith)
