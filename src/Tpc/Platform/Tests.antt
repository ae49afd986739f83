-- ===== src/Tpc/Platform/Tests.antt =====
-- Runs of tpc/src/platform/windows.
use kiruna.Base.{
  ℕ, suc, ◌≤◌, ltb, if◌then◌else◌, true, List, [], none, ◌∷◌, length, total, Has, some, ◌↔◌, refl,
  ◌+◌, ◌*◌, ◌^◌, ◌/◌, returns, panics, Fault, ◌≡◌, arith,
}
use kiruna.Tpc.Platform.Cpus.{CpuSetInformation, threadpool_size}
use kiruna.Tpc.Platform.Cpus.Bounds.{size_of, cores, Distinct, threadpool_size-mean}
use kiruna.Tpc.Platform.Kernels.{plain, limited}
use kiruna.Tpc.Platform.Macos.{taken, new, signal, decrement_immediate}
use kiruna.Tpc.Platform.Sources
use kiruna.Tpc.Platform.Timer
use kiruna.Tpc.Platform.Windows

-- A semaphore of macOS has one permit after one signal.
permit : decrement_immediate plain (signal plain (new plain)) ≡ some 0
unfolding decrement_immediate taken signal new
permit = refl

no_permit : decrement_immediate plain (new plain) ≡ none
unfolding decrement_immediate taken new
no_permit = refl

-- The signal that a full semaphore of Windows is given panics.
full : Windows.signal limited (record { count = 2; limit = 2 }) ≡ panics Fault.unwrap_err
unfolding Windows.signal
full = refl

-- Half a second, with a leeway of a tenth.
half_second :
    Timer.new 500_000_000 100_000_000
    ≡ returns (record {
      due_time = record { low_date_time = 5_000_000; high_date_time = 0 };
      period = 500;
      window = 100;
    })
unfolding Timer.new Timer.split
half_second = refl

-- A timer of Windows with a longer interval than 2^32 milliseconds, and one of macOS that the global
-- queue refuses.
abbrev system : Timer.ThreadpoolTimers
system = record {
  Pointer = ℕ;
  size_of_environment = 72;
  priority_low = 2;
  create = λ e. some e.size;
}

too_long : Timer.open_timer system (2 ^ 32 * 1_000_000) 0 ≡ (
  Timer.created 72 (record { version = 3; callback_priority = 2; size = 72 }) ∷ [],
  panics Fault.unwrap_err,
)
unfolding Timer.open_timer Timer.create_timer Timer.set_timer Timer.new
too_long = refl

no_queue :
    Sources.new (record { Queue = ℕ; Time = ℕ; background = none; time = λ n. some n }) 5 1
    ≡ panics Fault.unwrap_none
unfolding Sources.new Sources.start
no_queue = refl

-- Two threads of the core 4, one of the core 6, and an element of another kind between them.
abbrev processors : List CpuSetInformation
processors =
    record { kind = 0; core_index = 4; size = 32 }
    ∷ record { kind = 0; core_index = 4; size = 32 }
    ∷ record { kind = 1; core_index = 0; size = 8 }
    ∷ record { kind = 0; core_index = 6; size = 32 }
    ∷ []

abbrev buffer : ℕ → CpuSetInformation
buffer offset =
    if ltb offset 64
    then record { kind = 0; core_index = 4; size = 32 }
    else if ltb offset 72
    then record { kind = 1; core_index = 0; size = 8 }
    else record { kind = 0; core_index = 6; size = 32 }

threadpool_size-mean_example :
    (u : List ℕ) × (size : ℕ) × (threadpool_size none
        (record { succeeded = true; returned_len = total size_of processors; element = buffer })
        (suc (length processors))
      ≡ returns (some size))
    × (size ≡ (length u + length (cores processors)) / 2)
    × Distinct u
    × ((k : ℕ) → Has k u ↔ Has k (cores processors))
    × (length u ≤ size)
    × (size ≤ length (cores processors))
threadpool_size-mean_example =
    threadpool_size-mean buffer processors
      (refl, omega arith, (refl, omega arith, (refl, omega arith, (refl, omega arith, tt))))
      (omega arith) (omega arith)
