-- ===== src/Lib.antt =====
-- Kiruna: futures, executors and asynchronous input and output, in a Rust workspace.
--
-- The parts and the files that model them (paths from the repository's root):
--   Base            the shared helpers: machine words, Boolean tests, lists over machine numbers,
--                   `Poll`, `Result`, panics as values, the caller that polls a future until it is
--                   ready, the cell of the crate atomic_waker as an interface, and `Priority` of
--                   priority/src/lib.rs.
--   Join            join/src/lib.rs: `Join2`, `TryJoin2` and `Error2::merge`.
--   Futures         futures/src/lib.rs: `Map`, `PanicFuture` and `poll_inline`.
--   Sync.Executor   src/sync/executor.rs and src/sync/task.rs: the single-threaded executor.
--   Sync.Block      src/sync.rs and src/test.rs: the executors that block on one future.
--   Tpc.Global      tpc/src/global.rs: the thread counts and their word.
--   Tpc.Channel     tpc/src/channel.rs: the channel with levels, each method alone and, below
--                   `Threads`, under any interleaving of threads, whose steps are those of the
--                   methods (`Methods`, `Scan`).
--   Tpc.Bin         tpc/src/bin.rs and the dispatch of tpc/src/lib.rs: the thread policy, the
--                   spawning methods, the timer and the worker's loop; `Lock` and `Waker` below it
--                   are `OurFuture` and `UserWaitingBinWaker`; `Futures` has the futures
--                   themselves, polled by a worker; `Spawning` and `Idle` lead
--                   from the spawning methods and the timer to the turns of the workers.
--   Tpc.Platform    tpc/src/platform: the semaphore and the number of processors of macOS (`Macos`),
--                   the semaphore (`Windows`), the processors (`Cpus`) and the timer (`Timer`) of
--                   Windows, and the timer of macOS (`Sources`).
--   Tpc.Set         tpc/src/set.rs (`Guard`) and tpc/src/set/vec.rs (`Vec`), and `set_sync` on the
--                   workers of `Tpc.Bin` (`Pool`).
--   BlockParty      block_party/src: the mailbox and its future (`Mailbox`), the pool and its worker
--                   (`Pool`), whose runs are in `Pool.Mails`, and with its senders as steps in
--                   `Pool.Wakeup`; `Front` goes from the poll of a future through the
--                   worker and back to the future.
--   Spawn           spawn/src: the threads that the pools start, on macOS (`Macos`) and on Windows
--                   (`Windows`).
--   Stream          stream/src: the overlapped operations of Windows, and the reads of a whole stream
--                   on Windows and macOS; `Macos` and `Write` have the writes of macOS and of
--                   Windows, and `Threadpool` is the thread that serves the completions of
--                   Windows.
--   Seek            seek/src: the files of macOS (`Dispatch`) with the callback of a read, the paths
--                   and files of Windows (`Files`), and the `Read` of lib.rs that wraps either
--                   (`Front`).
--
-- How they interact: the guards of `Tpc.Set` make jobs, which `Tpc.Bin` sends through `Tpc.Channel` to
-- its workers, whose number `Tpc.Global` keeps; a job that ends brings the counter of its set down and
-- wakes the guard. A future in the pool is woken by a message to level 0 of the channel. The other
-- crates are futures that any executor polls.
--
-- How the model is made: a function of the source is a function here, under its name, from the state
-- before to the state after; `Outcome` says that it may panic, and why. A future is any state with a
-- poll function, a parameter. Code that runs on several threads is, besides, a relation of steps, one
-- for each access to shared memory, and theorems about it hold for every order of the steps. Loads of
-- memory that other threads write are arguments of a function that runs alone. The system's
-- semaphore, the queue of crossbeam_queue, the cell of atomic_waker, `wait_any`, WinRT and the system calls
-- are parameters; the interfaces are records with their documented laws, and the test modules
-- instantiate them. Integers are natural numbers with the wrap of each cast written out.
--
-- Fuel: `Sync.Executor.drain` and `do_some` run on fuel, one unit for each message, and
-- `Sync.Executor.Finish` and `Sync.Executor.Some` bound what is enough for them;
-- `Tpc.Set.Vec.collect` runs on one unit for each job and one more, which `Tpc.Set.Vec.Plan`
-- shows to be enough; `Tpc.Platform.Cpus.scan` runs on one unit for each element of the buffer
-- and one more, which `Tpc.Platform.Cpus.Bounds` shows to be enough. `in_thread` and `turns` make
-- a bounded number of steps of a loop that has no end. Every other loop is a recursion on its
-- input.
--
-- Not modelled: the calls of the operating systems behind their interfaces, logging, formatting,
-- lifetimes and pinning, and memory orderings weaker than one global order of steps. What is left of
-- the code besides is re-exports, trait declarations, newtypes of buffers, tests and benchmarks,
-- which have no behaviour of their own.
pub mod Base
pub mod Join
pub mod Tpc
pub mod Sync
pub mod BlockParty
pub mod Stream
pub mod Futures
pub mod Seek
pub mod Spawn
