-- ===== src/Sync.antt =====
-- src/sync.rs and src/sync: the single-threaded executor, and blocking on one future.
pub mod Executor
pub mod Block
