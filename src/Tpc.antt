-- ===== src/Tpc.antt =====
-- tpc/src: the thread-per-core executor.
pub mod Set
pub mod Channel
pub mod Bin
pub mod Global
pub mod Platform
