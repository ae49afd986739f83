-- ===== src/Tpc/Set.antt =====
-- tpc/src/set.rs and tpc/src/set/vec.rs.
pub mod Vec
pub mod Guard
pub mod Pool
