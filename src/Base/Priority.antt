-- ===== src/Base/Priority.antt =====
-- priority/src/lib.rs
pub data Priority : Type 0 where
  user_waiting testing : Priority
