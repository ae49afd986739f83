-- ===== src/Stream.antt =====
-- stream/src: reading and writing whole streams.
pub mod Macos
pub mod Overlapped
pub mod Read
pub mod Threadpool
pub mod Write
mod Tests
