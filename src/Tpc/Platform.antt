-- ===== src/Tpc/Platform.antt =====
-- tpc/src/platform: the semaphores, the count of the processors and the timer. What the systems answer
-- is an interface or an argument.
pub mod Cpus
mod Kernels
pub mod Macos
pub mod Sources
pub mod Timer
pub mod Windows
mod Tests
