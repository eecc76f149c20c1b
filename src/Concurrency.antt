-- ===== src/Concurrency.antt =====
-- internal/concurrency: the execution guards.
pub mod Semaphore
pub mod DeviceLocks
pub mod Controller
pub mod Tests
