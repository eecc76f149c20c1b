-- ===== src/Concurrency/DeviceLocks/Invariant.antt =====
-- The invariant that ties the lock table, the entries' semaphores and the users together.
pub mod Users
pub mod Semaphores
pub mod References
pub mod Steps
