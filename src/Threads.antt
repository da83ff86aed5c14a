-- ===== src/Threads.antt =====
-- The programs of threadlab.
pub mod Primes
pub mod Htable
pub mod Load
pub mod Harness
pub mod Rwlock
pub mod Priority
mod Tests
mod LockTests
