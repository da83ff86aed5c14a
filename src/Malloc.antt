-- ===== src/Malloc.antt =====
-- malloclab: the simulated memory, the naive allocator and the trace driver.
pub mod Machine
pub mod Memlib
pub mod Naive
pub mod Driver
pub mod Trace
pub mod Speed
pub mod Fcyc
pub mod Clock
pub mod Score
pub mod Options
pub mod Mdriver
pub mod Ftimer
mod Tests
mod DriverTests
mod TraceTests
