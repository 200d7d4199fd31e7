-- ===== src/Memory.antt =====
-- The memory limiter: executor/src/rt/memlimiter.rs.
pub mod Limiter
pub mod Accounting
pub mod Threads
pub mod Interleavings
pub mod Growth
pub mod Progress
mod Tests
