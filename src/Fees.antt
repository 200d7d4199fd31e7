-- ===== src/Fees.antt =====
-- Fees: executor/src/rt/fees.rs.
pub mod Buckets
pub mod Atomic
pub mod Consume
pub mod Message
pub mod Deductions
pub mod MessageFee
mod MessageTests
mod Tests
pub mod Allocation
pub mod Abi
pub mod Flatten
pub mod Offsets
pub mod Alignment
mod AllocationTests
