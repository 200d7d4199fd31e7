-- ===== src/Base32.antt =====
-- Crockford's Base32: executor/crates/sdk-rs/src/gvm32.rs.
pub mod Code
pub mod RoundTrip
pub mod Hash
mod Tests
