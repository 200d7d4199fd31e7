-- ===== src/Calldata.antt =====
-- The calldata format: executor/crates/calldata.
pub mod Value
pub mod Text
pub mod Encoder
pub mod Encode
pub mod Format
pub mod EncodeLaws
pub mod EncodeTo
pub mod Decode
pub mod Uleb
pub mod Sizes
pub mod Wire
pub mod Rounds
pub mod Reads
pub mod RoundTrip
pub mod Termination
mod Tests
