-- ===== src/Storage.antt =====
-- Contract storage: executor/src/rt/vm/storage.rs.
pub mod Pages
pub mod Access
pub mod Buffers
pub mod View
pub mod Cuts
pub mod Truth
pub mod Fill
pub mod FillAll
pub mod ReadLaws
pub mod Write
pub mod Insert
pub mod Progress
pub mod Patches
pub mod WriteLaws
pub mod Refines
pub mod Code
pub mod RoundTrip
pub mod Deploy
pub mod Load
pub mod PageKeys
pub mod KeyBytes
pub mod Chunks
pub mod KeyOrder
pub mod Deltas
pub mod Encoding
mod Tests
