-- ===== src/Archive.antt =====
-- Archives of runners: executor/src/runners.
pub mod Ustar
pub mod Extraction
pub mod Writer
pub mod RoundTrip
mod Tests
