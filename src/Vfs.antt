-- ===== src/Vfs.antt =====
-- The virtual file system's descriptors: executor/src/wasi/vfs.rs.
pub mod Descriptors
pub mod Validity
pub mod New
pub mod Alloc
pub mod Removal
pub mod Content
pub mod Pop
mod Tests
