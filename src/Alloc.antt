-- ===== src/Alloc.antt =====
-- The allocator of src/core/alloc.c: inodes and fragments of the cylinder groups.
pub mod Groups
pub mod Runs
pub mod Indirect
pub mod OnInode
pub mod Storage
pub mod Rollback
pub mod IndirectLog
pub mod OpLogged
pub mod StorageLog
pub mod Atomic
