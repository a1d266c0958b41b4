-- ===== src/Mutate.antt =====
-- The operations of src/mutate, which work between the begin and the end of a transaction.
pub mod Blocks
pub mod File
pub mod Dirent
pub mod Placed
pub mod Insertion
pub mod Names
pub mod Directory
pub mod Drop
pub mod Removal
pub mod Empty
pub mod DirectoryLog
pub mod Lookup
pub mod Sound
pub mod Inodes
pub mod Unlink
pub mod UnlinkLog
pub mod FileLog
pub mod Rollback
