-- ===== src/Disk.antt =====
-- The image as the operations see it: bounded reads and writes, the undo log, and the monad of
-- operations that return an errno.
mod State
mod Access
pub mod Laws
pub mod Rollback
pub mod Writes
pub mod Recovery
pub mod Effects
pub mod Logged
pub mod Ending
unfoldable pub use State.*
unfoldable pub use Access.*
