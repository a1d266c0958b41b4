-- ===== src/Directory.antt =====
-- Directories.
pub mod Entry
pub mod Iterate
pub mod Bounds
pub mod RoundTrip
pub mod Stored
pub mod Listing
pub mod Fuel
pub mod Find
