-- ===== src/Tests.antt =====
-- A small volume on a device in memory, and the theorems at work on it.
mod Device
mod Volume
mod Layouts
mod Maps
mod Sessions
mod Rollbacks
mod Files
mod Names
mod Searches
mod Paths
