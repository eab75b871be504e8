-- ===== src/Workspace.antt =====
-- The index of a workspace's documents (src/resolve/workspace_index/ and
-- src/resolve/completion_catalog.rs).
pub mod Defs
pub mod Keys
pub mod Index
pub mod Update
pub mod Steps
pub mod Cases
pub mod Channel
pub mod Tracked
pub mod Maps
pub mod Reachable
pub mod Current
pub mod Lookup
pub mod Catalogs
pub mod Found
pub mod Stale
pub mod Unnotified
