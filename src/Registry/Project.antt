-- ===== src/Registry/Project.antt =====
-- The reduction of one log entry into the tables, one module for each family of events
-- (wsd/crates/ws-core/src/registry/projection.rs).
pub mod Repos
pub mod Sessions
pub mod Workspaces
pub mod Edges
pub mod Messages
