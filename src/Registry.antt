-- ===== src/Registry.antt =====
-- The rebuildable index of session logs (wsd/crates/ws-core/src/registry).
pub mod Schema
pub mod Fields
pub mod Project
pub mod Apply
pub mod Step
pub mod Steps
pub mod Invariant
pub mod Index
pub mod Replay
pub mod Owners
pub mod Store
pub mod CatchUp
pub mod Events
pub mod Resolve
pub mod Lists
pub mod States
