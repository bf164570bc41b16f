-- ===== src/Triggers.antt =====
-- Triggers (wsd/crates/ws-daemon/src/triggers.rs): the check that a trigger's edges make no cycle, the
-- expansion of its template, and the triggers that a log leaves pending.
pub mod Search
pub mod Template
pub mod Pending
