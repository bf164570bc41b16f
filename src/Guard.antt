-- ===== src/Guard.antt =====
-- The guard of a loop's shell commands (wsd/crates/ws-daemon/src/loops/guard.rs).
pub mod Shell
pub mod Arguments
pub mod Classify
pub mod Context
pub mod Check
