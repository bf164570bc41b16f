-- ===== src/Log.antt =====
-- A session's log (wsd/crates/ws-core/src/log.rs): a file of JSON lines, each with the number of
-- its entry and the hash of the line before it.
pub mod Values
pub mod Lines
pub mod Read
pub mod Writer
