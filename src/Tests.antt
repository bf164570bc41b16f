-- ===== src/Tests.antt =====
-- Runs on concrete logs, and each theorem at an input that meets its hypotheses.
mod Bus
mod Edges
mod Guard
mod Json
mod Limits
mod Lists
mod Log
mod Registry
mod Session
mod Sessions
mod Triggers
mod Writer
