-- ===== src/Limits.antt =====
-- Spawn limits (wsd/crates/ws-daemon/src/limits.rs) over the tables of the registry.
pub mod Ancestors
pub mod Collect
pub mod Scope
pub mod Check
use dotfile.Prelude.{ℕ}
use dotfile.Registry.Schema.{Error}

-- the parent and the limit
pub data SpawnLimit : Type 0 where
  children depth spawns : ℕ → ℕ → SpawnLimit

pub data LimitError : Type 0 where
  spawn_limit : SpawnLimit → LimitError
  ancestry_cycle invalid_ancestry_id invalid_parent_id : LimitError
  session_missing : ℕ → LimitError
  registry_error : Error → LimitError

-- the numbers of the configuration that the checks read
pub record Limits : Type 0 where
  pub max_children : ℕ
  pub max_depth : ℕ
  pub max_spawns : ℕ
