-- ===== src/Entry.antt =====
-- An entry of a session log (wsd/crates/ws-core/src/log.rs, `LogEntry`). Ids are ULIDs, 128-bit
-- numbers. `V` is the type of JSON values.
use dotfile.Prelude.{ℕ, String, List, Option}

pub record LogEntry (V : Type 0) : Type 0 where
  pub event_id : ℕ
  pub session_id : ℕ
  pub epoch : ℕ  -- u64
  pub seq : ℕ  -- u64
  pub prev_hash : String
  pub ts_ms : ℕ  -- u64
  pub event_type : String
  pub body : V
  pub device_id : ℕ
  pub sig : String

-- what a read of a log gives; `truncated_line` is the number of an incomplete last line
pub record LogRead (V : Type 0) : Type 0 where
  pub entries : List (LogEntry V)
  pub truncated_line : Option ℕ
  pub valid_bytes : ℕ  -- u64
  pub head_hash : String
