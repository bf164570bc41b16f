-- ===== src/External.antt =====
-- What the registry takes from outside the repository: JSON values (the serde_json crate), ULID
-- text (the ulid crate), and SQLite's JSON functions. `V` is the type of JSON values.
use dotfile.Prelude.{ℕ, String, Bool, Option, List}
use dotfile.Entry.{LogEntry}

-- a signed 64-bit integer; `negsuc n` is -(n + 1)
pub data ℤ : Type 0 where
  pos negsuc : ℕ → ℤ

-- the text of a ULID: `parse` and `to_string`
pub record UlidText : Type 0 where
  pub parse_ulid : String → Option ℕ
  pub show_ulid : ℕ → String

pub record External (V : Type 0) : Type 0 where
  -- serde_json: `Value::Null`, `Value::get`, the `as_…` methods and `is_…` tests
  pub null : V
  pub is_null : V → Bool
  pub get : V → String → Option V
  pub as_str : V → Option String
  pub as_i64 : V → Option ℤ
  pub as_u64 : V → Option ℕ
  pub as_array : V → Option (List V)
  pub of_str : Option String → V
  -- the object with the second object's fields put over the first's; `none` unless both are objects
  pub extend : V → V → Option V
  -- whether a derived reader of `AgentPriority` accepts the value
  pub reads_priority : V → Bool
  -- `serde_json::to_string` of a log entry
  pub serialize : LogEntry V → Option String
  -- SQLite: `json_set` of one field, `json_extract` of one field as a text and as an integer
  pub json_set : V → String → V → V
  pub extract_text : V → String → Option String
  pub extract_integer : V → String → Option ℕ
