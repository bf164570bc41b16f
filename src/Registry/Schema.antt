-- ===== src/Registry/Schema.antt =====
-- The tables of wsd/crates/ws-core/src/registry/schema.sql and the types of registry/mod.rs.
-- A table is the list of its rows, newest first. A column that holds a ULID's canonical text holds
-- the ULID here, and one that holds a JSON text holds the value. `applied` keeps the entry whose
-- text the `entry` column holds.
use dotfile.Prelude.{ℕ, String, Bool, Option, List}
use dotfile.Entry.{LogEntry}

pub record SessionRepo : Type 0 where
  pub path : String
  pub remote : Option String
  pub branch : Option String
  pub base : Option String

pub record SessionRow (V : Type 0) : Type 0 where
  pub id : ℕ
  pub name : Option String
  pub state : String
  pub workspace_id : Option String
  pub cwd : Option String
  pub repos : List SessionRepo
  pub device_id : ℕ
  pub created_at_ms : ℕ
  pub updated_at_ms : ℕ
  pub body : V

pub record AliasRow : Type 0 where
  pub alias : ℕ
  pub session_id : ℕ

pub record WorkspaceRow (V : Type 0) : Type 0 where
  pub id : String
  pub owner_session_id : ℕ
  pub removed : Bool
  pub body : V

pub record Edge (V : Type 0) : Type 0 where
  pub id : ℕ
  pub source : ℕ
  pub target : ℕ
  pub kind : String
  pub body : V

pub record Message (V : Type 0) : Type 0 where
  pub id : ℕ
  pub sender : Option ℕ
  pub recipient : ℕ
  pub body : Option V
  pub sent_at_ms : Option ℕ
  pub delivered_at_ms : Option ℕ
  pub read_at_ms : Option ℕ

pub record AppliedRow (V : Type 0) : Type 0 where
  pub event_id : ℕ
  pub session_id : ℕ
  pub seq : ℕ
  pub entry : LogEntry V

pub record Tables (V : Type 0) : Type 0 where
  pub sessions : List (SessionRow V)
  pub aliases : List AliasRow
  pub workspaces : List (WorkspaceRow V)
  pub edges : List (Edge V)
  pub messages : List (Message V)
  pub applied : List (AppliedRow V)

-- the message of an `InvalidEvent`
pub data Reason : Type 0 where
  different_content not_consecutive alias_not_positive parent_not_text bad_priority : Reason
  field_not_optional_text field_not_text no_session : Reason
  workspace_exists workspace_missing workspace_owned : Reason
  no_edges edge_without_id bad_edge_kind : Reason
  sender_not_owner conflicting_recipients bad_pair_seq pair_seq_taken wrong_recipient : Reason
  bad_ulid integer_range alias_range alias_floor_not_positive schema_newer : Reason

pub data Error : Type 0 where
  sqlite io json : Error
  invalid_event : Reason → Error
  not_found ambiguous : String → Error
