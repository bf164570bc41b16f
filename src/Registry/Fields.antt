-- ===== src/Registry/Fields.antt =====
-- How the projection reads an entry's fields (wsd/crates/ws-core/src/registry/projection.rs).
use dotfile.Prelude.{
  ℕ, String, Option, none, some, Result, ok, err, ok_or, ◌>>=◌, leb, is_empty, if◌then◌else◌, ◌==◌,
}
use dotfile.Entry.{LogEntry}
use dotfile.External.{UlidText, External}
use dotfile.Registry.Schema.{Error, invalid_event, bad_ulid, integer_range, no_session}
use dotfile.Registry.Schema.{field_not_optional_text, field_not_text}

-- the largest value of a signed 64-bit integer, which is what SQLite stores
abbrev pub i64_max : ℕ
i64_max = 9223372036854775807

unfoldable pub sql_number : ℕ → Result Error ℕ
sql_number n = if leb n i64_max then ok n else err (invalid_event integer_range)

unfoldable pub require_session : ℕ → Result Error (Unit {0})
require_session changed = if changed == 0 then err (invalid_event no_session) else ok tt

-- `Option::filter` on a text that must not be empty
abbrev pub nonempty : Option String → Option String
nonempty none = none
nonempty (some s) = if is_empty s then none else some s

module _ {V : Type 0} ⦃x : External V⦄ where
  open x use {get, is_null, as_str}

  -- `value[field].as_str()`, and `value.get(field).and_then(Value::as_str)`
  abbrev pub str_field : V → String → Option String
  str_field v field = elim (get v field) [ none ↦ none | some w ↦ as_str w ]

  unfoldable pub required_str : LogEntry V → String → Result Error String
  required_str e field = ok_or (nonempty (str_field e.body field)) (invalid_event field_not_text)

  optional_text : V → Result Error (Option String)
  optional_text v = if is_null v then ok none else elim (nonempty (as_str v)) [
    | none ↦ err (invalid_event field_not_optional_text)
    | some s ↦ ok (some s)
  ]

  unfoldable pub optional_str : LogEntry V → String → Result Error (Option String)
  unfolding optional_text
  optional_str e field = elim (get e.body field) [ none ↦ ok none | some v ↦ optional_text v ]

module _ ⦃u : UlidText⦄ where
  open u use {parse_ulid}

  unfoldable pub parse_id : String → Result Error ℕ
  parse_id s = ok_or (parse_ulid s) (invalid_event bad_ulid)

module _ {V : Type 0} ⦃u : UlidText⦄ ⦃x : External V⦄ where
  -- `parse_id(required_str(entry, field)?)?`
  unfoldable pub required_id : LogEntry V → String → Result Error ℕ
  unfolding required_str parse_id
  required_id e field = do s ← required_str e field; parse_id s
