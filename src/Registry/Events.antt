-- ===== src/Registry/Events.antt =====
-- The queries of one recorded event (ws-core/src/registry/mod.rs): event_for_callback,
-- latest_event and latest_process_exit. The text of a row reads back as the row's entry.
pub mod Latest
use dotfile.Prelude.{
  ℕ, String, Bool, true, false, Option, none, some, List, [], ◌∷◌, ◌&&◌, str_eq, leb, ltb,
  if◌then◌else◌, ◌==◌,
}
use dotfile.Entry.{LogEntry}
use dotfile.External.{External}
use dotfile.Registry.Schema.{AppliedRow, Tables}
use dotfile.Registry.Store.{Registry}

abbrev pub is_missing : {A : Type 0} → Option A → Bool
is_missing none = true
is_missing (some _) = false

abbrev pub has_text : Option String → String → Bool
has_text none s = false
has_text (some t) s = str_eq t s

module _ {V : Type 0} where
  -- of a row and the best of the rows below it
  abbrev pub later : AppliedRow V → Option (AppliedRow V) → AppliedRow V
  later row none = row
  later row (some best) = if leb best.seq row.seq then row else best

  abbrev pub earlier_row : AppliedRow V → Option (AppliedRow V) → AppliedRow V
  earlier_row row none = row
  earlier_row row (some best) = if ltb row.seq best.seq then row else best

  -- `WHERE p ORDER BY seq DESC LIMIT 1`
  unfoldable pub latest_row : (AppliedRow V → Bool) → List (AppliedRow V) → Option (AppliedRow V)
  latest_row p [] = none
  latest_row p (row ∷ rows) =
      let rest = latest_row p rows in if p row then some (later row rest) else rest

  -- `WHERE p ORDER BY seq LIMIT 1`
  unfoldable pub first_row : (AppliedRow V → Bool) → List (AppliedRow V) → Option (AppliedRow V)
  first_row p [] = none
  first_row p (row ∷ rows) =
      let rest = first_row p rows in if p row then some (earlier_row row rest) else rest

  abbrev pub entry_of : Option (AppliedRow V) → Option (LogEntry V)
  entry_of none = none
  entry_of (some row) = some row.entry

  abbrev pub is_event : ℕ → String → AppliedRow V → Bool
  is_event session event_type row =
      row.session_id == session && str_eq row.entry.event_type event_type

  unfoldable pub latest_event : Registry V → ℕ → String → Option (LogEntry V)
  unfolding latest_row
  latest_event r session event_type =
      entry_of (latest_row (is_event session event_type) r.connection.applied)

module _ {V : Type 0} ⦃x : External V⦄ where
  open x use {get, extract_text}

  -- `json_type(entry, '$.body.callback_id') IS NULL`
  abbrev pub is_process_exit : ℕ → AppliedRow V → Bool
  is_process_exit session row =
      is_event session "exit" row && is_missing (get row.entry.body "callback_id")

  unfoldable pub latest_process_exit : Registry V → ℕ → Option (LogEntry V)
  unfolding latest_row
  latest_process_exit r session =
      entry_of (latest_row (is_process_exit session) r.connection.applied)

  abbrev pub is_callback : ℕ → String → String → AppliedRow V → Bool
  is_callback session event_type callback_id row =
      is_event session event_type row
      && has_text (extract_text row.entry.body "callback_id") callback_id

  unfoldable pub event_for_callback : Registry V → ℕ → String → String → Option (LogEntry V)
  unfolding first_row
  event_for_callback r session event_type callback_id =
      entry_of (first_row (is_callback session event_type callback_id) r.connection.applied)
