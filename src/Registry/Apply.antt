-- ===== src/Registry/Apply.antt =====
-- `apply_entry` and the transaction round it (projection.rs, and `Registry::apply` of mod.rs).
use dotfile.Prelude.{
  ℕ, ◌+◌, String, Option, none, some, List, [], ◌∷◌, Result, ok, err, ok_or, guard, ◌>>=◌, ◌>>◌,
  ◌&&◌, ◌||◌, str_eq, split_once, max, find, any, if◌then◌else◌, ◌==◌,
}
use dotfile.Entry.{LogEntry}
use dotfile.External.{UlidText, External}
use dotfile.Registry.Schema.{AppliedRow, Tables, Error, sqlite, json, invalid_event}
use dotfile.Registry.Schema.{different_content, not_consecutive}
use dotfile.Registry.Fields.{sql_number}
use dotfile.Registry.Project.Repos.{project_repo}
use dotfile.Registry.Project.Sessions.{project_session, update_session}
use dotfile.Registry.Project.Workspaces.{project_workspace}
use dotfile.Registry.Project.Edges.{project_edge}
use dotfile.Registry.Project.Messages.{project_message}

module _ {V : Type 0} where
  abbrev pub empty_tables : Tables V
  empty_tables = record {
    sessions = [];
    aliases = [];
    workspaces = [];
    edges = [];
    messages = [];
    applied = [];
  }

  -- `SELECT COALESCE(MAX(seq), 0) FROM applied_events WHERE session_id = ?`
  unfoldable pub max_seq : ℕ → List (AppliedRow V) → ℕ
  max_seq session [] = 0
  max_seq session (r ∷ rs) =
      let rest = max_seq session rs in if r.session_id == session then max r.seq rest else rest

  abbrev pub find_applied : ℕ → List (AppliedRow V) → Option (AppliedRow V)
  find_applied id = find (λ r. r.event_id == id)

  -- `INSERT INTO applied_events`: the event id is the primary key, (session_id, seq) is unique
  unfoldable pub insert_applied : AppliedRow V → Tables V → Result Error (Tables V)
  insert_applied row t =
      if any
        (λ r. r.event_id == row.event_id || (r.session_id == row.session_id && r.seq == row.seq))
        t.applied
      then err sqlite
      else ok (record t { applied = row ∷ t.applied })

module _ {V : Type 0} ⦃u : UlidText⦄ ⦃x : External V⦄ where
  open x use {serialize}

  -- the `match` on the two parts of the event type
  unfoldable pub dispatch :
      Option (String × String) → Tables V → LogEntry V → Result Error (Tables V)
  dispatch none t e = ok t
  dispatch (some (family, name)) t e =
      if str_eq family "session"
      then project_session t e
      else if str_eq family "phase" && str_eq name "worktree"
      then project_repo t e
      else if str_eq family "workspace"
      then project_workspace t e
      else if str_eq family "edge"
      then project_edge t e
      else if str_eq family "message"
      then project_message t e
      else ok t

  unfoldable pub finish_done : Tables V → LogEntry V → Result Error (Tables V)
  unfolding sql_number update_session
  finish_done t e =
      if str_eq e.event_type "done"
      then (do
        now ← sql_number e.ts_ms
        update_session e.session_id (λ r. record r { state = "finished"; updated_at_ms = now }) t)
      else ok t

  unfoldable pub record_applied : Tables V → LogEntry V → Result Error (Tables V)
  unfolding sql_number insert_applied
  record_applied t e = do
    seq ← sql_number e.seq
    insert_applied
        (record { event_id = e.event_id; session_id = e.session_id; seq = seq; entry = e }) t

  unfoldable pub apply_new : Tables V → LogEntry V → Result Error (Tables V)
  unfolding sql_number
  apply_new t e = do
    seq ← sql_number e.seq
    guard (seq == max_seq e.session_id t.applied + 1) (invalid_event not_consecutive)
    t₁ ← finish_done t e
    t₂ ← dispatch (split_once b'.' e.event_type) t₁ e
    record_applied t₂ e

  -- a row with the event id: the text that it holds is compared with the entry's
  unfoldable pub check_repeat : Tables V → String → AppliedRow V → Result Error (Tables V)
  check_repeat t serialized row = do
    previous ← ok_or (serialize row.entry) json
    guard (str_eq previous serialized) (invalid_event different_content)
    ok t

  unfoldable pub apply_entry : Tables V → LogEntry V → Result Error (Tables V)
  unfolding check_repeat
  apply_entry t e = do
    serialized ← ok_or (serialize e) json
    elim (find_applied e.event_id t.applied) [
      | some row ↦ check_repeat t serialized row
      | none ↦ apply_new t e
    ]

  unfoldable pub apply_all : Tables V → List (LogEntry V) → Result Error (Tables V)
  apply_all t [] = ok t
  apply_all t (e ∷ es) = do t' ← apply_entry t e; apply_all t' es
