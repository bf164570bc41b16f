-- ===== src/Registry/Project/Workspaces.antt =====
-- `project_workspace` and `check_workspace_owner`: a workspace belongs to the session that made it.
pub mod Steps
use dotfile.Prelude.{
  ℕ, String, Bool, true, false, not, Option, none, some, List, ◌∷◌, Result, ok, err, guard, ◌>>=◌,
  ◌>>◌, ◌&&◌, str_eq, find, update, count, if◌then◌else◌, ◌==◌,
}
use dotfile.Entry.{LogEntry}
use dotfile.External.{External}
use dotfile.Registry.Schema.{WorkspaceRow, Tables, Error, json, invalid_event}
use dotfile.Registry.Schema.{workspace_exists, workspace_missing, workspace_owned}
use dotfile.Registry.Fields.{required_str}

module _ {V : Type 0} where
  abbrev pub has_id : String → WorkspaceRow V → Bool
  has_id id w = str_eq w.id id

  abbrev pub find_workspace : String → Tables V → Option (WorkspaceRow V)
  find_workspace id t = find (has_id id) t.workspaces

  unfoldable pub check_workspace_owner : Tables V → String → ℕ → Result Error (Unit {0})
  check_workspace_owner t id session = elim (find_workspace id t) [
    | none ↦ err (invalid_event workspace_missing)
    | some w ↦ guard (w.owner_session_id == session) (invalid_event workspace_owned)
  ]

  -- `if owner.is_some() { check_workspace_owner(…)?; }`
  check_existing_owner : Tables V → String → ℕ → Result Error (Unit {0})
  unfolding check_workspace_owner
  check_existing_owner t id session = elim (find_workspace id t) [
    | none ↦ ok tt
    | some _ ↦ check_workspace_owner t id session
  ]

  -- `INSERT … ON CONFLICT(id) DO UPDATE … WHERE removed = 1`, and the rows that it changes
  upsert_workspace : WorkspaceRow V → List (WorkspaceRow V) → List (WorkspaceRow V) × ℕ
  upsert_workspace row ws = elim (find (has_id row.id) ws) [
    | none ↦ (row ∷ ws, 1)
    | some _ ↦ (
      update (λ w. has_id row.id w && w.removed)
          (λ w. record w { body = row.body; removed = false }) ws,
      count (λ w. has_id row.id w && w.removed) ws,
    )
  ]

  store_workspace : Tables V → WorkspaceRow V → Result Error (Tables V)
  unfolding upsert_workspace
  store_workspace t row = do
    let (workspaces, changed) = upsert_workspace row t.workspaces
    guard (not (changed == 0)) (invalid_event workspace_exists)
    ok (record t { workspaces = workspaces })

module _ {V : Type 0} ⦃x : External V⦄ where
  open x use {extend}

  create_workspace : Tables V → LogEntry V → Result Error (Tables V)
  unfolding required_str check_existing_owner store_workspace
  create_workspace t e = do
    id ← required_str e "workspace_id"
    check_existing_owner t id e.session_id
    store_workspace t
        (record { id = id; owner_session_id = e.session_id; removed = false; body = e.body })

  -- the body of the workspace, if it has not been removed
  live_workspace : Tables V → String → Result Error (WorkspaceRow V)
  live_workspace t id = elim (find (λ w. has_id id w && not w.removed) t.workspaces) [
    | none ↦ err (invalid_event workspace_missing)
    | some w ↦ ok w
  ]

  extend_body : V → V → Result Error V
  extend_body stored new = elim (extend stored new) [ none ↦ err json | some body ↦ ok body ]

  update_workspace : Tables V → LogEntry V → Result Error (Tables V)
  unfolding required_str check_workspace_owner live_workspace extend_body
  update_workspace t e = do
    id ← required_str e "workspace_id"
    check_workspace_owner t id e.session_id
    stored ← live_workspace t id
    body ← extend_body stored.body e.body
    ok (record t { workspaces = update (has_id id) (λ w. record w { body = body }) t.workspaces })

  remove_workspace : Tables V → LogEntry V → Result Error (Tables V)
  unfolding required_str check_workspace_owner
  remove_workspace t e = do
    id ← required_str e "workspace_id"
    check_workspace_owner t id e.session_id
    ok (record t {
      workspaces = update (has_id id) (λ w. record w { removed = true }) t.workspaces;
    })

  unfoldable pub project_workspace : Tables V → LogEntry V → Result Error (Tables V)
  unfolding create_workspace update_workspace remove_workspace
  project_workspace t e =
      if str_eq e.event_type "workspace.created"
      then create_workspace t e
      else if str_eq e.event_type "workspace.updated"
      then update_workspace t e
      else if str_eq e.event_type "workspace.removed"
      then remove_workspace t e
      else ok t
