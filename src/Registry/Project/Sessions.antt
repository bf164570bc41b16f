-- ===== src/Registry/Project/Sessions.antt =====
-- `project_session`: the session's row and its alias.
pub mod Steps
pub mod Moves
use dotfile.Prelude.{
  ℕ, suc, String, Bool, true, false, Option, none, some, [], ◌∷◌, Result, ok, err, ok_or, guard,
  ◌>>=◌, ◌>>◌, ◌||◌, str_eq, one_of, any, update, count, if◌then◌else◌, ◌==◌,
}
use dotfile.Entry.{LogEntry}
use dotfile.External.{ℤ, pos, UlidText, External}
use dotfile.Registry.Schema.{SessionRow, AliasRow, Tables, Error, sqlite, invalid_event}
use dotfile.Registry.Schema.{alias_not_positive, parent_not_text, bad_priority}
use dotfile.Registry.Fields.{
  nonempty, str_field, sql_number, required_str, optional_str, require_session,
}
use dotfile.Registry.Project.Repos.{project_repo}
use dotfile.Registry.Project.Edges.{project_edge}

-- `as_i64` and the filter `alias > 0`
abbrev pub positive : Option ℤ → Option ℕ
positive (some (pos (suc n))) = some (suc n)
positive _ = none

module _ {V : Type 0} where
  -- `INSERT INTO sessions`: the id is the primary key
  unfoldable pub insert_session : SessionRow V → Tables V → Result Error (Tables V)
  insert_session row t =
      if any (λ r. r.id == row.id) t.sessions
      then err sqlite
      else ok (record t { sessions = row ∷ t.sessions })

  -- `INSERT INTO aliases`: the alias is the primary key and the session is unique
  unfoldable pub insert_alias : AliasRow → Tables V → Result Error (Tables V)
  insert_alias row t =
      if any (λ r. r.alias == row.alias || r.session_id == row.session_id) t.aliases
      then err sqlite
      else ok (record t { aliases = row ∷ t.aliases })

  -- `UPDATE sessions SET … WHERE id = ?`, and `require_session(changed, entry)?`
  unfoldable pub update_session :
      ℕ → (SessionRow V → SessionRow V) → Tables V → Result Error (Tables V)
  unfolding require_session
  update_session id f t = do
    require_session (count (λ r. r.id == id) t.sessions)
    ok (record t { sessions = update (λ r. r.id == id) f t.sessions })

-- `event_type.strip_prefix("session.")` of the five lifecycle events
abbrev pub lifecycle_state : String → Option String
lifecycle_state kind =
    if str_eq kind "session.running"
    then some "running"
    else if str_eq kind "session.blocked"
    then some "blocked"
    else if str_eq kind "session.finished"
    then some "finished"
    else if str_eq kind "session.failed"
    then some "failed"
    else if str_eq kind "session.reopened"
    then some "reopened"
    else none

-- `Option::or_else`
abbrev pub or_else : Option String → Option String → Option String
or_else none o = o
or_else (some s) o = some s

module _ {V : Type 0} ⦃u : UlidText⦄ ⦃x : External V⦄ where
  open x use {null, is_null, get, as_str, as_i64, of_str, reads_priority, json_set}

  abbrev i64_field : LogEntry V → String → Option ℤ
  i64_field e field = elim (get e.body field) [ none ↦ none | some v ↦ as_i64 v ]

  abbrev alias_field : LogEntry V → Option ℕ
  alias_field e = positive (i64_field e "alias")

  session_row : LogEntry V → Result Error (SessionRow V)
  unfolding optional_str sql_number
  session_row e = do
    name ← optional_str e "name"
    workspace_id ← optional_str e "workspace_id"
    now ← sql_number e.ts_ms
    cwd ← optional_str e "cwd"
    ok (record {
      id = e.session_id;
      name = name;
      state = "created";
      workspace_id = workspace_id;
      cwd = or_else cwd (nonempty (str_field e.body "path"));
      repos = [];
      device_id = e.device_id;
      created_at_ms = now;
      updated_at_ms = now;
      body = e.body;
    })

  create_session : Tables V → LogEntry V → Result Error (Tables V)
  unfolding session_row insert_session insert_alias
  create_session t e = do
    alias ← ok_or (alias_field e) (invalid_event alias_not_positive)
    row ← session_row e
    t' ← insert_session row t
    insert_alias (record { alias = alias; session_id = e.session_id }) t'

  rename_session : Tables V → LogEntry V → Result Error (Tables V)
  unfolding required_str sql_number update_session
  rename_session t e = do
    name ← required_str e "name"
    now ← sql_number e.ts_ms
    update_session e.session_id (λ r. record r { name = some name; updated_at_ms = now }) t

  abbrev field_or_null : V → String → V
  field_or_null v field = elim (get v field) [ none ↦ null | some w ↦ w ]

  abbrev is_string : V → Bool
  is_string v = elim (as_str v) [ none ↦ false | some _ ↦ true ]

  abbrev is_parent : V → Bool
  is_parent v = is_null v || is_string v

  set_body_field : Tables V → LogEntry V → String → V → Result Error (Tables V)
  unfolding sql_number update_session
  set_body_field t e field v = do
    now ← sql_number e.ts_ms
    update_session e.session_id
        (λ r. record r { body = json_set r.body field v; updated_at_ms = now }) t

  reparent_session : Tables V → LogEntry V → Result Error (Tables V)
  unfolding set_body_field
  reparent_session t e = do
    let parent = field_or_null e.body "parent"
    guard (is_parent parent) (invalid_event parent_not_text)
    set_body_field t e "parent_session_id" parent

  prioritise_session : Tables V → LogEntry V → Result Error (Tables V)
  unfolding set_body_field
  prioritise_session t e = do
    let priority = field_or_null e.body "priority"
    guard (reads_priority priority) (invalid_event bad_priority)
    set_body_field t e "priority" (of_str (as_str priority))

  move_session : Tables V → LogEntry V → Option String → Result Error (Tables V)
  unfolding sql_number update_session
  move_session t e none = ok t
  move_session t e (some state) = do
    now ← sql_number e.ts_ms
    update_session e.session_id
        (λ r. record r { state = state; device_id = e.device_id; updated_at_ms = now }) t

  unfoldable pub project_session : Tables V → LogEntry V → Result Error (Tables V)
  unfolding project_edge create_session project_repo rename_session reparent_session
      prioritise_session move_session
  project_session t e =
      if one_of ("session.depends_on" ∷ "session.block_on" ∷ []) kind
      then project_edge t e
      else if str_eq kind "session.created"
      then create_session t e
      else if str_eq kind "session.repo_attached"
      then project_repo t e
      else if str_eq kind "session.renamed"
      then rename_session t e
      else if str_eq kind "session.reparented"
      then reparent_session t e
      else if str_eq kind "session.priority"
      then prioritise_session t e
      else move_session t e (lifecycle_state kind)
    where
      open e use {event_type as kind}
