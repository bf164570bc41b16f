-- ===== src/Sessions/Service.antt =====
-- The calls of sessions.rs that change a session: `create`, `rename`, `reparent`, `transition`,
-- `change_state` and `stop`.
use dotfile.Prelude.{
  ℕ, String, Chars, Bool, true, false, not, ◌&&◌, Option, none, some, [], ◌∷◌, ok, guard, ok_or,
  one_of, if◌then◌else◌,
}
use dotfile.External.{UlidText, External}
use dotfile.Session.{SessionState, finished, transition, event_type}
use dotfile.Registry.Schema.{SessionRow, Tables}
use dotfile.Registry.Fields.{str_field}
use dotfile.Registry.Store.{Registry}
use dotfile.Limits.Check.{check_spawn_limits}
use dotfile.Limits.Scope.{spawn_scope}
use dotfile.Calls.{
  empty_name, empty_workspace, bad_name, bad_state, name_taken, Call, lift, gets, ◌>>=◌, ◌>>◌, call,
  append_entry, record_of, ended, allocate_alias,
}
use dotfile.Sessions.{
  Host, state_named, from_transition, is_blank, is_allowed_name, is_some_text, is_there,
  same_parent, process_exited, is_taken, parent_of, check_ancestors,
}

abbrev is_scoped : Option Chars → Bool
is_scoped none = false
is_scoped (some scope) = true

module _ {V : Type 0} ⦃u : UlidText⦄ ⦃x : External V⦄ where
  -- the parent's id
  abbrev pub parent_record : Option String → Call V (Option ℕ)
  parent_record none = lift (ok none)
  parent_record (some parent) = do row ← record_of parent; lift (ok (some row.id))

module _ {V : Type 0} ⦃u : UlidText⦄ ⦃x : External V⦄ (h : Host V) where
  open u use {show_ulid}

  abbrev registry_of : Tables V → Registry V
  registry_of t = record { connection = t; alias_floor = h.alias_floor }

  abbrev check_limits : Option ℕ → Call V (Unit {0})
  check_limits parent =
      gets (λ t. check_spawn_limits t h.journal.limits parent) >>= λ result. lift (ended result)

  unfoldable pub create : ℕ → Option String → Option String → Option ℕ → Call V (SessionRow V)
  unfolding allocate_alias check_spawn_limits
  create id name workspace_id parent = do
    call h.journal parent "session.create" (some (show_ulid id))
    lift (guard (not (is_blank name)) empty_name)
    lift (guard (not (is_blank workspace_id)) empty_workspace)
    check_limits parent
    alias ← allocate_alias h.alias_floor h.reserve_counter
    append_entry h.journal id "session.created" (h.creation_body alias name workspace_id parent)
    record_of (show_ulid id)

  abbrev append_name : SessionRow V → String → Option ℕ → Call V (Unit {0})
  append_name session name caller = if is_some_text session.name name then lift (ok tt) else (do
    append_entry h.journal session.id "session.renamed" (h.renamed_body name caller)
    lift (ok tt))

  unfoldable pub rename : String → String → Option ℕ → Call V (SessionRow V)
  unfolding is_allowed_name
  rename input name caller = do
    call h.journal caller "session.rename" (some input)
    session ← record_of input
    lift (guard (is_allowed_name name) bad_name)
    taken ← gets (λ t. is_taken t session.id name)
    lift (guard (not taken) (name_taken name))
    append_name session name caller
    record_of (show_ulid session.id)

  abbrev check_scoped_limits : Option ℕ → Bool → Call V (Unit {0})
  check_scoped_limits parent scoped = if scoped then check_limits parent else lift (ok tt)

  abbrev append_parent : SessionRow V → Option ℕ → Option ℕ → Call V (Unit {0})
  append_parent session parent caller =
      if same_parent (parent_of session) parent then lift (ok tt) else (do
        found ← gets (λ t. spawn_scope t parent)
        scope ← lift (ended found)
        check_scoped_limits parent (is_scoped scope)
        append_entry h.journal session.id "session.reparented" (h.reparented_body parent caller)
        lift (ok tt))

  unfoldable pub reparent : String → Option String → Option ℕ → Call V (SessionRow V)
  unfolding check_ancestors spawn_scope check_spawn_limits
  reparent input parent caller = do
    call h.journal caller "session.reparent" (some input)
    session ← record_of input
    parent_id ← parent_record parent
    checked ← gets (λ t. check_ancestors t session.id parent_id)
    lift checked
    append_parent session parent_id caller
    record_of (show_ulid session.id)

  unfoldable pub change_state : String → SessionState → Option ℕ → Call V (SessionRow V)
  unfolding state_named transition event_type
  change_state input to caller = do
    session ← record_of input
    from ← lift (ok_or (state_named session.state) bad_state)
    lift (from_transition (transition from to))
    append_entry h.journal session.id (event_type to) (h.moved_body caller)
    record_of input

  unfoldable pub transition_session : String → SessionState → Option ℕ → Call V (SessionRow V)
  unfolding change_state
  transition_session input to caller = do
    call h.journal caller "session.transition" (some input)
    change_state input to caller

  -- an exit of a process that ended without one
  abbrev append_exit : SessionRow V → Bool → Call V (Unit {0})
  append_exit session exited =
      if exited
      then lift (ok tt)
      else (do append_entry h.journal session.id "exit" h.stopped_body; lift (ok tt))

  abbrev end_process : SessionRow V → Call V (Unit {0})
  end_process session =
      if is_there (str_field session.body "agent")
        && not (one_of ("finished" ∷ "failed" ∷ []) session.state)
      then (do
        lift (h.finish_spawned session)
        exited ← gets (λ t. process_exited (registry_of t) session.id)
        append_exit session exited)
      else lift (ok tt)

  unfoldable pub stop : String → Option ℕ → Call V (SessionRow V)
  unfolding process_exited change_state
  stop input caller = do
    call h.journal caller "session.stop" (some input)
    session ← record_of input
    end_process session
    change_state input finished caller
