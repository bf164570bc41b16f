-- ===== src/Sessions.antt =====
-- The changes of sessions (ws-daemon/src/sessions.rs): what their calls test. `process_exited` is of
-- supervisor.rs.
pub mod Service
pub mod Moved
pub mod Above
pub mod Moves
use dotfile.Prelude.{
  ℕ, suc, ◌+◌, String, Chars, codes, Bool, true, false, not, ◌&&◌, ◌||◌, Option, none, some, List,
  [], ◌∷◌, Result, ok, err, guard, ok_or, any, all, select, length, leb, ltb, mem, one_of, str_eq,
  if◌then◌else◌, ◌==◌,
}
use dotfile.External.{UlidText, External}
use dotfile.Entry.{LogEntry}
use dotfile.Session.{
  SessionState, created, running, blocked, finished, failed, reopened, TransitionError, transition,
  event_type,
}
use dotfile.Registry.Schema.{SessionRow, Tables, Error}
use dotfile.Registry.Fields.{str_field}
use dotfile.Registry.Events.{latest_event, latest_process_exit}
use dotfile.Registry.Store.{Registry}
use dotfile.Registry.Resolve.{get_record}
use dotfile.Guard.Shell.{is_whitespace}
use dotfile.Limits.{LimitError, Limits}
use dotfile.Limits.Check.{check_spawn_limits, has_alias, id_of}
use dotfile.Limits.Scope.{spawn_scope}
use dotfile.Limits.Ancestors.{Turn, answer, onward, Climb, climb}
use dotfile.Edges.Add.{Journal}
use dotfile.Calls.{
  ServiceError, empty_name, empty_workspace, bad_name, below_itself, bad_state, input_error,
  unended, name_taken, bad_transition, limit_error, Call, lift, gets, from_registry, ◌>>=◌, ◌>>◌,
  call, append_entry, record_of, allocate_alias,
}

-- What the calls take from outside: the log's writer, the bodies of the entries, the counter of aliases, and what becomes of the windows of a session that is stopped.
pub record Host (V : Type 0) : Type 0 where
  pub journal : Journal V
  pub creation_body : ℕ → Option String → Option String → Option ℕ → V
  pub renamed_body : String → Option ℕ → V
  pub reparented_body : Option ℕ → Option ℕ → V
  pub moved_body : Option ℕ → V
  pub stopped_body : V
  pub alias_floor : ℕ
  pub reserve_counter : ℕ → Option ℕ
  pub finish_spawned : SessionRow V → Result ServiceError (Unit {0})

-- the state that serde_json reads from its name
unfoldable pub state_named : String → Option SessionState
state_named name =
    if str_eq name "created"
    then some created
    else if str_eq name "running"
    then some running
    else if str_eq name "blocked"
    then some blocked
    else if str_eq name "finished"
    then some finished
    else if str_eq name "failed"
    then some failed
    else if str_eq name "reopened"
    then some reopened
    else none

abbrev pub from_transition : Result TransitionError SessionState → Result ServiceError SessionState
from_transition (err reason) = err (bad_transition reason)
from_transition (ok state) = ok state

-- `trim().is_empty()` of a text that is there
abbrev pub is_blank : Option String → Bool
is_blank none = false
is_blank (some text) = all is_whitespace (codes text)

abbrev pub is_letter : ℕ → Bool
is_letter c = (leb b'a' c && leb c b'z') || (leb b'A' c && leb c b'Z')

abbrev pub is_name_char : ℕ → Bool
is_name_char c = is_letter c || (leb b'0' c && leb c b'9') || c == b'_' || c == b'.' || c == b'-'

abbrev pub starts_with_letter : Chars → Bool
starts_with_letter [] = false
starts_with_letter (c ∷ cs) = is_letter c

-- the test of a new name
unfoldable pub is_allowed_name : String → Bool
is_allowed_name name =
    not (str_eq name "me") && starts_with_letter (codes name) && all is_name_char (codes name)

abbrev pub is_some_text : Option String → String → Bool
is_some_text none s = false
is_some_text (some t) s = str_eq t s

abbrev pub is_there : Option String → Bool
is_there none = false
is_there (some t) = true

abbrev pub same_parent : Option ℕ → Option ℕ → Bool
same_parent none none = true
same_parent (some a) (some b) = a == b
same_parent _ _ = false

abbrev pub climbed : Option (Result ServiceError (Unit {0})) → Result ServiceError (Unit {0})
climbed none = err unended
climbed (some result) = result

module _ {V : Type 0} where
  abbrev pub is_later : LogEntry V → Option (LogEntry V) → Bool
  is_later exit none = true
  is_later exit (some run) = ltb run.seq exit.seq

  -- the process has exited since the session last ran
  abbrev pub exited_since : Option (LogEntry V) → Option (LogEntry V) → Bool
  exited_since none last_run = false
  exited_since (some exit) last_run = is_later exit last_run

module _ {V : Type 0} ⦃u : UlidText⦄ ⦃x : External V⦄ where
  open u use {show_ulid}

  unfoldable pub process_exited : Registry V → ℕ → Bool
  unfolding latest_event latest_process_exit
  process_exited r id =
      exited_since (latest_process_exit r id) (latest_event r id "session.running")

  -- another listed session has the name
  abbrev pub is_taken : Tables V → ℕ → String → Bool
  is_taken t id name =
      any (λ (row : SessionRow V). not (row.id == id) && is_some_text row.name name)
        (select (has_alias t) t.sessions)

  abbrev pub parent_of : SessionRow V → Option ℕ
  parent_of row = id_of (str_field row.body "parent_session_id")

  abbrev pub visit_ancestor :
      Result Error (SessionRow V) → Turn (Unit {0}) (Result ServiceError (Unit {0}))
  visit_ancestor (err reason) = answer (from_registry (err reason))
  visit_ancestor (ok row) = onward (parent_of row) tt

  -- the loop over the ancestors of a new parent
  unfoldable pub parent_climb : Tables V → ℕ → Climb (Unit {0}) (Result ServiceError (Unit {0}))
  unfolding get_record
  parent_climb t session = record {
    before = λ _. none;
    again = λ _. ok tt;
    done = λ _. ok tt;
    visit = λ id _.
        if id == session
        then answer (err below_itself)
        else visit_ancestor (get_record t (show_ulid id));
  }

  -- with fuel for the parent itself and the parent of each session
  unfoldable pub search_ancestors :
      Tables V → ℕ → Option ℕ → Option (Result ServiceError (Unit {0}))
  unfolding parent_climb climb
  search_ancestors t session parent =
      climb (parent_climb t session) (suc (suc (length t.sessions))) parent [] tt

  unfoldable pub check_ancestors : Tables V → ℕ → Option ℕ → Result ServiceError (Unit {0})
  unfolding search_ancestors
  check_ancestors t session parent = climbed (search_ancestors t session parent)
