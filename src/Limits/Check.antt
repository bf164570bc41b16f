-- ===== src/Limits/Check.antt =====
-- `check_spawn_limits`, `check_loop_spawn_cap` and `tag_loop_spawn` of limits.rs.
pub mod Ends
pub mod Within
pub mod Tag
use dotfile.Prelude.{
  ℕ, zero, suc, ◌+◌, String, Bool, true, false, not, Option, none, some, List, [], ◌∷◌, ◌++◌, ◌&&◌,
  ◌||◌, Result, ok, err, any, find, select, count, map, length, leb, str_eq, one_of, Chars, codes,
  same, if◌then◌else◌, ◌==◌,
}
use dotfile.Entry.{LogEntry}
use dotfile.External.{UlidText, External}
use dotfile.Registry.Schema.{SessionRow, AppliedRow, AliasRow, Tables, Error}
use dotfile.Registry.Fields.{str_field}
use dotfile.Registry.Events.{latest_row, is_event, entry_of}
use dotfile.Registry.Resolve.{get_record, is_listed}
use dotfile.Limits.{
  LimitError, Limits, spawn_limit, children, depth, spawns, ancestry_cycle, invalid_parent_id,
  session_missing, registry_error,
}
use dotfile.Limits.Ancestors.{Turn, answer, onward, Climb, climb}
use dotfile.Limits.Scope.{
  or_scope, is_text, is_loop_body, legacy_loop_scope, session_scope, parsed_parent, spawn_scope,
  is_name,
}

-- an answer, or none where fuel ran out
abbrev pub Checked : Type 0
Checked = Option (Result LimitError (Unit {0}))

abbrev pub and_then {ℓ κ} :
    {A : Type ℓ} {B : Type κ}
    → Option (Result LimitError A)
    → (A → Option (Result LimitError B))
    → Option (Result LimitError B)
and_then none k = none
and_then (some (err reason)) k = some (err reason)
and_then (some (ok value)) k = k value

-- `map_err` of `?` on an error of the registry
abbrev pub from_registry {ℓ} : {A : Type ℓ} → Result Error A → Result LimitError A
from_registry (err reason) = err (registry_error reason)
from_registry (ok value) = ok value

-- the value of a text, where it is an id
abbrev pub id_of : ⦃u : UlidText⦄ → Option String → Option ℕ
id_of none = none
id_of ⦃u⦄ (some text) = u.parse_ulid text

abbrev pub text_codes : Option String → Option Chars
text_codes none = none
text_codes (some text) = some (codes text)

unfoldable pub add_spawn : Chars → Option (Option Chars) → Option ℕ → Option ℕ
add_spawn scope none later = none
add_spawn scope (some own) none = none
add_spawn scope (some own) (some n) = some (if is_name own scope then suc n else n)

unfoldable pub capped : Limits → ℕ → ℕ → Option ℕ → Checked
capped limits parent moved none = none
capped limits parent moved (some created) =
    if leb limits.max_spawns (created + moved)
    then some (err (spawn_limit (spawns parent limits.max_spawns)))
    else some (ok tt)

-- the field of the body that names the parent
unfoldable pub tag_field : String → Option String
tag_field event_type =
    if str_eq event_type "session.created"
    then some "parent_session_id"
    else if str_eq event_type "session.reparented"
    then some "parent"
    else none

unfoldable pub tagged_parent : ⦃u : UlidText⦄ → Option String → Result LimitError (Option ℕ)
tagged_parent none = ok none
tagged_parent ⦃u⦄ (some text) = elim (u.parse_ulid text) [
  | none ↦ err invalid_parent_id
  | some id ↦ ok (some id)
]

abbrev pub parent_or : ℕ → Option ℕ → ℕ
parent_or id none = id
parent_or id (some parent) = parent

abbrev pub is_none : Option Chars → Bool
is_none none = true
is_none (some scope) = false

unfoldable pub deeper : ℕ → Result LimitError (Option ℕ) → Turn ℕ (Result LimitError (Unit {0}))
deeper n (err reason) = answer (err reason)
deeper n (ok parent) = onward parent n

module _ {V : Type 0} ⦃u : UlidText⦄ ⦃x : External V⦄ where
  open u use {show_ulid}

  -- the closure `inferred`: the creation of an ancestor, if the index has one
  unfoldable pub visit_creation :
      ℕ → Option Chars → Option (LogEntry V) → Turn (Option Chars) (Option Chars)
  unfolding is_loop_body legacy_loop_scope
  visit_creation id legacy none = answer legacy
  visit_creation id legacy (some e) =
      if is_loop_body e.body
      then answer (some (session_scope id))
      else onward (id_of (str_field e.body "parent_session_id"))
          (or_scope legacy (legacy_loop_scope e.body))

  -- the creation of a session, the last where its log has more
  unfoldable pub creation_of : Tables V → ℕ → Option (LogEntry V)
  unfolding latest_row
  creation_of t id = entry_of (latest_row (is_event id "session.created") t.applied)

  unfoldable pub creation_climb : Tables V → Climb (Option Chars) (Option Chars)
  unfolding creation_of visit_creation
  creation_climb t = record {
    before = λ legacy. none;
    again = λ legacy. legacy;
    done = λ legacy. legacy;
    visit = λ id legacy. visit_creation id legacy (creation_of t id);
  }

  unfoldable pub recorded_or_inferred : Tables V → LogEntry V → Option Chars → Option (Option Chars)
  unfolding creation_climb climb legacy_loop_scope
  recorded_or_inferred t e (some recorded) = some (some recorded)
  recorded_or_inferred t e none =
      climb (creation_climb t) (suc (suc (length t.applied)))
        (id_of (str_field e.body "parent_session_id")) [] (legacy_loop_scope e.body)

  -- the scope that a creation records, or the inferred one
  unfoldable pub creation_scope : Tables V → LogEntry V → Option (Option Chars)
  unfolding recorded_or_inferred
  creation_scope t e = recorded_or_inferred t e (text_codes (str_field e.body "loop_spawn_scope"))

  abbrev pub is_of_type : String → AppliedRow V → Bool
  is_of_type event_type row = str_eq row.entry.event_type event_type

  -- the creations that count for a scope
  unfoldable pub creations_in : Tables V → Chars → List (AppliedRow V) → Option ℕ
  unfolding creation_scope add_spawn
  creations_in t scope [] = some 0
  creations_in t scope (row ∷ rows) =
      let later = creations_in t scope rows in
      if is_of_type "session.created" row
      then add_spawn scope (creation_scope t row.entry) later
      else later

  -- the reparentings that record the scope
  abbrev pub is_moved_in : Chars → AppliedRow V → Bool
  is_moved_in scope row =
      is_of_type "session.reparented" row
      && is_name (text_codes (str_field row.entry.body "loop_spawn_scope")) scope

  unfoldable pub check_loop_spawn_cap : Tables V → Limits → ℕ → Chars → Checked
  unfolding creations_in capped
  check_loop_spawn_cap t limits parent scope =
      capped limits parent (count (is_moved_in scope) t.applied) (creations_in t scope t.applied)

  unfoldable pub check_scope : Tables V → Limits → ℕ → Option Chars → Checked
  unfolding check_loop_spawn_cap
  check_scope t limits parent none = some (ok tt)
  check_scope t limits parent (some scope) = check_loop_spawn_cap t limits parent scope

  -- `registry.sessions()`: the sessions that have an alias
  abbrev pub has_alias : Tables V → SessionRow V → Bool
  has_alias t row = any (λ (a : AliasRow). a.session_id == row.id) t.aliases

  -- a child counts where there is no loop, or it is not over
  abbrev pub is_child : ℕ → Option Chars → SessionRow V → Bool
  is_child parent scope row =
      is_text (str_field row.body "parent_session_id") (show_ulid parent)
      && (is_none scope || not (one_of ("finished" ∷ "failed" ∷ []) row.state))

  unfoldable pub check_children : Tables V → Limits → ℕ → Option Chars → Checked
  check_children t limits parent scope =
      if leb limits.max_children (count (is_child parent scope) (select (has_alias t) t.sessions))
      then some (err (spawn_limit (children parent limits.max_children)))
      else some (ok tt)

  unfoldable pub visit_depth : ℕ → ℕ → Option (SessionRow V) → Turn ℕ (Result LimitError (Unit {0}))
  unfolding deeper parsed_parent
  visit_depth id n none = answer (err (session_missing id))
  visit_depth id n (some row) =
      deeper (suc n) (parsed_parent (str_field row.body "parent_session_id"))

  unfoldable pub depth_climb : Tables V → Limits → ℕ → Climb ℕ (Result LimitError (Unit {0}))
  unfolding visit_depth
  depth_climb t limits parent = record {
    before = λ n.
        if leb limits.max_depth n
        then some (err (spawn_limit (depth parent limits.max_depth)))
        else none;
    again = λ n. err ancestry_cycle;
    done = λ n. ok tt;
    visit = λ id n. visit_depth id n (find (λ r. r.id == id) (select (has_alias t) t.sessions));
  }

  unfoldable pub check_depth : Tables V → Limits → ℕ → Checked
  unfolding depth_climb climb
  check_depth t limits parent =
      climb (depth_climb t limits parent) (suc (suc (length t.sessions))) (some parent) [] 0

  -- the checks below a parent that has a record
  unfoldable pub check_parent : Tables V → Limits → ℕ → Result Error (SessionRow V) → Checked
  unfolding spawn_scope check_scope check_children check_depth
  check_parent t limits parent (err reason) = some (err (registry_error reason))
  check_parent t limits parent (ok row) = and_then (spawn_scope t (some parent)) (λ scope.
      and_then (check_scope t limits parent scope)
        (λ _. and_then (check_children t limits parent scope) (λ _. check_depth t limits parent)))

  unfoldable pub check_spawn_limits : Tables V → Limits → Option ℕ → Checked
  unfolding get_record check_parent
  check_spawn_limits t limits none = some (ok tt)
  check_spawn_limits t limits (some parent) =
      check_parent t limits parent (get_record t (show_ulid parent))

  -- `put` sets the field `loop_spawn_scope` of a body
  unfoldable pub put_scope :
      (V → Chars → V) → Tables V → Limits → ℕ → V → Option Chars → Option (Result LimitError V)
  unfolding check_loop_spawn_cap
  put_scope put t limits parent body none = some (ok body)
  put_scope put t limits parent body (some scope) =
      and_then (check_loop_spawn_cap t limits parent scope) (λ _. some (ok (put body scope)))

  unfoldable pub tag_body :
      (V → Chars → V) → Tables V → Limits → ℕ → V → Option String → Option (Result LimitError V)
  unfolding tagged_parent spawn_scope put_scope legacy_loop_scope
  tag_body put t limits id body none = some (ok body)
  tag_body put t limits id body (some field) =
      and_then (some (tagged_parent (str_field body field))) (λ parent.
        and_then (spawn_scope t parent) (λ scope.
          put_scope put t limits (parent_or id parent) body
            (or_scope scope (legacy_loop_scope body))))

  -- the body of an entry with the scope that it counts for
  unfoldable pub tag_loop_spawn :
      (V → Chars → V) → Tables V → Limits → ℕ → String → V → Option (Result LimitError V)
  unfolding tag_field tag_body
  tag_loop_spawn put t limits id event_type body =
      tag_body put t limits id body (tag_field event_type)
