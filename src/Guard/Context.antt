-- ===== src/Guard/Context.antt =====
-- `context` of guard.rs: the nearest loop among a session and its ancestors, read from their logs.
pub mod Ends
use mathlib.Core.List.{reverse}
use dotfile.Prelude.{
  mem, ℕ, zero, suc, String, Bool, true, false, Option, none, some, List, [], ◌∷◌, Result, ok, err,
  ◌>>=◌, str_eq, find, any, if◌then◌else◌, ◌==◌,
}
use dotfile.Entry.{LogEntry}
use dotfile.External.{UlidText, External}

pub data ContextError : Type 0 where
  cycle unreadable : ContextError

pub record Context (V : Type 0) : Type 0 where
  pub id : ℕ
  pub role : Option String
  pub entries : List (LogEntry V)

-- the logs, by session; a log that does not exist reads as empty
abbrev pub Logs : Type 0 → Type 0
Logs V = ℕ → Result ContextError (List (LogEntry V))

-- the outer `none` says that the fuel ran out
abbrev pub Climbed : Type 0 → Type 0
Climbed V = Option (Result ContextError (Option (Context V)))

abbrev pub is_text : Option String → String → Bool
is_text none s = false
is_text (some t) s = str_eq t s

abbrev pub or_else {ℓ} : {A : Type ℓ} → Option A → Option A → Option A
or_else none other = other
or_else (some a) other = some a

abbrev pub session_of : ⦃u : UlidText⦄ → Option String → Option ℕ
session_of none = none
session_of ⦃u⦄ (some text) = u.parse_ulid text

module _ {V : Type 0} ⦃u : UlidText⦄ ⦃x : External V⦄ where
  open x use {get, as_str}

  abbrev pub get_in : Option V → String → Option V
  get_in none field = none
  get_in (some v) field = get v field

  abbrev pub text_of : Option V → Option String
  text_of none = none
  text_of (some v) = as_str v

  abbrev pub is_type : String → LogEntry V → Bool
  is_type name e = str_eq e.event_type name

  abbrev pub body_of : Option (LogEntry V) → Option V
  body_of none = none
  body_of (some e) = some e.body

  unfoldable pub created_body : List (LogEntry V) → Option V
  created_body entries = body_of (find (is_type "session.created") entries)

  unfoldable pub is_loop : Option V → Bool
  is_loop created = is_text (text_of (get_in created "kind")) "loop"

  -- the parent that the last reparenting names, or the creation, or the caller for the session itself
  unfoldable pub parent_from : Option (LogEntry V) → Option V → Option ℕ → Option ℕ
  parent_from (some moved) created caller = session_of (text_of (get moved.body "parent"))
  parent_from none created caller =
      or_else (session_of (text_of (get_in created "parent_session_id"))) caller

  unfoldable pub next_ancestor : List (LogEntry V) → Option ℕ → Option ℕ
  unfolding created_body parent_from
  next_ancestor entries caller =
      parent_from (find (is_type "session.reparented") (reverse entries)) (created_body entries)
        caller

  unfoldable pub role_of : Option V → Option String
  role_of created = text_of (get_in (get_in created "loop") "role")

  -- a round of the loop, whose log was read; `onward` is the next round
  unfoldable pub climb_entries :
      (Option ℕ → Option String → Climbed V)
      → ℕ
      → Option ℕ
      → Option String
      → Result ContextError (List (LogEntry V))
      → Climbed V
  unfolding created_body is_loop next_ancestor role_of
  climb_entries onward id caller role (err error) = some (err error)
  climb_entries onward id caller role (ok entries) =
      if is_loop (created_body entries)
      then some (ok (some (record { id = id; role = role; entries = entries })))
      else onward (next_ancestor entries caller) (or_else role (role_of (created_body entries)))

  -- The loop over the ancestors.
  unfoldable pub climb : Logs V → ℕ → Option ℕ → ℕ → Option ℕ → List ℕ → Option String → Climbed V
  unfolding climb_entries
  climb logs session caller fuel none seen role = some (ok none)
  climb logs session caller zero (some id) seen role = none
  climb logs session caller (suc fuel) (some id) seen role =
      if mem id seen
      then some (err cycle)
      else climb_entries (λ next found. climb logs session caller fuel next (id ∷ seen) found) id
          (if id == session then caller else none) role (logs id)

  -- `context`, with fuel for the number of sessions that have a log
  unfoldable pub context : Logs V → ℕ → ℕ → Option ℕ → Climbed V
  unfolding climb
  context logs sessions session caller =
      climb logs session caller (suc (suc sessions)) (some session) [] none
