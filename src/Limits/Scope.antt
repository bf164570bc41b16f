-- ===== src/Limits/Scope.antt =====
-- Which loop a session belongs to: `legacy_loop_scope` and `spawn_scope` of limits.rs. A scope is the
-- list of its characters, `session:…` of a loop session or `run:…` of an older loop.
pub mod Ends
use dotfile.Prelude.{
  ℕ, suc, String, Bool, false, Option, none, some, List, [], ◌∷◌, ◌++◌, Result, ok, err, length,
  str_eq, Chars, codes, same, if◌then◌else◌,
}
use dotfile.External.{UlidText, External}
use dotfile.Registry.Schema.{SessionRow, Tables, Error}
use dotfile.Registry.Fields.{nonempty, str_field}
use dotfile.Registry.Project.Edges.{array_field}
use dotfile.Registry.Resolve.{get_record}
use dotfile.Guard.Arguments.{file_name, is_one_of}
use dotfile.Limits.{LimitError, ancestry_cycle, invalid_ancestry_id, registry_error}
use dotfile.Limits.Ancestors.{Turn, answer, onward, Climb, climb}

abbrev pub orchestrator : Chars
orchestrator = codes "loop-orchestrator.sh"

-- `format!("run:{run_id}")`
abbrev pub run_scope : Option String → Option Chars
run_scope none = none
run_scope (some run) = some (codes "run:" ++ codes run)

abbrev pub or_scope : Option Chars → Option Chars → Option Chars
or_scope none later = later
or_scope (some scope) later = some scope

abbrev pub program_name : Option String → Option Chars
program_name none = none
program_name (some path) = file_name (codes path)

abbrev pub is_name : Option Chars → Chars → Bool
is_name none name = false
is_name (some found) name = same found name

abbrev pub is_text : Option String → String → Bool
is_text none s = false
is_text (some t) s = str_eq t s

module _ {V : Type 0} ⦃x : External V⦄ where
  open x use {as_str}

  -- the argument after the first `--run-id` that has one which is not empty
  unfoldable pub run_argument : List V → Option Chars
  run_argument [] = none
  run_argument (a ∷ []) = none
  run_argument (a ∷ b ∷ rest) =
      let later = run_argument (b ∷ rest) in
      if is_text (as_str a) "--run-id"
      then or_scope (run_scope (nonempty (as_str b))) later
      else later

  -- the script is the argument of a shell
  unfoldable pub shell_script : List V → Option Chars
  unfolding run_argument
  shell_script [] = none
  shell_script (script ∷ args) =
      if is_name (program_name (as_str script)) orchestrator then run_argument args else none

  unfoldable pub program_scope : Option Chars → List V → Option Chars
  unfolding run_argument shell_script
  program_scope none args = none
  program_scope (some program) args =
      if same program orchestrator
      then run_argument args
      else if is_one_of ("zsh" ∷ "bash" ∷ "sh" ∷ []) program
      then shell_script args
      else none

  unfoldable pub command_scope : Option (List V) → Option Chars
  unfolding program_scope
  command_scope none = none
  command_scope (some []) = none
  command_scope (some (program ∷ args)) = program_scope (program_name (as_str program)) args

  unfoldable pub legacy_loop_scope : V → Option Chars
  unfolding command_scope
  legacy_loop_scope body =
      or_scope (run_scope (nonempty (str_field body "run_id")))
        (command_scope (array_field body "command"))

  unfoldable pub is_loop_body : V → Bool
  is_loop_body body = is_text (str_field body "kind") "loop"

module _ ⦃u : UlidText⦄ where
  open u use {parse_ulid, show_ulid}

  -- `format!("session:{id}")`
  abbrev pub session_scope : ℕ → Chars
  session_scope id = codes "session:" ++ codes (show_ulid id)

  -- `map(str::parse).transpose()`: no text is no parent, and a bad text is an error
  unfoldable pub parsed_parent : Option String → Result LimitError (Option ℕ)
  parsed_parent none = ok none
  parsed_parent (some text) = elim (parse_ulid text) [
    | none ↦ err invalid_ancestry_id
    | some id ↦ ok (some id)
  ]

abbrev pub ScopeFound : Type 0
ScopeFound = Result LimitError (Option Chars)

unfoldable pub next_parent :
    Option Chars → Result LimitError (Option ℕ) → Turn (Option Chars) ScopeFound
next_parent legacy (err reason) = answer (err reason)
next_parent legacy (ok parent) = onward parent legacy

module _ {V : Type 0} ⦃u : UlidText⦄ ⦃x : External V⦄ where
  -- the record of an ancestor
  unfoldable pub visit_record :
      ℕ → Option Chars → Result Error (SessionRow V) → Turn (Option Chars) ScopeFound
  unfolding is_loop_body legacy_loop_scope parsed_parent next_parent
  visit_record id legacy (err reason) = answer (err (registry_error reason))
  visit_record id legacy (ok row) =
      if is_loop_body row.body
      then answer (ok (some (session_scope id)))
      else next_parent (or_scope legacy (legacy_loop_scope row.body))
          (parsed_parent (str_field row.body "parent_session_id"))

  unfoldable pub scope_climb : Tables V → Climb (Option Chars) ScopeFound
  unfolding get_record visit_record
  scope_climb t = record {
    before = λ legacy. none;
    again = λ legacy. err ancestry_cycle;
    done = λ legacy. ok legacy;
    visit = λ id legacy. visit_record id legacy (get_record t (u.show_ulid id));
  }

  -- with fuel for the session itself and the parent of each session
  unfoldable pub spawn_scope : Tables V → Option ℕ → Option ScopeFound
  unfolding climb scope_climb
  spawn_scope t parent = climb (scope_climb t) (suc (suc (length t.sessions))) parent [] none
