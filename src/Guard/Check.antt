-- ===== src/Guard/Check.antt =====
-- `check` of guard.rs: the shell command in a hook's payload, the branches of the loop's plan, and
-- the answer. How `append_daemon_loop_event` of events.rs ends is an argument.
pub mod Judged
use mathlib.Core.List.{reverse}
use dotfile.Prelude.{
  ℕ, zero, suc, String, Bool, true, false, not, Option, none, some, List, [], ◌∷◌, ◌&&◌, ◌||◌,
  Result, ok, err, ◌>>=◌, ◌>>◌, str_eq, one_of, find, any, drop, length, if◌then◌else◌, ◌==◌,
}
use dotfile.Entry.{LogEntry}
use dotfile.External.{UlidText, External}
use dotfile.Registry.Schema.{SessionRow, Tables, Error}
use dotfile.Registry.Resolve.{get_record}
use dotfile.Guard.Shell.{Chars, codes, is_empty, is_whitespace}
use dotfile.Guard.Arguments.{starts_with, is_one_of, split, after_last, Outside}
use dotfile.Guard.Classify.{Rule, Scope, classify}
use dotfile.Guard.Context.{
  Context, ContextError, Logs, Climbed, get_in, text_of, is_type, is_text, or_else, context,
}

-- What the guard takes from outside for a payload: a JSON text read as a value, words joined by
-- the shell_words crate, and the `plan.md` of a loop's directory.
pub record Payloads (V : Type 0) : Type 0 where
  pub parse_value : String → Option V
  pub join_words : List String → Chars
  pub read_plan : String → Option Chars

-- the text before the first occurrence of a pattern, and the text after it
unfoldable pub split_at : Chars → Chars → Option (Chars × Chars)
split_at pattern_text [] = if is_empty pattern_text then some ([], []) else none
split_at pattern_text (c ∷ cs) =
    let rest = split_at pattern_text cs in
    if starts_with pattern_text (c ∷ cs)
    then some ([], drop (length pattern_text) (c ∷ cs))
    else elim rest [ none ↦ none | some (before, after) ↦ some (c ∷ before, after) ]

unfoldable pub trim_start : (ℕ → Bool) → Chars → Chars
trim_start p [] = []
trim_start p (c ∷ cs) = if p c then trim_start p cs else c ∷ cs

unfoldable pub trim : (ℕ → Bool) → Chars → Chars
unfolding trim_start
trim p w = reverse (trim_start p (reverse (trim_start p w)))

-- `str::lines`: a line ends at a newline, which a carriage return may precede
unfoldable pub line_end : Chars → Chars
line_end [] = []
line_end (c ∷ []) = if c == 13 then [] else c ∷ []
line_end (c ∷ d ∷ cs) = c ∷ line_end (d ∷ cs)

unfoldable pub strip_last : List Chars → List Chars
strip_last [] = []
strip_last (l ∷ []) = if is_empty l then [] else l ∷ []
strip_last (l ∷ m ∷ ls) = line_end l ∷ strip_last (m ∷ ls)

unfoldable pub lines : Chars → List Chars
unfolding split line_end strip_last
lines w = strip_last (split 10 w)

abbrev after_mark : String → Option (Chars × Chars) → Option (Chars × Chars)
after_mark mark none = none
after_mark mark (some (_, rest)) = split_at (codes mark) rest

-- the branch that a line of the plan names
unfoldable pub branch_line : Chars → Option Chars
unfolding split_at trim is_whitespace
branch_line line = elim (after_mark ":**" (split_at (codes "**Integration branch") line)) [
  | none ↦ none
  | some (_, value) ↦
      let branch = trim is_whitespace (trim (λ c. c == b'`') (trim is_whitespace value)) in
      if is_empty branch then none else some branch
]

unfoldable pub branch_lines : List Chars → List Chars
unfolding branch_line
branch_lines [] = []
branch_lines (l ∷ ls) =
    let rest = branch_lines ls in elim (branch_line l) [ none ↦ rest | some b ↦ b ∷ rest ]

abbrev map_text : Option String → Option Chars
map_text none = none
map_text (some s) = some (codes s)

abbrev or_empty : Option Chars → Chars
or_empty none = []
or_empty (some w) = w

abbrev first_entry : {V : Type 0} → List (LogEntry V) → Option (LogEntry V)
first_entry [] = none
first_entry (e ∷ _) = some e

module _ {V : Type 0} ⦃u : UlidText⦄ ⦃x : External V⦄ (p : Payloads V) where
  open x use {get, as_str, as_array}
  open p use {parse_value, join_words, read_plan}

  -- every element, if all are texts
  unfoldable pub all_texts : List V → Option (List String)
  all_texts [] = some []
  all_texts (v ∷ vs) =
      let rest = all_texts vs in
      elim (as_str v) [ none ↦ none | some s ↦ elim rest [ none ↦ none | some ss ↦ some (s ∷ ss) ] ]

  -- a text that holds an object is read as that object
  unfoldable pub parsed_input : V → Option V
  parsed_input input = elim (as_str input) [ none ↦ some input | some text ↦ parse_value text ]

  unfoldable pub joined : Option (List V) → Option Chars
  unfolding all_texts
  joined none = none
  joined (some words) = elim (all_texts words) [ none ↦ none | some ws ↦ some (join_words ws) ]

  unfoldable pub command_text : V → Option Chars
  unfolding joined
  command_text command = elim (as_str command) [
    | some text ↦ some (codes text)
    | none ↦ joined (as_array command)
  ]

  abbrev and_then {ℓ} : {A B : Type ℓ} → Option A → (A → Option B) → Option B
  and_then none f = none
  and_then (some a) f = f a

  abbrev shell_tools : List String
  shell_tools =
      "Bash" ∷ "bash" ∷ "shell" ∷ "exec_command" ∷ "shell_command" ∷ "run_shell_command" ∷ []

  -- the command of a tool that runs a shell
  unfoldable pub shell_command : V → Option Chars
  unfolding parsed_input command_text split
  shell_command payload =
      and_then (or_else (text_of (get payload "tool_name")) (text_of (get payload "toolName")))
        (λ tool.
          if not (is_one_of shell_tools (after_last b'.' (codes tool)))
          then none
          else and_then (or_else (get payload "tool_input") (get payload "toolInput")) (λ raw.
            and_then (parsed_input raw)
              (λ input. and_then (or_else (get input "command") (get input "cmd")) command_text)))

  abbrev plan_text : Context V → Option Chars
  plan_text ctx = map_text (
      text_of (
        get_in
          (elim (find (is_type "loop.plan") (reverse ctx.entries)) [
            | none ↦ none
            | some e ↦ some e.body
          ])
          "text"))

  abbrev plan_file : Context V → Option Chars
  plan_file ctx =
      and_then (first_entry ctx.entries) (λ e. and_then (text_of (get e.body "loop_dir")) read_plan)

  unfoldable pub integration_branches : Context V → List Chars
  unfolding lines branch_lines
  integration_branches ctx =
      branch_lines (lines (or_empty (or_else (plan_text ctx) (plan_file ctx))))

-- what `check` answers: `{}`, or the denial with the rule's reason
pub data Answer : Type 0 where
  pass : Answer
  deny : Rule → Answer

-- a `loop.guard` event, for the log of a loop
pub record GuardEvent : Type 0 where
  pub loop : ℕ
  pub session : ℕ
  pub rule : Rule
  pub command : Chars

pub data CheckError : Type 0 where
  no_record : Error → CheckError
  no_context : ContextError → CheckError
  not_appended : CheckError

-- how `append_daemon_loop_event` ends for an event
abbrev pub Append : Type 0
Append = GuardEvent → Result CheckError (Unit {0})

-- the event that was to be appended, if any, and what the call returns
pub record Verdict : Type 0 where
  pub event : Option GuardEvent
  pub result : Result CheckError Answer

pub record Request (V : Type 0) : Type 0 where
  pub session : ℕ
  pub agent : String
  pub payload : V

module _ {V : Type 0} ⦃u : UlidText⦄ ⦃x : External V⦄ (p : Payloads V) where
  open x use {get}

  unfoldable pub scope_of : Request V → Context V → Scope
  unfolding integration_branches
  scope_of request ctx = record {
    branches = integration_branches p ctx;
    cwd = map_text (text_of (get request.payload "cwd"));
    fix = is_text ctx.role "fix";
  }

abbrev pub or_text : Option String → String → String
or_text none text = text
or_text (some agent) text = agent

-- the agent that the session's body names, or the one in the request
abbrev pub agent_of :
    {V : Type 0} → ⦃u : UlidText⦄ → ⦃x : External V⦄ → Request V → SessionRow V → String
agent_of ⦃x = x⦄ request row = or_text (text_of (x.get row.body "agent")) request.agent

-- only these agents can cancel a tool call
unfoldable pub answer : String → Rule → Answer
answer agent rule = if one_of ("claude" ∷ "codex" ∷ []) agent then deny rule else pass

unfoldable pub passed : Result CheckError Answer → Verdict
passed result = record { event = none; result = result }

-- the event is appended before the agent is looked at
unfoldable pub deny_command : Append → String → GuardEvent → Verdict
unfolding answer
deny_command append agent event = record {
  event = some event;
  result = append event >> ok (answer agent event.rule);
}

module _ {V : Type 0} ⦃u : UlidText⦄ ⦃x : External V⦄ where
  unfoldable pub judge :
      Append → Request V → SessionRow V → Context V → Chars → Option Rule → Verdict
  unfolding deny_command passed
  judge append request row ctx command none = passed (ok pass)
  judge append request row ctx command (some rule) =
      deny_command append (agent_of request row)
        (record { loop = ctx.id; session = row.id; rule = rule; command = command })

module _ {V : Type 0} ⦃u : UlidText⦄ ⦃x : External V⦄ (o : Outside) (p : Payloads V)
    (append : Append) (request : Request V) where
  unfoldable pub check_command : SessionRow V → Context V → Option Chars → Verdict
  unfolding scope_of judge classify passed
  check_command row ctx none = passed (ok pass)
  check_command row ctx (some command) =
      judge append request row ctx command (classify o 9 (scope_of p request ctx) command)

  unfoldable pub check_context : SessionRow V → Option (Context V) → Verdict
  unfolding shell_command check_command passed
  check_context row none = passed (ok pass)
  check_context row (some ctx) = check_command row ctx (shell_command p request.payload)

  -- `none` where the climb of `context` has no fuel left
  unfoldable pub check_climbed : SessionRow V → Climbed V → Option Verdict
  unfolding check_context passed
  check_climbed row none = none
  check_climbed row (some (err error)) = some (passed (err (no_context error)))
  check_climbed row (some (ok ctx)) = some (check_context row ctx)

  unfoldable pub check_found : Logs V → ℕ → Result Error (SessionRow V) → Option Verdict
  unfolding context check_climbed passed
  check_found logs sessions (err error) = some (passed (err (no_record error)))
  check_found logs sessions (ok row) = check_climbed row (context logs sessions row.id none)

  unfoldable pub check : Logs V → ℕ → Tables V → Option Verdict
  unfolding get_record check_found
  check logs sessions t = check_found logs sessions (get_record t (u.show_ulid request.session))
