-- ===== src/Tests/Guard.antt =====
-- Shell lines cut into commands, the rules that they break, and a session's loop.
use dotfile.Prelude.{
  String, mem, ℕ, [], ◌∷◌, ◌++◌, ◌≡◌, refl, none, some, false, true, ok, Option, Result, All, drop,
  arith, ◌==◌, if◌then◌else◌,
}
use dotfile.Tests.Json.{Json, text, object, field, no_fields, json_external, stroke_ulids, entry}
use dotfile.Guard.Shell.{Chars, Command, codes, commands}
use dotfile.Guard.Shell.Quoted.{render, Quotable, commands-render}
use dotfile.Guard.Arguments.{
  Outside, file_name, command_start, is_wrapper, push_targets_integration, wrapper_options,
}
use dotfile.Guard.Arguments.Start.{AtProgram, Leads, lead_end, lead_assignment, lead_wrapper}
use dotfile.Guard.Arguments.Grammar.{Starts, command_start-Starts}
use dotfile.Guard.Classify.{Scope, no_merge, no_push, no_agent_spawn, classify, program_rule}
use dotfile.Guard.Classify.Rules.{classify-program, push_targets_integration-branch}
use dotfile.Guard.Context.{Context, ContextError, Logs, context}
use dotfile.Guard.Context.Ends.{context-ends}
use dotfile.Guard.Check.{
  Payloads, Request, GuardEvent, Append, Verdict, pass, deny, check, shell_command,
}
use dotfile.Guard.Check.Judged.{Judged, check-Judged}
use dotfile.Registry.Resolve.{get_record}
use dotfile.Tests.Edges.{tables, row}

abbrev line : Chars
line = codes "A=1 git push 'a;b' | echo \"$(grok hi)\" # no"

cut :
    commands 9 line
    ≡ (codes "A=1" ∷ codes "git" ∷ codes "push" ∷ codes "a;b" ∷ [])
      ∷ (codes "grok" ∷ codes "hi" ∷ [])
      ∷ (codes "echo" ∷ [])
      ∷ []
unfolding commands
cut = refl

abbrev merge_words : Command
merge_words = codes "sudo" ∷ codes "/bin/git" ∷ codes "merge" ∷ codes "a;b" ∷ []

abbrev merge_line : Command
merge_line = codes "A=1" ∷ merge_words

merge_line-Quotable : All Quotable merge_line
merge_line-Quotable = (
  (refl, omega arith),
  ((refl, omega arith), ((refl, omega arith), ((refl, omega arith), ((refl, omega arith), tt)))),
)

commands-render_example : commands 9 (render merge_line) ≡ merge_line ∷ []
commands-render_example = commands-render 8 (codes "A=1") merge_words merge_line-Quotable

abbrev sudo_line : Command
sudo_line = codes "A=1" ∷ codes "sudo" ∷ codes "-n" ∷ codes "-u" ∷ codes "me" ∷ codes "git" ∷ []

command_start-Starts_example : Starts sudo_line (drop (command_start sudo_line) sudo_line)
command_start-Starts_example = command_start-Starts sudo_line

sudo_line_start : drop (command_start sudo_line) sudo_line ≡ codes "git" ∷ []
unfolding command_start
sudo_line_start = refl

abbrev outside : Outside
outside = record { current_branch = λ d. some (codes "main"); glob_matches = λ p b. false }

abbrev scope : Scope
scope = record { branches = codes "main" ∷ []; cwd = some (codes "/r"); fix = false }

merge_refused :
    classify outside 9 scope (codes "cd x && A=1 sudo -u me /usr/bin/git -C y merge z")
    ≡ some no_merge
unfolding classify
merge_refused = refl

push_refused :
    classify outside 9 scope (codes "bash -lc 'git push origin +HEAD:refs/heads/main'")
    ≡ some no_push
unfolding classify
push_refused = refl

other_push : classify outside 9 scope (codes "git push origin lane") ≡ none
unfolding classify
other_push = refl

spawn_refused : classify outside 9 scope (codes "echo `codex -m o exec hi`") ≡ some no_agent_spawn
unfolding classify
spawn_refused = refl

merge-Leads : Leads merge_line (codes "/bin/git" ∷ codes "merge" ∷ codes "a;b" ∷ [])
unfolding is_wrapper wrapper_options
merge-Leads = lead_assignment refl (lead_wrapper refl refl refl lead_end)

merge_at : AtProgram (codes "/bin/git" ∷ codes "merge" ∷ codes "a;b" ∷ [])
unfolding is_wrapper
merge_at = (refl, refl)

git_named : file_name (codes "/bin/git") ≡ some (codes "git")
unfolding file_name
git_named = refl

classify-program_example :
    classify outside 9 scope (render merge_line)
    ≡ program_rule outside
        (classify outside 8 scope)
        scope
        (codes "git")
        (codes "merge" ∷ codes "a;b" ∷ [])
classify-program_example =
    classify-program outside scope 8 (codes "A=1") merge_words (codes "/bin/git") (codes "git")
      (codes "merge" ∷ codes "a;b" ∷ []) merge_line-Quotable merge-Leads merge_at git_named

push_targets_integration-branch_example :
    push_targets_integration outside
      (codes "origin" ∷ (codes "+lane" ++ b':' ∷ (codes "refs/heads/" ++ codes "main")) ∷ [])
      (codes "main" ∷ [])
      none
    ≡ true
push_targets_integration-branch_example =
    push_targets_integration-branch outside (codes "main" ∷ []) none (codes "origin")
      (codes "+lane") (codes "main") refl refl refl refl refl refl

-- the log of a loop, and of a session that it started
abbrev logs : Logs Json
logs id =
    if id == 7
    then ok (entry 1 7 1 "a" "session.created" (object (field "kind" (text "loop") no_fields)) ∷ [])
    else if id == 8
    then ok (
        entry 2 8 1 "b" "session.created"
          (object (field "parent_session_id" (text "IIIIIII") no_fields))
        ∷ [])
    else ok []

logs-absent : (id : ℕ) → mem id (7 ∷ 8 ∷ []) ≡ false → logs id ≡ ok []
logs-absent id h = ground arith

context-ends_example :
    (r : Result ContextError (Option (Context Json))) × (context logs 2 8 none ≡ some r)
context-ends_example = context-ends logs (7 ∷ 8 ∷ []) logs-absent 8 none

abbrev loop : Context Json
loop = record {
  id = 7;
  role = none;
  entries = entry 1 7 1 "a" "session.created" (object (field "kind" (text "loop") no_fields)) ∷ [];
}

loop_found : context logs 2 8 none ≡ some (ok (some loop))
unfolding context
loop_found = refl

abbrev payloads : Payloads Json
payloads = record { parse_value = λ s. none; join_words = λ ws. []; read_plan = λ d. none }

-- a session of an agent runs a shell command
abbrev request : String → String → Request Json
request agent command = record {
  session = 8;
  agent = agent;
  payload = object (
      field "tool_name" (text "Bash")
        (field "tool_input" (object (field "command" (text command) no_fields)) no_fields));
}

abbrev appended : Append
appended event = ok tt

abbrev judged : String → String → Option Verdict
judged agent command = check outside payloads appended (request agent command) logs 2 tables

abbrev spawn : GuardEvent
spawn = record { loop = 7; session = 8; rule = no_agent_spawn; command = codes "grok hi" }

status_passes : judged "claude" "git status" ≡ some (record { event = none; result = ok pass })
unfolding check
status_passes = refl

claude_denied :
    judged "claude" "grok hi"
    ≡ some (record { event = some spawn; result = ok (deny no_agent_spawn) })
unfolding check
claude_denied = refl

grok_observed : judged "grok" "grok hi" ≡ some (record { event = some spawn; result = ok pass })
unfolding check
grok_observed = refl

registered : get_record tables "IIIIIIII" ≡ ok (row 8)
unfolding get_record
registered = refl

command_found : shell_command payloads (request "grok" "grok hi").payload ≡ some (codes "grok hi")
unfolding shell_command
command_found = refl

check-Judged_example :
    (verdict : Verdict) × (judged "grok" "grok hi" ≡ some verdict)
    × Judged outside payloads appended
        (request "grok" "grok hi")
        (row 8)
        loop
        (codes "grok hi")
        verdict
check-Judged_example =
    check-Judged outside payloads appended (request "grok" "grok hi") logs 2 tables (row 8) loop
      (codes "grok hi") registered loop_found command_found
