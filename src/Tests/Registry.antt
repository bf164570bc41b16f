-- ===== src/Tests/Registry.antt =====
-- The registry on one small history: two sessions, a workspace, an edge and a message.
use dotfile.Prelude.{
  ℕ, ◌+◌, Option, select, length, List, [], ◌∷◌, Result, ok, err, none, some, ◌≡◌, refl, inl, ◌⊎◌,
  ◌==◌, ◌≤◌, any, false, take, drop, split_once,
}
use dotfile.Entry.{LogEntry, LogRead}
use dotfile.Tests.Json.{
  Json, text, number, object, field, no_fields, json_external, stroke_ulids, entry,
}
use dotfile.Registry.Schema.{WorkspaceRow, Tables, Error, alias_range, invalid_event}
use dotfile.Registry.Apply.{
  apply_all, apply_entry, apply_new, empty_tables, dispatch, finish_done, record_applied, max_seq,
}
use dotfile.Registry.Project.Sessions.{project_session}
use dotfile.Registry.Project.Workspaces.{project_workspace}
use dotfile.Registry.Project.Messages.{project_message, upsert_message}
use dotfile.Registry.Project.Messages.{find_message, bare_message, delivered_at}
use dotfile.Registry.Project.Messages.Order.{project_message-sent_comm}
use dotfile.Registry.Project.Sessions.Moves.{InState}
use dotfile.Registry.States.{apply_new-InState}
use dotfile.Registry.Fields.{i64_max}
use dotfile.Registry.Store.{Registry, RebuildReport, Reads, next_alias, max_alias, rebuild}
use dotfile.Registry.Store.{for_each_log, sort_pairs}
use dotfile.Registry.CatchUp.{
  catch_up, catch_up_each, applied_count, last_applied, visit_log, finish_catch_up,
}
use dotfile.Registry.Events.{is_event, is_process_exit, latest_event, latest_process_exit}
use dotfile.Registry.Events.Latest.{Latest, latest_event-Latest}
use dotfile.Registry.Store.Aliases.{next_alias_free}
use dotfile.Registry.Store.Rebuild.{rebuild_lem, all_entries}
use dotfile.Session.{running, event_type, display}
use dotfile.Registry.Replay.{apply_entry_repeat}
use dotfile.Registry.Owners.{
  Owned, Addressed, apply_all-workspace_owner, apply_all-message_recipient,
}
use dotfile.Registry.Index.{Indexed, apply_all-Indexed}

abbrev history : List (LogEntry Json)
history =
    entry 1 7 1 "a" "session.created" (object (field "alias" (number 1) no_fields))
    ∷ entry 2 8 1 "b" "session.created" (object (field "alias" (number 2) no_fields))
    ∷ entry 3 7 2 "c" "workspace.created" (object (field "workspace_id" (text "w") no_fields))
    ∷ entry 4 7 3 "d" "session.depends_on" (object (field "target" (text "IIIIIIII") no_fields))
    ∷ entry 5 8 2 "e" "message.delivered" (object (field "message_id" (text "IIIIII") no_fields))
    ∷ entry 6 7 4 "f" "message.sent" (object (field "recipient" (text "IIIIIIII") no_fields))
    ∷ []

abbrev tables_of : Result Error (Tables Json) → Tables Json
tables_of (ok t) = t
tables_of (err e) = empty_tables

-- opens what a run calls
machine : Unit {0}
unfolding apply_all apply_entry apply_new dispatch finish_done record_applied max_seq split_once
    project_session project_workspace project_message upsert_message
machine = tt

abbrev run : List (LogEntry Json) → Tables Json
run es = tables_of (apply_all empty_tables es)

abbrev after_three : List (LogEntry Json)
after_three = take 3 history

history_accepted : apply_all empty_tables history ≡ ok (run history)
unfolding machine
history_accepted = refl

rest_accepted : apply_all (run after_three) (drop 3 history) ≡ ok (run history)
unfolding machine
rest_accepted = refl

apply_all-Indexed_example : Indexed (run history)
apply_all-Indexed_example = apply_all-Indexed (run history) history history_accepted

abbrev first : LogEntry Json
first = entry 1 7 1 "a" "session.created" (object (field "alias" (number 1) no_fields))

apply_entry_repeat_example : apply_entry (run (first ∷ [])) first ≡ ok (run (first ∷ []))
unfolding machine
apply_entry_repeat_example = apply_entry_repeat empty_tables (run (first ∷ [])) first refl

abbrev forged : LogEntry Json
forged = record first { prev_hash = "z" }

abbrev w : WorkspaceRow Json
w = record {
  id = "w";
  owner_session_id = 7;
  removed = false;
  body = object (field "workspace_id" (text "w") no_fields);
}

apply_all-workspace_owner_example : Owned "w" 7 (run history)
unfolding machine
apply_all-workspace_owner_example =
    apply_all-workspace_owner (run after_three) (run history) (drop 3 history) "w" 7 rest_accepted
      (w, refl, refl)

abbrev noted : List (LogEntry Json)
noted = take 5 history

last_accepted : apply_all (run noted) (drop 5 history) ≡ ok (run history)
unfolding machine
last_accepted = refl

apply_all-message_recipient_example : Addressed 6 8 (run history)
unfolding machine
apply_all-message_recipient_example =
    apply_all-message_recipient (run noted) (run history) (drop 5 history) 6 8 last_accepted
      (delivered_at 105 (bare_message 6 8), refl, refl)

abbrev sent : LogEntry Json
sent = entry 6 7 4 "f" "message.sent" (object (field "recipient" (text "IIIIIIII") no_fields))

abbrev delivered : LogEntry Json
delivered =
    entry 5 8 2 "e" "message.delivered" (object (field "message_id" (text "IIIIII") no_fields))

abbrev base : Tables Json
base = run (take 4 history)

abbrev note : Tables Json → LogEntry Json → Tables Json
note t e = tables_of (project_message t e)

project_message-sent_comm_example :
    find_message 6 (note (note base sent) delivered).messages
    ≡ find_message 6 (note (note base delivered) sent).messages
unfolding machine
project_message-sent_comm_example =
    project_message-sent_comm sent delivered base (note base sent) (note (note base sent) delivered)
      (note base delivered) (note (note base delivered) sent) refl (inl refl) refl refl refl refl 6

abbrev started : LogEntry Json
started = entry 7 7 2 "g" "session.running" (object no_fields)

abbrev next : Tables Json → LogEntry Json → Tables Json
next t e = tables_of (apply_new t e)

apply_new-InState_example : InState 7 "running" (next (run (first ∷ [])) started)
unfolding machine event_type display
apply_new-InState_example =
    apply_new-InState (run (first ∷ [])) (next (run (first ∷ [])) started) started running (λ e. cc)
      refl refl

abbrev registry : Registry Json
registry = record { connection = run history; alias_floor = 1 }

next_alias_free_example :
    ((a : ℕ) × (next_alias registry ≡ ok a)
      × (1 ≤ a)
      × (any (λ row. row.alias == a) registry.connection.aliases ≡ false))
    ⊎ ((next_alias registry ≡ err (invalid_event alias_range))
        × (m : ℕ) × (max_alias registry.connection.aliases ≡ some m)
        × (i64_max ≤ m))
next_alias_free_example = next_alias_free registry

abbrev reads : Reads Json
reads =
    (
      8,
      some (record {
        entries =
            entry 2 8 1 "b" "session.created" (object (field "alias" (number 2) no_fields)) ∷ [];
        truncated_line = some 2;
        valid_bytes = 0;
        head_hash = "";
      }),
    )
    ∷ (
      7,
      some (record {
        entries = first ∷ started ∷ [];
        truncated_line = none;
        valid_bytes = 0;
        head_hash = "";
      }),
    )
    ∷ []

rebuild_lem_example :
    ((error : Error) × ((rebuild registry reads).1 ≡ err error)
      × ((rebuild registry reads).0 ≡ registry))
    ⊎ ((report : RebuildReport) × ((rebuild registry reads).1 ≡ ok report)
        × (apply_all empty_tables (all_entries reads) ≡ ok (rebuild registry reads).0.connection)
        × (report.events ≡ 3)
        × ((rebuild registry reads).0.alias_floor ≡ 1)
        × Indexed (rebuild registry reads).0.connection)
rebuild_lem_example = rebuild_lem registry reads

abbrev log_of : ℕ → Option (LogRead Json)
log_of session = some (record {
  entries = select (λ e. e.session_id == session) history;
  truncated_line = none;
  valid_bytes = 0;
  head_hash = "";
})

abbrev logs : Reads Json
logs = (8, log_of 8) ∷ (7, log_of 7) ∷ []

abbrev behind : Registry Json
behind = record { connection = run after_three; alias_floor = 1 }

-- the visitor counts the entries that it is given
abbrev count_entries : ℕ → List (LogEntry Json) → Result Error ℕ
count_entries n es = ok (n + length es)

caught_up :
    (catch_up behind count_entries 0 logs).1
    ≡ ok (some (record { events = 6; truncated_logs = [] }, 6))
unfolding machine catch_up catch_up_each for_each_log applied_count last_applied visit_log
    finish_catch_up sort_pairs
caught_up = refl

latest_event-Latest_example :
    Latest
      (is_event 7 "session.created")
      registry.connection.applied
      (latest_event registry 7 "session.created")
    × Latest (is_process_exit 7) registry.connection.applied (latest_process_exit registry 7)
latest_event-Latest_example = latest_event-Latest registry 7 "session.created"

latest_created : latest_event registry 7 "session.created" ≡ some first
unfolding machine latest_event
latest_created = refl
