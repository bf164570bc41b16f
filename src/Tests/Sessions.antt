-- ===== src/Tests/Sessions.antt =====
-- Sessions 7 and 8: a change of state, one that is refused, and a new parent.
use dotfile.Prelude.{ℕ, suc, ◌≡◌, refl, String, split_once, Option, none, some, [], ok, err, Result}
use dotfile.Tests.Json.{Json, nothing, text, object, field, no_fields, json_external, strokes}
use dotfile.Tests.Edges.{more_strokes, tables, row}
use dotfile.Tests.Writer.{journal, writer_laws}
use dotfile.Session.{SessionState, running, blocked, reopened, display, transition}
use dotfile.Session.Lifecycle.{Arrow, transition-iff-Arrow}
use dotfile.Limits.Check.{tag_loop_spawn}
use dotfile.Registry.Schema.{SessionRow, Tables}
use dotfile.Registry.Apply.{max_seq, apply_new, finish_done, dispatch, record_applied}
use dotfile.Registry.Project.Sessions.{project_session}
use dotfile.Registry.Project.Sessions.Moves.{InState}
use dotfile.Registry.Resolve.{get_record}
use dotfile.Edges.Add.{append_untagged, record_call}
use dotfile.Calls.{ServiceError, bad_transition, call}
use dotfile.Sessions.{Host, search_ancestors}
use dotfile.Sessions.Service.{change_state, reparent}
use dotfile.Sessions.Moved.{change_state-Arrow, change_state-refused}
use dotfile.Sessions.Above.{Above, search_ancestors-ends}
use dotfile.Sessions.Moves.{reparent-Above}

abbrev id_text : Option ℕ → Json
id_text none = nothing
id_text (some id) = text (strokes (suc id))

abbrev host : Host Json
host = record {
  journal = journal;
  creation_body = λ alias name workspace parent. object no_fields;
  renamed_body = λ name caller. object no_fields;
  reparented_body = λ parent caller. object (field "parent" (id_text parent) no_fields);
  moved_body = λ caller. object no_fields;
  stopped_body = object no_fields;
  alias_floor = 1;
  reserve_counter = some;
  finish_spawned = λ row. ok tt;
}

abbrev after : Tables Json
after = (change_state host "#1" blocked none tables).1

abbrev session : ℕ → String → SessionRow Json
session id state = record {
  id = id;
  name = some "I";
  state = state;
  workspace_id = none;
  cwd = none;
  repos = [];
  device_id = 9;
  created_at_ms = 1;
  updated_at_ms = 150;
  body = object no_fields;
}

blocked_now : change_state host "#1" blocked none tables ≡ (ok (session 7 "blocked"), after)
unfolding change_state get_record tag_loop_spawn append_untagged apply_new max_seq finish_done
    dispatch split_once project_session record_applied
blocked_now = refl

change_state-Arrow_example :
    (before : SessionRow Json) × (from : SessionState) × (get_record tables "#1" ≡ ok before)
    × (before.state ≡ display from)
    × Arrow from blocked
    × InState before.id (display blocked) after
    × (get_record after "#1" ≡ ok (session 7 "blocked"))
change_state-Arrow_example =
    change_state-Arrow host writer_laws tables after "#1" blocked none (session 7 "blocked")
      blocked_now

named : get_record tables "#1" ≡ ok (row 7)
unfolding get_record
named = refl

no-Arrow : ¬ Arrow running reopened
unfolding transition
no-Arrow arrow = refused ((transition-iff-Arrow running reopened).1 arrow)
  where
    refused : transition running reopened ≡ ok reopened → ⊥
    refused h = cc

change_state-refused_example :
    change_state host "#1" reopened none tables
    ≡ (err (bad_transition (record { from = running; to = reopened })), tables)
unfolding display
change_state-refused_example =
    change_state-refused host tables "#1" running reopened none (row 7) named refl no-Arrow

abbrev child : SessionRow Json
child = record (session 7 "running") {
  body = object (field "parent_session_id" (text (strokes 9)) no_fields);
}

abbrev moved : Tables Json
moved = (reparent host "#1" (some "#2") none tables).1

under : reparent host "#1" (some "#2") none tables ≡ (ok child, moved)
unfolding reparent get_record tag_loop_spawn append_untagged apply_new max_seq finish_done dispatch
    split_once project_session record_applied record_call
under = refl

reparent-Above_example :
    (t₁ : Tables Json) × (below : SessionRow Json) × (above : SessionRow Json) × (call journal none
        "session.reparent"
        (some "#1")
        tables
      ≡ (ok tt, t₁))
    × (get_record t₁ "#1" ≡ ok below)
    × (get_record t₁ "#2" ≡ ok above)
    × ¬ (Above t₁ above.id below.id)
reparent-Above_example = reparent-Above host tables moved "#1" "#2" none child under

search_ancestors-ends_example :
    (r : Result ServiceError (Unit {0})) × (search_ancestors tables 7 (some 8) ≡ some r)
search_ancestors-ends_example = search_ancestors-ends tables 7 (some 8)
