-- ===== src/Tests/Limits.antt =====
-- The spawn limits on a loop session, its child and its grandchild.
use dotfile.Prelude.{ℕ, ◌+◌, String, [], ◌∷◌, Result, ok, err, none, some, ◌≡◌, refl}
use dotfile.Tests.Json.{
  Json, Fields, text, object, field, no_fields, json_external, stroke_ulids, entry,
}
use dotfile.Registry.Schema.{SessionRow, AppliedRow, Tables}
use dotfile.Registry.Apply.{empty_tables}
use dotfile.Limits.{LimitError, Limits, spawn_limit, depth}
use dotfile.Limits.Scope.{spawn_scope, session_scope}
use dotfile.Limits.Check.{check_spawn_limits}
use dotfile.Limits.Check.Ends.{check_spawn_limits-ends}
use dotfile.Limits.Check.Within.{Within, check_spawn_limits-Within}

abbrev row : ℕ → Fields → SessionRow Json
row id fields = record {
  id = id;
  name = none;
  state = "running";
  workspace_id = none;
  cwd = none;
  repos = [];
  device_id = 9;
  created_at_ms = 1;
  updated_at_ms = 1;
  body = object fields;
}

abbrev creation : ℕ → Fields → AppliedRow Json
creation id fields = record {
  event_id = 10 + id;
  session_id = id;
  seq = 1;
  entry = entry (10 + id) id 1 "a" "session.created" (object fields);
}

abbrev of_loop : Fields
of_loop = field "kind" (text "loop") no_fields

abbrev below : String → Fields
below parent = field "parent_session_id" (text parent) no_fields

abbrev tables : Tables Json
tables = record empty_tables {
  sessions = row 1 of_loop ∷ row 2 (below "I") ∷ row 3 (below "II") ∷ [];
  aliases =
      (record { alias = 1; session_id = 1 })
      ∷ (record { alias = 2; session_id = 2 })
      ∷ (record { alias = 3; session_id = 3 })
      ∷ [];
  applied = creation 1 of_loop ∷ creation 2 (below "I") ∷ creation 3 (below "II") ∷ [];
}

abbrev limits : Limits
limits = record { max_children = 2; max_depth = 3; max_spawns = 3 }

in_loop : spawn_scope tables (some 3) ≡ some (ok (some (session_scope 1)))
unfolding spawn_scope
in_loop = refl

allowed : check_spawn_limits tables limits (some 3) ≡ some (ok tt)
unfolding check_spawn_limits
allowed = refl

too_deep :
    check_spawn_limits tables (record limits { max_depth = 2 }) (some 3)
    ≡ some (err (spawn_limit (depth 3 2)))
unfolding check_spawn_limits
too_deep = refl

check_spawn_limits-ends_example :
    (r : Result LimitError (Unit {0})) × (check_spawn_limits tables limits (some 3) ≡ some r)
check_spawn_limits-ends_example = check_spawn_limits-ends tables limits (some 3)

check_spawn_limits-Within_example : Within tables limits 3
check_spawn_limits-Within_example = check_spawn_limits-Within tables limits 3 allowed
