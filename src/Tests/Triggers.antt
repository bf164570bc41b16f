-- ===== src/Tests/Triggers.antt =====
-- Triggers of a few sessions, and the edges that they add.
use dotfile.Prelude.{ℕ, List, [], ◌∷◌, Option, none, some, ok, err, Result, ◌≡◌, refl, arith, codes}
use dotfile.Entry.{LogEntry}
use dotfile.Tests.Json.{
  Json, text, number, object, field, no_fields, json_external, stroke_ulids, strokes, entry,
  number_at,
}
use dotfile.Tests.Edges.{edge, tables, tables-Acyclic}
use dotfile.Registry.Schema.{Edge}
use dotfile.Registry.Project.Edges.{edge_field, insert_action_edges}
use dotfile.Edges.Acyclic.{Acyclic}
use dotfile.Triggers.Search.{check_trigger_cycles}
use dotfile.Triggers.Search.Cycles.{describes_none, describes_edge, check_trigger_cycles-Acyclic}
use dotfile.Triggers.Template.{expand}
use dotfile.Triggers.Template.Pieces.{
  Piece, id_piece, output_piece, plain, template_of, replace_all, IsPlain, expand-pieces,
}
use dotfile.Triggers.Pending.{Trigger, find_trigger, ReadsTrigger, apply_trigger_entry}
use dotfile.Triggers.Pending.Orders.{apply_trigger_entry-commutes}

abbrev described : Json
described = object (
    field "id" (text (strokes 6))
      (field "source" (text (strokes 8)) (field "target" (text (strokes 9)) no_fields)))

check_trigger_cycles-Acyclic_example :
    (r : Result (List ℕ) (Unit {0})) × (check_trigger_cycles tables (edge 6 8 9 ∷ []) ≡ some r)
    × (r ≡ ok tt
        → (es : List (Edge Json)) → insert_action_edges (described ∷ []) tables.edges ≡ ok es
        → Acyclic es)
unfolding edge_field
check_trigger_cycles-Acyclic_example =
    check_trigger_cycles-Acyclic tables (described ∷ []) (edge 6 8 9 ∷ [])
      (describes_edge refl refl describes_none) tables-Acyclic

refused :
    check_trigger_cycles tables (edge 6 8 9 ∷ edge 5 9 7 ∷ []) ≡ some (err (9 ∷ 7 ∷ 8 ∷ 9 ∷ []))
unfolding check_trigger_cycles
refused = refl

abbrev pieces : List Piece
pieces = plain b'{' ∷ id_piece ∷ plain b' ' ∷ output_piece ∷ plain b'}' ∷ []

expand-pieces_example :
    expand (template_of pieces) (codes "{output}") (codes "x{id}")
    ≡ replace_all (codes "{output}") (codes "x{id}") pieces
unfolding IsPlain
expand-pieces_example =
    expand-pieces (codes "{output}") (codes "x{id}") pieces
      (refl, refl, (refl, refl, (refl, refl, tt)))

abbrev trigger : ℕ → ℕ → Trigger Json
trigger id owner = record {
  id = id;
  owner = owner;
  sources = owner ∷ [];
  event = "done";
  action = "send";
  target = none;
  template = "";
  agent = none;
  workspace = none;
  cwd = none;
  spawned_session = none;
  event_offsets = [];
  edges = [];
}

abbrev trigger_of : Option ℕ → Option (Trigger Json)
trigger_of none = none
trigger_of (some id) = some (trigger id 7)

abbrev reader : ReadsTrigger Json
reader = record { read_trigger = λ v. trigger_of (number_at v "id") }

abbrev registering : List (ℕ × Trigger Json)
registering = (4, trigger 4 8) ∷ []

abbrev first : LogEntry Json
first = entry 1 7 1 "" "edge.action_registered" (object (field "id" (number 3) no_fields))

abbrev second : LogEntry Json
second = entry 2 8 1 "" "message.sent" (object (field "trigger_id" (text (strokes 4)) no_fields))

both :
    apply_trigger_entry reader (apply_trigger_entry reader registering first) second
    ≡ (3, trigger 3 7) ∷ []
unfolding apply_trigger_entry
both = refl

apply_trigger_entry-commutes_example :
    find_trigger 4
      (apply_trigger_entry reader (apply_trigger_entry reader registering first) second)
    ≡ find_trigger 4
        (apply_trigger_entry reader (apply_trigger_entry reader registering second) first)
apply_trigger_entry-commutes_example =
    apply_trigger_entry-commutes reader registering first second (λ h. absurd (omega (arith, h)))
      (λ x y a b h. other b) 4
  where
    other : {y : Trigger Json} → reader.read_trigger second.body ≡ some y → ⊥
    other h = cc
