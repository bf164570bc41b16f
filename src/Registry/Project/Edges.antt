-- ===== src/Registry/Project/Edges.antt =====
-- `project_edge` and `remove_action_edges`: dependency edges and the edges of triggers.
pub mod Steps
use dotfile.Prelude.{
  ℕ, String, Bool, false, Option, none, some, List, [], ◌∷◌, Result, ok, err, ok_or, guard, ◌>>=◌,
  ◌>>◌, ◌&&◌, str_eq, one_of, any, delete, if◌then◌else◌, ◌==◌,
}
use dotfile.Entry.{LogEntry}
use dotfile.External.{UlidText, External}
use dotfile.Registry.Schema.{Edge, Tables, Error, sqlite, invalid_event}
use dotfile.Registry.Schema.{no_edges, edge_without_id, bad_edge_kind}
use dotfile.Registry.Fields.{str_field, required_str, parse_id, required_id}

abbrev pub edge_kinds : List String
edge_kinds = "depends_on" ∷ "block_on" ∷ "parent" ∷ []

module _ {V : Type 0} where
  -- `INSERT INTO edges`: the id is the primary key
  unfoldable pub insert_edge : Edge V → List (Edge V) → Result Error (List (Edge V))
  insert_edge edge edges =
      if any (λ r. r.id == edge.id) edges then err sqlite else ok (edge ∷ edges)

abbrev pub text_is : Option String → String → Bool
text_is none s = false
text_is (some t) s = str_eq t s

module _ {V : Type 0} ⦃x : External V⦄ where
  open x use {get, as_array}

  abbrev pub array_field : V → String → Option (List V)
  array_field v field = elim (get v field) [ none ↦ none | some w ↦ as_array w ]

module _ {V : Type 0} ⦃u : UlidText⦄ ⦃x : External V⦄ where
  open u use {show_ulid}
  open x use {extract_text}

  -- the closure `field`
  unfoldable pub edge_field : V → String → Result Error ℕ
  unfolding parse_id
  edge_field edge name = do
    value ← ok_or (str_field edge name) (invalid_event edge_without_id)
    parse_id value

  unfoldable pub insert_action_edges : List V → List (Edge V) → Result Error (List (Edge V))
  unfolding edge_field insert_edge
  insert_action_edges [] edges = ok edges
  insert_action_edges (v ∷ vs) edges = do
    id ← edge_field v "id"
    source ← edge_field v "source"
    target ← edge_field v "target"
    let row : Edge V = record {
      id = id;
      source = source;
      target = target;
      kind = "block_on";
      body = v;
    }
    inserted ← insert_edge row edges
    insert_action_edges vs inserted

  -- the edges of the trigger that the session owns
  abbrev pub is_action_edge : String → ℕ → Edge V → Bool
  is_action_edge trigger owner r =
      text_is (extract_text r.body "trigger_id") trigger
      && text_is (extract_text r.body "owner") (show_ulid owner)

  unfoldable pub remove_action_edges : Tables V → LogEntry V → Result Error (Tables V)
  unfolding required_str
  remove_action_edges t e = do
    id ← required_str e "trigger_id"
    ok (record t { edges = delete (is_action_edge id e.session_id) t.edges })

  register_action : Tables V → LogEntry V → Result Error (Tables V)
  unfolding insert_action_edges
  register_action t e = do
    vs ← ok_or (array_field e.body "edges") (invalid_event no_edges)
    edges ← insert_action_edges vs t.edges
    ok (record t { edges = edges })

  unfoldable pub edge_kind : LogEntry V → Result Error String
  unfolding required_str
  edge_kind e =
      if str_eq e.event_type "session.depends_on"
      then ok "depends_on"
      else if str_eq e.event_type "session.block_on"
      then ok "block_on"
      else required_str e "kind"

  unfoldable pub add_edge : Tables V → LogEntry V → Result Error (Tables V)
  unfolding required_id edge_kind insert_edge
  add_edge t e = do
    target ← required_id e "target"
    kind ← edge_kind e
    guard (one_of edge_kinds kind) (invalid_event bad_edge_kind)
    let row : Edge V = record {
      id = e.event_id;
      source = e.session_id;
      target = target;
      kind = kind;
      body = e.body;
    }
    edges ← insert_edge row t.edges
    ok (record t { edges = edges })

  remove_edge : Tables V → LogEntry V → Result Error (Tables V)
  unfolding required_id
  remove_edge t e = do
    id ← required_id e "edge_id"
    ok (record t { edges = delete (λ r. r.id == id && r.source == e.session_id) t.edges })

  unfoldable pub project_edge : Tables V → LogEntry V → Result Error (Tables V)
  unfolding register_action remove_action_edges add_edge remove_edge
  project_edge t e =
      if str_eq kind "edge.action_registered"
      then register_action t e
      else if one_of ("edge.action_removed" ∷ "edge.action_fired" ∷ "edge.action_failed" ∷ []) kind
      then remove_action_edges t e
      else if one_of ("edge.added" ∷ "session.depends_on" ∷ "session.block_on" ∷ []) kind
      then add_edge t e
      else if str_eq kind "edge.removed"
      then remove_edge t e
      else ok t
    where
      open e use {event_type as kind}
