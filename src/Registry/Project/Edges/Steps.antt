-- ===== src/Registry/Project/Edges/Steps.antt =====
-- What `project_edge` may do: edges of a known kind come, or edges go.
use dotfile.Prelude.{
  Bool, true, String, List, [], ◌∷◌, ok, ok_or, >>=-ok, guard, ◌≡◌, ◌==◌, ◌&&◌, refl, sym, subst,
  one_of, delete, guard-ok, by_test, str_eq, arith,
}
use dotfile.Entry.{LogEntry}
use dotfile.External.{UlidText, External}
use dotfile.Registry.Schema.{Tables, Edge, invalid_event, bad_edge_kind, no_edges}
use dotfile.Registry.Project.Edges.{
  edge_kinds, insert_edge, is_action_edge, edge_field, insert_action_edges, remove_action_edges,
  register_action, edge_kind, add_edge, remove_edge, project_edge, array_field,
}
use dotfile.Registry.Fields.{required_str, required_id}
use dotfile.Registry.Step.{Step, idle, edges_changed, KindsOk}

abbrev drops : List String
drops = "edge.action_removed" ∷ "edge.action_fired" ∷ "edge.action_failed" ∷ []

abbrev adds : List String
adds = "edge.added" ∷ "session.depends_on" ∷ "session.block_on" ∷ []

module _ {V : Type 0} where
  delete-KindsOk : (p : Edge V → Bool) (es : List (Edge V)) → KindsOk es → KindsOk (delete p es)
  delete-KindsOk p [] h = tt
  delete-KindsOk p (r ∷ rs) h = ground (arith, delete-KindsOk p rs h.1)

  pub insert_edge_lem :
      (row : Edge V) (es es' : List (Edge V)) → insert_edge row es ≡ ok es' → es' ≡ row ∷ es
  unfolding insert_edge
  insert_edge_lem row es es' h = ground arith

  insert_edge-KindsOk :
      (row : Edge V) (es es' : List (Edge V))
      → one_of edge_kinds row.kind ≡ true
      → insert_edge row es ≡ ok es'
      → KindsOk es
      → KindsOk es'
  insert_edge-KindsOk row es es' k h old =
      subst KindsOk (sym (insert_edge_lem row es es' h)) (k, old)

module _ {V : Type 0} ⦃u : UlidText⦄ ⦃x : External V⦄ where
  insert_action_edges-KindsOk :
      (vs : List V) (es es' : List (Edge V))
      → insert_action_edges vs es ≡ ok es'
      → KindsOk es
      → KindsOk es'
  unfolding insert_action_edges
  insert_action_edges-KindsOk [] es es' h old = subst KindsOk (ground arith) old
  insert_action_edges-KindsOk (v ∷ vs) es es' h old =
      let (id, _, h₁) = >>=-ok (edge_field v "id") _ h in
      let (source, _, h₂) = >>=-ok (edge_field v "source") _ h₁ in
      let (target, _, h₃) = >>=-ok (edge_field v "target") _ h₂ in
      let row : Edge V = record {
        id = id;
        source = source;
        target = target;
        kind = "block_on";
        body = v;
      } in
      let (mid, inserted, rest) = >>=-ok (insert_edge row es) _ h₃ in
      insert_action_edges-KindsOk vs mid es' rest (insert_edge-KindsOk row es mid refl inserted old)

  register_action-Step :
      (t t' : Tables V) (e : LogEntry V) → register_action t e ≡ ok t' → Step e t t'
  unfolding register_action
  register_action-Step t t' e h =
      let (vs, _, h₁) = >>=-ok (ok_or (array_field e.body "edges") (invalid_event no_edges)) _ h in
      let (es, inserted, last) = >>=-ok (insert_action_edges vs t.edges) _ h₁ in
      edges_changed es (insert_action_edges-KindsOk vs t.edges es inserted) (ground arith)

  -- dropping a trigger's edges changes no other table
  pub remove_action_edges_lem :
      (t t' : Tables V) (e : LogEntry V)
      → remove_action_edges t e ≡ ok t'
      → (es : List (Edge V)) × (KindsOk t.edges → KindsOk es) × (t' ≡ record t { edges = es })
  unfolding remove_action_edges
  remove_action_edges_lem t t' e h =
      let (id, _, last) = >>=-ok (required_str e "trigger_id") _ h in
      (
        delete (is_action_edge id e.session_id) t.edges,
        delete-KindsOk (is_action_edge id e.session_id) t.edges,
        ground arith,
      )

  add_edge-Step : (t t' : Tables V) (e : LogEntry V) → add_edge t e ≡ ok t' → Step e t t'
  unfolding add_edge
  add_edge-Step t t' e h =
      let (target, _, h₁) = >>=-ok (required_id e "target") _ h in
      let (kind, _, h₂) = >>=-ok (edge_kind e) _ h₁ in
      let (_, known, h₃) =
        >>=-ok (guard (one_of edge_kinds kind) (invalid_event bad_edge_kind)) _ h₂ in
      let row : Edge V = record {
        id = e.event_id;
        source = e.session_id;
        target = target;
        kind = kind;
        body = e.body;
      } in
      let (es, inserted, last) = >>=-ok (insert_edge row t.edges) _ h₃ in
      edges_changed es
        (insert_edge-KindsOk row t.edges es
          (guard-ok (one_of edge_kinds kind) (invalid_event bad_edge_kind) known) inserted)
        (ground arith)

  remove_edge-Step : (t t' : Tables V) (e : LogEntry V) → remove_edge t e ≡ ok t' → Step e t t'
  unfolding remove_edge
  remove_edge-Step t t' e h =
      let (id, _, last) = >>=-ok (required_id e "edge_id") _ h in
      let p : Edge V → Bool = λ r. r.id == id && r.source == e.session_id in
      edges_changed (delete p t.edges) (delete-KindsOk p t.edges) (ground arith)

  pub project_edge-Step :
      (t t' : Tables V) (e : LogEntry V) → project_edge t e ≡ ok t' → Step e t t'
  unfolding project_edge
  project_edge-Step t t' e h =
      by_test (str_eq e.event_type "edge.action_registered") h (register_action-Step t t' e) (λ h₁.
        by_test (one_of drops e.event_type) h₁
          (λ p. let (es, keeps, q) = remove_action_edges_lem t t' e p in edges_changed es keeps q)
          (λ h₂. by_test (one_of adds e.event_type) h₂ (add_edge-Step t t' e) (λ h₃.
            by_test (str_eq e.event_type "edge.removed") h₃ (remove_edge-Step t t' e)
              (λ h₄. idle (ground arith)))))
