-- ===== src/Edges/Add/Applied.antt =====
-- What the two entries of a call do to the edges of the index.
use dotfile.Prelude.{
  ℕ, ◌+◌, String, List, [], ◌∷◌, Result, ok, err, guard, ◌≡◌, ◌∙◌, ap, sym, refl, ◌⊎◌, inl, inr,
  one_of, split_once, >>=-ok, ok_unique, ◌==◌, arith,
}
use dotfile.Entry.{LogEntry}
use dotfile.External.{UlidText, External}
use dotfile.Registry.Schema.{Edge, Tables, Error, invalid_event, not_consecutive, bad_edge_kind}
use dotfile.Registry.Fields.{sql_number, required_id}
use dotfile.Registry.Project.Edges.{project_edge, add_edge, edge_kind, edge_kinds, insert_edge}
use dotfile.Registry.Project.Sessions.{project_session}
use dotfile.Registry.Apply.{max_seq, finish_done, dispatch, apply_new, apply_entry}
use dotfile.Registry.Steps.{record_applied_lem, apply_entry_cases}

abbrev pub IsDependency : String → Type 0
IsDependency kind = (kind ≡ "session.depends_on") ⊎ (kind ≡ "session.block_on")

module _ {V : Type 0} where
  -- The edges stay, or one from the entry's session to its target comes.
  abbrev pub Added : Tables V → Tables V → ℕ → ℕ → Type 0
  Added t t' source target =
      (t'.edges ≡ t.edges)
      ⊎ ((new : Edge V) × (new.source ≡ source)
          × (new.target ≡ target)
          × (t'.edges ≡ new ∷ t.edges))

module _ {V : Type 0} ⦃u : UlidText⦄ ⦃x : External V⦄ where
  -- a repeat changes nothing, and a new entry leaves the edges that its dispatch leaves
  apply_entry_parts :
      (t t' : Tables V) (e : LogEntry V)
      → apply_entry t e ≡ ok t'
      → (t' ≡ t)
        ⊎ ((t₁ t₂ : Tables V) × (finish_done t e ≡ ok t₁)
            × (dispatch (split_once b'.' e.event_type) t₁ e ≡ ok t₂)
            × (t'.edges ≡ t₂.edges))
  unfolding apply_new
  apply_entry_parts t t' e h = elim (apply_entry_cases t t' e h) [
    | inl (same, row) ↦ inl same
    | inr (fresh, new) ↦
        let (seq, number, h₁) = >>=-ok (sql_number e.seq) _ new in
        let (_, next, h₂) =
          >>=-ok (guard (seq == max_seq e.session_id t.applied + 1) (invalid_event not_consecutive))
            _ h₁ in
        let (t₁, finished, h₃) = >>=-ok (finish_done t e) _ h₂ in
        let (t₂, projected, h₄) = >>=-ok (dispatch (split_once b'.' e.event_type) t₁ e) _ h₃ in
        inr (
          t₁,
          t₂,
          finished,
          projected,
          ap (λ (s : Tables V). s.edges) (record_applied_lem t₂ t' e h₄),
        )
  ]

  -- an entry whose type is neither `done` nor of a family of the projection leaves the edges
  pub apply_entry-called :
      (t t' : Tables V) (e : LogEntry V)
      → e.event_type ≡ "api.called"
      → apply_entry t e ≡ ok t'
      → t'.edges ≡ t.edges
  unfolding finish_done dispatch split_once
  apply_entry-called t t' e named h = elim (apply_entry_parts t t' e h) [
    | inl same ↦ ap (λ (s : Tables V). s.edges) same
    | inr (t₁, t₂, finished, projected, edges) ↦
        let first : finish_done t e ≡ ok t = rw named refl in
        let second : dispatch (split_once b'.' e.event_type) t₁ e ≡ ok t₁ = rw named refl in
        let same : t₁ ≡ t = ok_unique _ finished first in
        let same' : t₂ ≡ t₁ = ok_unique _ projected second in
        edges ∙ ap (λ (s : Tables V). s.edges) (same' ∙ same)
  ]

  dispatch-dependency :
      (t : Tables V) (e : LogEntry V)
      → IsDependency e.event_type
      → (finish_done t e ≡ ok t) × (dispatch (split_once b'.' e.event_type) t e ≡ add_edge t e)
  unfolding finish_done dispatch split_once project_session project_edge
  dispatch-dependency t e (inl named) = (rw named refl, rw named refl)
  dispatch-dependency t e (inr named) = (rw named refl, rw named refl)

  insert_edge_lem :
      (row : Edge V) (es es' : List (Edge V)) → insert_edge row es ≡ ok es' → es' ≡ row ∷ es
  unfolding insert_edge
  insert_edge_lem row es es' h = ground arith

  add_edge-Added :
      (t t' : Tables V) (e : LogEntry V) (target : ℕ)
      → required_id e "target" ≡ ok target
      → add_edge t e ≡ ok t'
      → Added t t' e.session_id target
  unfolding add_edge
  add_edge-Added t t' e target named h =
      let (to, read, h₁) = >>=-ok (required_id e "target") _ h in
      let (kind, _, h₂) = >>=-ok (edge_kind e) _ h₁ in
      let (_, known, h₃) =
        >>=-ok (guard (one_of edge_kinds kind) (invalid_event bad_edge_kind)) _ h₂ in
      let row : Edge V = record {
        id = e.event_id;
        source = e.session_id;
        target = to;
        kind = kind;
        body = e.body;
      } in
      let (es, inserted, last) = >>=-ok (insert_edge row t.edges) _ h₃ in
      inr (
        row,
        refl,
        ok_unique _ read named,
        sym (ap edges_of last) ∙ insert_edge_lem row t.edges es inserted,
      )
    where
      edges_of : Result Error (Tables V) → List (Edge V)
      edges_of (err reason) = []
      edges_of (ok t) = t.edges

  Added-edges :
      (t t₂ t' : Tables V) (source target : ℕ)
      → t'.edges ≡ t₂.edges
      → Added t t₂ source target
      → Added t t' source target
  Added-edges t t₂ t' source target q (inl same) = inl (q ∙ same)
  Added-edges t t₂ t' source target q (inr (new, from, to, grown)) = inr (new, from, to, q ∙ grown)

  -- what an accepted entry of a dependency does
  pub apply_entry-Added :
      (t t' : Tables V) (e : LogEntry V) (target : ℕ)
      → IsDependency e.event_type
      → required_id e "target" ≡ ok target
      → apply_entry t e ≡ ok t'
      → Added t t' e.session_id target
  apply_entry-Added t t' e target kind named h = elim (apply_entry_parts t t' e h) [
    | inl same ↦ inl (ap (λ (s : Tables V). s.edges) same)
    | inr (t₁, t₂, finished, projected, edges) ↦
        let same : t₁ ≡ t = ok_unique _ finished (dispatch-dependency t e kind).0 in
        let next : dispatch (split_once b'.' e.event_type) t e ≡ ok t₂ =
          ap (λ s. dispatch (split_once b'.' e.event_type) s e) (sym same) ∙ projected in
        Added-edges t t₂ t' e.session_id target edges
          (add_edge-Added t t₂ e target named (sym (dispatch-dependency t e kind).1 ∙ next))
  ]
