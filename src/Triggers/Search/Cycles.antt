-- ===== src/Triggers/Search/Cycles.antt =====
-- The edges of a trigger that the check lets pass make no cycle, also once they are in the index.
use mathlib.Core.List.{append_assoc, append-nil}
use dotfile.Prelude.{
  ℕ, Bool, ◌||◌, Option, some, List, [], ◌∷◌, ◌++◌, Result, ok, err, any, ◌≡◌, ◌∙◌, refl, ap, sym,
  subst, inl, inr, >>=-ok, ok_unique, arith,
}
use dotfile.External.{UlidText, External}
use dotfile.Registry.Schema.{Edge, Tables}
use dotfile.Registry.Project.Edges.{edge_field, insert_edge, insert_action_edges}
use dotfile.Registry.Project.Edges.Steps.{insert_edge_lem}
use dotfile.Edges.{is_edge}
use dotfile.Edges.Walk.{Walk}
use dotfile.Edges.Acyclic.{Acyclic, Acyclic-cons, Acyclic-mono}
use dotfile.Edges.Add.{edges_by_id}
use dotfile.Edges.Add.Refused.{any-edges_by_id}
use dotfile.Triggers.Search.{unless_cycle, check_edges, check_trigger_cycles}
use dotfile.Triggers.Search.Answers.{cycle_of-IsAnswer}

-- the check ended: with a cycle, or with edges that have none
abbrev pub Checks : {V : Type 0} → List (Edge V) → Option (Result (List ℕ) (Unit {0})) → Type 0
Checks edges call = (r : Result (List ℕ) (Unit {0})) × (call ≡ some r) × (r ≡ ok tt → Acyclic edges)

module _ {V : Type 0} where
  any-append :
      (p : Edge V → Bool) (es fs : List (Edge V)) → any p (es ++ fs) ≡ (any p es || any p fs)
  any-append p [] fs = refl
  any-append p (e ∷ es) fs = ground (arith, any-append p es fs)

  Acyclic-append :
      (edges : List (Edge V)) (e : Edge V)
      → ¬ (Walk edges e.target e.source)
      → Acyclic edges
      → Acyclic (edges ++ e ∷ [])
  Acyclic-append edges e apart acyclic =
      Acyclic-mono (e ∷ edges) (edges ++ e ∷ [])
        (λ a b h. ground (arith, any-append (is_edge a b) edges (e ∷ [])))
        (Acyclic-cons edges e apart acyclic)

  check_edges-Checks :
      (edges additions : List (Edge V))
      → Acyclic edges
      → Checks (edges ++ additions) (check_edges edges additions)
  unfolding check_edges unless_cycle
  check_edges-Checks edges [] acyclic =
      (ok tt, refl, λ _. subst Acyclic (sym (append-nil edges)) acyclic)
  check_edges-Checks edges (e ∷ additions) acyclic =
      elim (cycle_of-IsAnswer edges e.source e.target) [
        | inl (p, q, found, starts, trail) ↦ (
          err p,
          ap (λ c. unless_cycle c (check_edges (edges ++ e ∷ []) additions)) found,
          λ h. absurd (refused p h),
        )
        | inr (free, apart) ↦
            let (r, checked, passes) =
              check_edges-Checks (edges ++ e ∷ []) additions
                (Acyclic-append edges e apart acyclic) in
            (
              r,
              ap (λ c. unless_cycle c (check_edges (edges ++ e ∷ []) additions)) free ∙ checked,
              λ h. subst Acyclic (append_assoc edges (e ∷ []) additions) (passes h),
            )
      ]
    where
      refused : (p : List ℕ) → ◌≡◌ {A = Result (List ℕ) (Unit {0})} (err p) (ok tt) → ⊥
      refused p h = cc

module _ {V : Type 0} ⦃u : UlidText⦄ ⦃x : External V⦄ where
  -- the objects of the trigger's entry name the sessions of the edges that were checked
  pub data Describes : List V → List (Edge V) → Type 0 where
    describes_none : Describes [] []
    describes_edge :
        {v : V} {vs : List V} {e : Edge V} {es : List (Edge V)}
        → edge_field v "source" ≡ ok e.source
        → edge_field v "target" ≡ ok e.target
        → Describes vs es
        → Describes (v ∷ vs) (e ∷ es)

  insert_action_edges-any :
      (a b : ℕ) {vs : List V} {additions : List (Edge V)} (es es' : List (Edge V))
      → Describes vs additions
      → insert_action_edges vs es ≡ ok es'
      → any (is_edge a b) es' ≡ (any (is_edge a b) es || any (is_edge a b) additions)
  unfolding insert_action_edges
  insert_action_edges-any a b es es' describes_none h = ground arith
  insert_action_edges-any a b es es' (describes_edge {v} {vs} {e} {es = additions} from to rest) h =
      let (id, _, h₁) = >>=-ok (edge_field v "id") _ h in
      let (source, read, h₂) = >>=-ok (edge_field v "source") _ h₁ in
      let (target, read', h₃) = >>=-ok (edge_field v "target") _ h₂ in
      let row : Edge V = record {
        id = id;
        source = source;
        target = target;
        kind = "block_on";
        body = v;
      } in
      let (mid, inserted, later) = >>=-ok (insert_edge row es) _ h₃ in
      let grown = ap (any (is_edge a b)) (insert_edge_lem row es mid inserted) in
      let same : source ≡ e.source = ok_unique _ read from in
      let same' : target ≡ e.target = ok_unique _ read' to in
      ground (arith, insert_action_edges-any a b mid es' rest later, grown, same, same')

  -- A check of a trigger's edges against an index without cycles ends; where it passes, the index
  -- has no cycle once the trigger's entry has put the edges in.
  pub check_trigger_cycles-Acyclic :
      (t : Tables V) (vs : List V) (additions : List (Edge V))
      → Describes vs additions
      → Acyclic t.edges
      → (r : Result (List ℕ) (Unit {0})) × (check_trigger_cycles t additions ≡ some r)
        × (r ≡ ok tt → (es : List (Edge V)) → insert_action_edges vs t.edges ≡ ok es → Acyclic es)
  unfolding check_trigger_cycles
  check_trigger_cycles-Acyclic t vs additions described acyclic =
      let sorted = edges_by_id t.edges in
      let (r, checked, passes) = check_edges-Checks sorted additions (
        Acyclic-mono t.edges sorted (λ a b h. sym (any-edges_by_id (is_edge a b) t.edges) ∙ h)
          acyclic) in
      (
        r,
        checked,
        λ h es inserted.
            Acyclic-mono (sorted ++ additions) es
              (λ a b e. ground (
                arith,
                any-append (is_edge a b) sorted additions,
                any-edges_by_id (is_edge a b) t.edges,
                insert_action_edges-any a b t.edges es described inserted,
              ))
              (passes h),
      )
