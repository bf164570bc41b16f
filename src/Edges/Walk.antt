-- ===== src/Edges/Walk.antt =====
-- Walks along dependency edges, and the path that `trace` reads off the map of discoveries.
use dotfile.Prelude.{
  ℕ, zero, suc, ◌≤◌, true, Option, some, List, [], ◌∷◌, any, ◌≡◌, refl, ap, ◌∙◌, subst, inl, inr,
  Bool-cases, arith, ◌==◌, ==_iff, ==_refl,
}
use dotfile.Registry.Schema.{Edge}
use dotfile.Edges.{Previous, lookup, step_back, trace, is_edge}

module _ {V : Type 0} (edges : List (Edge V)) where
  abbrev pub HasEdge : ℕ → ℕ → Type 0
  HasEdge a b = any (is_edge a b) edges ≡ true

  pub data Walk : ℕ → ℕ → Type 0 where
    here : {a : ℕ} → Walk a a
    along : {a b c : ℕ} → HasEdge a c → Walk c b → Walk a b

  -- the list is the sessions on a way along edges, its first and last among them
  pub data Trail : ℕ → ℕ → List ℕ → Type 0 where
    trail_end : {a : ℕ} → Trail a a (a ∷ [])
    trail_edge : {a b c : ℕ} {p : List ℕ} → HasEdge a c → Trail c b p → Trail a b (a ∷ p)

  -- a session was discovered from the start in some number of rounds
  pub data Chain (start : ℕ) (previous : Previous) : ℕ → ℕ → Type 0 where
    chain_start : Chain start previous start 0
    chain_back :
        {v c n : ℕ}
        → lookup v previous ≡ some c
        → HasEdge c v
        → Chain start previous c n
        → Chain start previous v (suc n)

trace_stop :
    (fuel start : ℕ) (previous : Previous) (after : List ℕ)
    → trace fuel start previous start after ≡ some (start ∷ after)
unfolding trace
trace_stop zero start previous after = rw (==_refl start) refl
trace_stop (suc fuel) start previous after = rw (==_refl start) refl

abbrev pub Traced : {V : Type 0} → List (Edge V) → ℕ → ℕ → Option (List ℕ) → Type 0
Traced edges start end found = (p : List ℕ) × (found ≡ some p) × Trail edges start end p

module _ {V : Type 0} {edges : List (Edge V)} where
  pub Trail-Walk : {a b : ℕ} {p : List ℕ} → Trail edges a b p → Walk edges a b
  Trail-Walk trail_end = here
  Trail-Walk (trail_edge e t) = along e (Trail-Walk t)

  pub Walk-append : {a b c : ℕ} → Walk edges a b → Walk edges b c → Walk edges a c
  Walk-append here w = w
  Walk-append (along e v) w = along e (Walk-append v w)

  -- The path is read back to the start where the session was discovered in at most as many rounds
  -- as there is fuel.
  pub trace-Trail :
      {start end : ℕ} {previous : Previous} (fuel : ℕ) {v n : ℕ} (after : List ℕ)
      → Chain edges start previous v n
      → n ≤ fuel
      → Trail edges v end (v ∷ after)
      → Traced edges start end (trace fuel start previous v after)
  unfolding trace step_back
  trace-Trail {start} {end} {previous} fuel after chain_start h t =
      (start ∷ after, trace_stop fuel start previous after, t)
  trace-Trail zero after (chain_back back e c) h t = absurd (omega arith)
  trace-Trail {start} {end} {previous} (suc fuel) {v} after (chain_back {c = c} back e ch) h t =
      elim (Bool-cases (v == start)) [
        | inl home ↦
            let same : v ≡ start = (==_iff v start).0 home in
            (v ∷ after, rw home refl, subst (λ s. Trail edges s end (v ∷ after)) same t)
        | inr on ↦
            let (p, read, trail) = trace-Trail fuel (v ∷ after) ch (omega arith) (trail_edge e t) in
            (
              p,
              rw on (ap (step_back (λ d. trace fuel start previous d (v ∷ after))) back ∙ read),
              trail,
            )
      ]
