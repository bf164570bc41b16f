-- ===== src/Edges/Acyclic.antt =====
-- A new edge keeps the dependencies free of cycles where no walk leads back from its target.
use dotfile.Prelude.{
  [], ℕ, List, ◌∷◌, ◌≡◌, ◌⊎◌, inl, inr, subst, sym, true, false, Bool-cases, arith,
}
use dotfile.Registry.Schema.{Edge}
use dotfile.Edges.{is_edge}
use dotfile.Edges.Walk.{HasEdge, Walk, here, along, Walk-append}

-- no walk leads from the target of an edge back to its source
pub Acyclic : {V : Type 0} → List (Edge V) → Type 0
Acyclic edges = (a b : ℕ) → HasEdge edges a b → ¬ (Walk edges b a)

false-true : false ≡ true → ⊥
false-true h = cc

pub Acyclic-nil : (V : Type 0) → Acyclic {V = V} []
unfolding Acyclic
Acyclic-nil V a b h w = false-true h

module _ {V : Type 0} (edges : List (Edge V)) (new : Edge V) where
  edge_cases :
      (a b : ℕ)
      → HasEdge (new ∷ edges) a b
      → HasEdge edges a b ⊎ ((new.source ≡ a) × (new.target ≡ b))
  edge_cases a b h = elim (Bool-cases (is_edge a b new)) [
    | inl this ↦ inr (ground arith)
    | inr other ↦ inl (ground arith)
  ]

  -- a walk without the new edge, or the parts before its first and after its last use
  Walk-cases :
      {a b : ℕ}
      → Walk (new ∷ edges) a b
      → Walk edges a b ⊎ (Walk edges a new.source × Walk edges new.target b)
  Walk-cases here = inl here
  Walk-cases {a} {b} (along {c = c} e w) = elim (edge_cases a c e) [
    | inl old ↦ elim (Walk-cases w) [
      | inl on ↦ inl (along old on)
      | inr (to, from) ↦ inr (along old to, from)
    ]
    | inr (start, end) ↦
        let to : Walk edges a new.source = subst (λ v. Walk edges a v) (sym start) here in
        elim (Walk-cases w) [
          | inl on ↦ inr (to, subst (λ v. Walk edges v b) (sym end) on)
          | inr (around, from) ↦ inr (to, from)
        ]
  ]

  pub Acyclic-cons : ¬ (Walk edges new.target new.source) → Acyclic edges → Acyclic (new ∷ edges)
  unfolding Acyclic
  Acyclic-cons apart acyclic a b e w = elim (edge_cases a b e) [
    | inl old ↦ elim (Walk-cases w) [
      | inl back ↦ acyclic a b old back
      | inr (to, from) ↦ apart (Walk-append from (along old to))
    ]
    | inr (start, end) ↦ elim (Walk-cases w) [
      | inl back ↦ apart (
          subst (λ v. Walk edges v new.source) (sym end)
            (subst (λ v. Walk edges b v) (sym start) back))
      | inr (to, from) ↦ apart (subst (λ v. Walk edges v new.source) (sym end) to)
    ]
  ]

-- fewer edges have no more cycles
Walk-mono :
    {V : Type 0} (edges fewer : List (Edge V))
    → ((a b : ℕ) → HasEdge fewer a b → HasEdge edges a b)
    → {a b : ℕ} → Walk fewer a b
    → Walk edges a b
Walk-mono edges fewer h here = here
Walk-mono edges fewer h {a} (along {c = c} e w) = along (h a c e) (Walk-mono edges fewer h w)

pub Acyclic-mono :
    {V : Type 0} (edges fewer : List (Edge V))
    → ((a b : ℕ) → HasEdge fewer a b → HasEdge edges a b)
    → Acyclic edges
    → Acyclic fewer
unfolding Acyclic
Acyclic-mono edges fewer h acyclic a b e w = acyclic a b (h a b e) (Walk-mono edges fewer h w)
