-- ===== src/Edges/Add/Refused.antt =====
-- The check of a new dependency: the edges in the order of their ids have the same walks, and the
-- search over them refuses every cycle.
use dotfile.Prelude.{
  ℕ, Bool, some, List, [], ◌∷◌, Result, ok, err, ◌≡◌, ◌∙◌, ap, sym, subst, refl, ◌||◌, inl, inr,
  any, ok_unique, arith,
}
use dotfile.Registry.Schema.{Edge}
use dotfile.Edges.{path, is_edge}
use dotfile.Edges.Walk.{Walk, here, along}
use dotfile.Edges.Answers.{path-IsAnswer}
use dotfile.Edges.Add.{AddError, insert_by_id, edges_by_id, refuse_cycle, and_then}

module _ {V : Type 0} where
  any-insert :
      (p : Edge V → Bool) (e : Edge V) (es : List (Edge V))
      → any p (insert_by_id e es) ≡ (p e || any p es)
  any-insert p e [] = refl
  any-insert p e (f ∷ fs) = ground (arith, any-insert p e fs)

  pub any-edges_by_id : (p : Edge V → Bool) (es : List (Edge V)) → any p (edges_by_id es) ≡ any p es
  unfolding edges_by_id
  any-edges_by_id p [] = refl
  any-edges_by_id p (e ∷ es) =
      any-insert p e (edges_by_id es) ∙ ap (λ b. p e || b) (any-edges_by_id p es)

  Walk-edges_by_id : {es : List (Edge V)} {a b : ℕ} → Walk es a b → Walk (edges_by_id es) a b
  Walk-edges_by_id here = here
  Walk-edges_by_id {es} {a} (along {c = c} e w) =
      along (any-edges_by_id (is_edge a c) es ∙ e) (Walk-edges_by_id w)

  -- the search ends, and where it refuses nothing no walk leads from the target to the source
  pub refuse_cycle-path :
      (es : List (Edge V)) (source target : ℕ)
      → (r : Result AddError (Unit {0})) × (refuse_cycle source
            (path (edges_by_id es) target source)
          ≡ some r)
        × (r ≡ ok tt → ¬ (Walk es target source))
  unfolding refuse_cycle
  refuse_cycle-path es source target = elim (path-IsAnswer (edges_by_id es) target source) [
    | inl (p, found, trail) ↦ (_, ap (refuse_cycle source) found, λ q. cc)
    | inr (free, apart) ↦ (ok tt, ap (refuse_cycle source) free, λ q w. apart (Walk-edges_by_id w))
  ]

pub err-ok {ℓ} :
    {A : Type ℓ} {reason : AddError} {a : A} → ◌≡◌ {A = Result AddError A} (err reason) (ok a) → ⊥
err-ok h = cc

-- the ids go on where nothing is refused
pub checked_refusal :
    {V : Type 0} (es : List (Edge V)) (r : Result AddError (Unit {0})) (source target : ℕ)
    → (r ≡ ok tt → ¬ (Walk es target source))
    → (c : Result AddError (ℕ × ℕ)) × (and_then (some r) (λ _. some (ok (source, target))) ≡ some c)
      × ((from to : ℕ) → c ≡ ok (from, to) → ¬ (Walk es to from))
checked_refusal es (err reason) source target apart = (err reason, refl, λ from to q w. err-ok q)
checked_refusal es (ok tt) source target apart = (
  ok (source, target),
  refl,
  λ from to q w.
      let same : (source, target) ≡ (from, to) = ok_unique _ refl q in
      apart refl (subst (λ p. Walk es p.1 p.0) (sym same) w),
)
