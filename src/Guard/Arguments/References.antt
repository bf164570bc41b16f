-- ===== src/Guard/Arguments/References.antt =====
-- The references of a push that name a branch.
use dotfile.Prelude.{
  ℕ, true, false, some, List, [], ◌∷◌, ◌++◌, ◌≡◌, refl, ap, ◌∙◌, inl, inr, Bool-cases, arith, ◌==◌,
  ==_refl,
}
use dotfile.Guard.Shell.{Chars, codes}
use dotfile.Guard.Arguments.{
  same, starts_with, contains, split, last, or_empty, after_last, push_target,
}

pub same_refl : (w : Chars) → same w w ≡ true
same_refl [] = refl
same_refl (c ∷ cs) = ground (arith, same_refl cs)

-- a part without `c` is not split
split-part : (c : ℕ) (w : Chars) → contains c w ≡ false → split c w ≡ w ∷ []
unfolding split
split-part c [] h = refl
split-part c (d ∷ ds) h =
    let other : (d == c) ≡ false = ground arith in
    let rest : contains c ds ≡ false = ground arith in rw (other, split-part c ds rest) refl

split-cons : (c : ℕ) (w : Chars) → (p : Chars) × (ps : List Chars) × (split c w ≡ p ∷ ps)
unfolding split
split-cons c [] = ([], [], refl)
split-cons c (d ∷ ds) =
    let (p, ps, found) = split-cons c ds in
    elim (Bool-cases (d == c)) [
      | inl cut ↦ ([], split c ds, rw cut refl)
      | inr kept ↦ (d ∷ p, ps, rw (kept, found) refl)
    ]

split-append :
    (c : ℕ) (v w : Chars)
    → (p : Chars) × (ps : List Chars) × (split c (v ++ c ∷ w) ≡ p ∷ (ps ++ split c w))
unfolding split
split-append c [] w = ([], [], rw (==_refl c) refl)
split-append c (d ∷ ds) w =
    let (p, ps, found) = split-append c ds w in
    elim (Bool-cases (d == c)) [
      | inl cut ↦ ([], p ∷ ps, rw (cut, found) refl)
      | inr kept ↦ (d ∷ p, ps, rw (kept, found) refl)
    ]

last-append : (p : Chars) (ps : List Chars) (x : Chars) → last (p ∷ (ps ++ x ∷ [])) ≡ some x
last-append p [] x = refl
last-append p (q ∷ qs) x = last-append q qs x

-- what stands after the last `c`
after_last-append : (c : ℕ) (v w : Chars) → contains c w ≡ false → after_last c (v ++ c ∷ w) ≡ w
after_last-append c v w h =
    let (p, ps, found) = split-append c v w in
    ap (λ x. or_empty (last x)) (found ∙ ap (λ x. p ∷ (ps ++ x)) (split-part c w h))
    ∙ ap or_empty (last-append p ps w)

-- `source:refs/heads/branch` goes to the branch
pub push_target-branch :
    (source branch : Chars)
    → contains b':' branch ≡ false
    → starts_with (codes "refs/heads/") branch ≡ false
    → push_target (source ++ b':' ∷ (codes "refs/heads/" ++ branch)) ≡ branch
unfolding push_target
push_target-branch source branch colon heads =
    rw (after_last-append b':' source (codes "refs/heads/" ++ branch) colon, heads) refl
