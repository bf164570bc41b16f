-- ===== src/Seen.antt =====
-- The elements of a list that a set of visited ones does not have, which the loops over a session's
-- ancestors in guard.rs and limits.rs use up.
use dotfile.Prelude.{
  ℕ, ◌≤◌, ◌<◌, Bool, true, false, not, List, [], ◌∷◌, ◌≡◌, inl, inr, Bool-cases, count, mem, arith,
  ◌==◌, ==_refl, ==_iff,
}

abbrev pub unseen : List ℕ → ℕ → Bool
unseen seen k = not (mem k seen)

count-seen-le :
    (id : ℕ) (seen ids : List ℕ) → count (unseen (id ∷ seen)) ids ≤ count (unseen seen) ids
count-seen-le id seen [] = omega arith
count-seen-le id seen (k ∷ ks) = ground (arith, count-seen-le id seen ks)

-- a new element of the list is one less to come
pub count-seen :
    (id : ℕ) (seen ids : List ℕ)
    → mem id ids ≡ true
    → mem id seen ≡ false
    → count (unseen (id ∷ seen)) ids < count (unseen seen) ids
count-seen id seen [] h new = cc
count-seen id seen (k ∷ ks) h new = elim (Bool-cases (k == id)) [
  | inl here ↦
      let e : k ≡ id = (==_iff k id).0 here in
      rw (e, new, ==_refl id) (omega (arith, count-seen-le id seen ks))
  | inr later ↦ ground (arith, count-seen id seen ks)
]
