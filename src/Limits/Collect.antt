-- ===== src/Limits/Collect.antt =====
-- The numbers that the rows of a table name.
use dotfile.Prelude.{
  ℕ, suc, ◌≤◌, Bool, true, Option, none, some, List, [], ◌∷◌, mem, find, select, length, ◌≡◌, subst,
  inl, inr, Bool-cases, arith, ==_refl,
}
use dotfile.Registry.Events.Latest.{IsRow, first, below}

put : Option ℕ → List ℕ → List ℕ
put none ns = ns
put (some n) ns = n ∷ ns

module _ {A : Type 0} (f : A → Option ℕ) where
  -- the numbers that the rows name
  pub collect : List A → List ℕ
  collect [] = []
  collect (r ∷ rs) = put (f r) (collect rs)

  put_le : (n : Option ℕ) (ns : List ℕ) (k : ℕ) → length ns ≤ k → length (put n ns) ≤ suc k
  unfolding put
  put_le none ns k h = omega arith
  put_le (some n) ns k h = omega arith

  pub length-collect : (rows : List A) → length (collect rows) ≤ length rows
  unfolding collect
  length-collect [] = omega arith
  length-collect (r ∷ rs) = put_le (f r) (collect rs) (length rs) (length-collect rs)

  mem-put : (o : Option ℕ) (ns : List ℕ) (n : ℕ) → mem n ns ≡ true → mem n (put o ns) ≡ true
  unfolding put
  mem-put none ns n h = h
  mem-put (some m) ns n h = ground arith

  pub mem-collect :
      (rows : List A) (r : A) (n : ℕ) → IsRow r rows → f r ≡ some n → mem n (collect rows) ≡ true
  unfolding collect put
  mem-collect [] r n at h = elim at [ ]
  mem-collect (q ∷ rs) r n first h = rw h (ground (arith, ==_refl n))
  mem-collect (q ∷ rs) r n (below at) h = mem-put (f q) (collect rs) n (mem-collect rs r n at h)

  pub find-IsRow : (p : A → Bool) (rows : List A) (r : A) → find p rows ≡ some r → IsRow r rows
  find-IsRow p [] r h = cc
  find-IsRow p (q ∷ rs) r h = elim (Bool-cases (p q)) [
    | inl this ↦ subst (λ a. IsRow a (q ∷ rs)) (ground arith) first
    | inr other ↦ below (find-IsRow p rs r (ground arith))
  ]

pub length-select :
    {A : Type 0} (p : A → Bool) (rows : List A) → length (select p rows) ≤ length rows
length-select p [] = omega arith
length-select p (r ∷ rs) = ground (arith, length-select p rs)
