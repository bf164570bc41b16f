-- ===== src/Prelude/Rows.antt =====
-- Lemmas on tables: what a test sees of a table after an update, a deletion or an insertion.
use Prim.Native.Nat.{◌≤◌}
use mathlib.Core.Path.{◌≡◌, refl}
use mathlib.Core.Bool.{Bool, true, false}
use mathlib.Core.List.{List, [], ◌∷◌}
use mathlib.Core.Option.{none, some}
use native.Mathlib.Omega.{arith}
use dotfile.Prelude.Tests.{if◌then◌else◌}
use dotfile.Prelude.Lists.{length, any, find, count, update, delete}

module _ {ℓ} {A : Type ℓ} where
  pub count-any : (p : A → Bool) (rows : List A) → any p rows ≡ false → count p rows ≡ 0
  count-any p [] h = refl
  count-any p (r ∷ rs) h = ground (arith, count-any p rs)

  -- an update that no test of `p` sees leaves the number of rows that pass
  pub count-update :
      (p q : A → Bool) (f : A → A)
      → ((r : A) → p (f r) ≡ p r)
      → (rows : List A) → count p (update q f rows) ≡ count p rows
  count-update p q f same [] = refl
  count-update p q f same (r ∷ rs) = ground (arith, same r, count-update p q f same rs)

  pub count-delete-le : (p q : A → Bool) (rows : List A) → count p (delete q rows) ≤ count p rows
  count-delete-le p q [] = omega arith
  count-delete-le p q (r ∷ rs) = ground (arith, count-delete-le p q rs)

  pub find-any : (p : A → Bool) (rows : List A) → find p rows ≡ none → any p rows ≡ false
  find-any p [] h = refl
  find-any p (r ∷ rs) h = ground (arith, find-any p rs)

  -- the first row that passes is updated, where the update keeps the test
  pub find-update :
      (p q : A → Bool) (f : A → A)
      → ((r : A) → p (f r) ≡ p r)
      → (rows : List A) (a : A) → find p rows ≡ some a
      → find p (update q f rows) ≡ some (if q a then f a else a)
  find-update p q f same [] a h = cc
  find-update p q f same (r ∷ rs) a h = ground (arith, same r, find-update p q f same rs a)

  pub find-update-none :
      (p q : A → Bool) (f : A → A)
      → ((r : A) → p (f r) ≡ p r)
      → (rows : List A) → find p rows ≡ none
      → find p (update q f rows) ≡ none
  find-update-none p q f same [] h = refl
  find-update-none p q f same (r ∷ rs) h = ground (arith, same r, find-update-none p q f same rs)

  pub find-holds : (p : A → Bool) (rows : List A) (a : A) → find p rows ≡ some a → p a ≡ true
  find-holds p [] a h = cc
  find-holds p (r ∷ rs) a h = ground (arith, find-holds p rs a)

  pub count-le-length : (p : A → Bool) (rows : List A) → count p rows ≤ length rows
  count-le-length p [] = omega arith
  count-le-length p (r ∷ rs) = ground (arith, count-le-length p rs)
