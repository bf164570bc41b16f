-- ===== src/Registry/Lists/Ordered.antt =====
-- A list that is read in an order has just the rows of the table, in that order.
use dotfile.Prelude.{
  ℕ, String, Bool, true, false, List, [], ◌∷◌, ◌≡◌, refl, count, select, arith, on_branches,
}
use dotfile.Registry.Schema.{Tables}
use dotfile.Registry.Lists.{
  insert_in_order, in_order, by_id, by_seq, by_session_seq, messages, rows_of_type,
  session_rows_of_type, has_type, is_session_type,
}

module _ {A : Type 0} (before : A → A → Bool) where
  -- each row comes before the next
  unfoldable pub IsOrdered : List A → Type 0
  IsOrdered [] = Unit
  IsOrdered (a ∷ []) = Unit
  IsOrdered (a ∷ b ∷ rest) = (before a b ≡ true) × IsOrdered (b ∷ rest)

  unfoldable pub IsTotal : Type 0
  IsTotal = (a b : A) → before a b ≡ false → before b a ≡ true

  insert_in_order-below :
      IsTotal
      → (a b : A) (bs : List A) → before b a ≡ true
      → IsOrdered (b ∷ bs)
      → IsOrdered (b ∷ insert_in_order before a bs)
  unfolding insert_in_order IsOrdered IsTotal
  insert_in_order-below total a b [] h o = (h, tt)
  insert_in_order-below total a b (c ∷ cs) h o =
      on_branches (λ rows. IsOrdered (b ∷ rows)) (before a c) (λ first. (h, (first, o.1)))
        (λ later. (o.0, insert_in_order-below total a c cs (total a c later) o.1))

  insert_in_order-IsOrdered :
      IsTotal → (a : A) (bs : List A) → IsOrdered bs → IsOrdered (insert_in_order before a bs)
  unfolding insert_in_order IsOrdered IsTotal
  insert_in_order-IsOrdered total a [] o = tt
  insert_in_order-IsOrdered total a (b ∷ bs) o =
      on_branches IsOrdered (before a b) (λ first. (first, o))
        (λ later. insert_in_order-below total a b bs (total a b later) o)

  pub in_order-IsOrdered : IsTotal → (rows : List A) → IsOrdered (in_order before rows)
  unfolding in_order IsOrdered
  in_order-IsOrdered total [] = tt
  in_order-IsOrdered total (a ∷ rest) =
      insert_in_order-IsOrdered total a (in_order before rest) (in_order-IsOrdered total rest)

  count-insert_in_order :
      (p : A → Bool) (a : A) (bs : List A)
      → count p (insert_in_order before a bs) ≡ count p (a ∷ bs)
  unfolding insert_in_order
  count-insert_in_order p a [] = refl
  count-insert_in_order p a (b ∷ bs) = ground (arith, count-insert_in_order p a bs)

  pub count-in_order :
      (p : A → Bool) (rows : List A) → count p (in_order before rows) ≡ count p rows
  unfolding in_order
  count-in_order p [] = refl
  count-in_order p (a ∷ rest) =
      ground (arith, count-insert_in_order p a (in_order before rest), count-in_order p rest)

-- `listed` is `rows` in the order
abbrev pub IsListing : {A : Type 0} → (A → A → Bool) → List A → List A → Type 0
IsListing {A} before rows listed =
    IsOrdered before listed × ((p : A → Bool) → count p listed ≡ count p rows)

-- The messages are listed in the order of their ids, the events of a type in the order of sessions
-- and sequence numbers, and those of one session in the order of their numbers: each list has every
-- row of the table that it asks for as often as the table.
pub in_order-IsListing :
    {V : Type 0} (t : Tables V) (session : ℕ) (event_type : String)
    → IsListing by_id t.messages (messages t)
      × IsListing by_session_seq
          (select (has_type event_type) t.applied)
          (rows_of_type t event_type)
      × IsListing by_seq
          (select (is_session_type session event_type) t.applied)
          (session_rows_of_type t session event_type)
unfolding messages rows_of_type session_rows_of_type IsTotal
in_order-IsListing t session event_type = (
  (
    in_order-IsOrdered by_id (λ a b h. ground arith) t.messages,
    λ p. count-in_order by_id p t.messages,
  ),
  (
    in_order-IsOrdered by_session_seq (λ a b h. ground arith)
        (select (has_type event_type) t.applied),
    λ p. count-in_order by_session_seq p (select (has_type event_type) t.applied),
  ),
  (
    in_order-IsOrdered by_seq (λ a b h. ground arith)
        (select (is_session_type session event_type) t.applied),
    λ p. count-in_order by_seq p (select (is_session_type session event_type) t.applied),
  ),
)
