-- ===== src/Bus/Numbered/Shown.antt =====
-- Which messages an inbox shows: those whose sender's earlier numbers are all there.
use dotfile.Prelude.{
  ℕ, zero, suc, ◌+◌, Bool, true, false, not, ◌&&◌, some, List, [], ◌∷◌, ◌≡◌, ◌∙◌, refl, ap, sym,
  any, count, Bool-cases, inl, inr, arith, ltb, ◌==◌, ==_iff,
}
use dotfile.External.{External}
use dotfile.Registry.Schema.{Tables}
use dotfile.Registry.Lists.{in_order}
use dotfile.Registry.Lists.Ordered.{IsOrdered, IsTotal, in_order-IsOrdered, count-in_order}
use dotfile.Bus.{
  InboxMessage, ReadsContent, Row, is_before, Expected, from_one, count_up, visible, inbox_rows,
  inbox_messages,
}
use dotfile.Bus.Numbered.{is_numbered, is_unread, is_shown, has_run, Once}
use dotfile.Bus.Numbered.Heads.{
  Once-rest, Once-first, IsOrdered-rest, any-if, head_other, head_expected, head_held,
}

count_up-above :
    (here : Bool) (s : ℕ) (next : Expected) (sender n : ℕ)
    → ltb n (next sender) ≡ true
    → ltb n (count_up here s next sender) ≡ true
count_up-above here s next sender n h = ground arith

not_below :
    (m : InboxMessage) (next : Expected) (sender n : ℕ)
    → ltb n (next sender) ≡ true
    → (m.content.pair_seq == next m.content.from_session && is_shown sender n m) ≡ false
not_below m next sender n h = elim (Bool-cases (m.content.from_session == sender)) [
  | inr other ↦ ground arith
  | inl own ↦
      let same = ap next ((==_iff m.content.from_session sender).0 own) in ground (arith, same)
]

-- nothing is shown below the number that is expected
visible-below :
    (rows : List Row) (next : Expected) (sender n : ℕ)
    → ltb n (next sender) ≡ true
    → any (is_shown sender n) (visible next rows) ≡ false
unfolding visible
visible-below [] next sender n h = refl
visible-below ((m, read) ∷ rest) next sender n h =
    let here = m.content.pair_seq == next m.content.from_session in
    let induct =
      visible-below rest (count_up here m.content.from_session next) sender n
        (count_up-above here m.content.from_session next sender n h) in
    let apart : (here && is_shown sender n m) ≡ false = not_below m next sender n h in
    ground (
      arith,
      any-if (is_shown sender n) (here && not read) m
          (visible (count_up here m.content.from_session next) rest),
      apart,
      induct,
    )

-- what is shown of a list, for each sender that is asked for
pub Shows : List Row → Type 0
Shows rows =
    (next : Expected) (sender from d : ℕ)
    → next sender ≡ from
    → any (is_shown sender (from + d)) (visible next rows)
      ≡ (any (is_unread sender (from + d)) rows && has_run sender from d rows)

-- the message of the sender that is asked for
visible-own :
    (m : InboxMessage) (read : Bool) (rest : List Row) (next : Expected) (sender from d : ℕ)
    → Shows rest
    → next sender ≡ from
    → IsOrdered is_before ((m, read) ∷ rest)
    → Once ((m, read) ∷ rest)
    → m.content.from_session ≡ sender
    → any (is_shown sender (from + d)) (visible next ((m, read) ∷ rest)) ≡ (
        any (is_unread sender (from + d)) ((m, read) ∷ rest)
        && has_run sender from d ((m, read) ∷ rest))
unfolding visible Shows
visible-own m read rest next sender from d shows q o once own =
    let at_head : (m.content.pair_seq == next m.content.from_session)
        ≡ (m.content.pair_seq == from) =
      ap (λ s. m.content.pair_seq == next s) own ∙ ap (λ n. m.content.pair_seq == n) q in
    elim (Bool-cases (m.content.pair_seq == from)) [
      | inl this ↦ rw (at_head ∙ this) (
          head_expected m read rest sender from d
            (visible (count_up true m.content.from_session next) rest)
            ((==_iff m.content.from_session sender).1 own) this
            (Once-first (m, read) rest sender from once (ground arith))
            (λ k.
              shows (count_up true m.content.from_session next) sender (suc from) k (ground arith))
            (visible-below rest (count_up true m.content.from_session next) sender from
              (ground arith)))
      | inr held ↦ rw (at_head ∙ held) (
          head_held m read rest sender from d
            (visible (count_up false m.content.from_session next) rest)
            ((==_iff m.content.from_session sender).1 own) held o
            (shows (count_up false m.content.from_session next) sender from d q))
    ]

visible-any :
    (rows : List Row) (next : Expected) (sender from d : ℕ)
    → next sender ≡ from
    → IsOrdered is_before rows
    → Once rows
    → any (is_shown sender (from + d)) (visible next rows)
      ≡ (any (is_unread sender (from + d)) rows && has_run sender from d rows)
unfolding visible Shows
visible-any [] next sender from d q o once = refl
visible-any ((m, read) ∷ rest) next sender from d q o once =
    let here = m.content.pair_seq == next m.content.from_session in
    let later = IsOrdered-rest (m, read) rest o in
    let fewer = Once-rest (m, read) rest once in
    let shows : Shows rest =
      λ next' sender' from' d' q'. visible-any rest next' sender' from' d' q' later fewer in
    elim (Bool-cases (m.content.from_session == sender)) [
      | inl own ↦
          visible-own m read rest next sender from d shows q o once
            ((==_iff m.content.from_session sender).0 own)
      | inr other ↦
          head_other m read here rest sender from d
            (visible (count_up here m.content.from_session next) rest) other
            (visible-any rest (count_up here m.content.from_session next) sender from d
              (ground arith) later fewer)
    ]

any_by_count : (p : Row → Bool) (rows : List Row) → any p rows ≡ ltb 0 (count p rows)
any_by_count p [] = refl
any_by_count p (row ∷ rows) = ground (arith, any_by_count p rows)

is_before-IsTotal : IsTotal is_before
unfolding IsTotal
is_before-IsTotal (m, _) (n, _) h = ground arith

-- the same rows in another order
any-in_order : (p : Row → Bool) (rows : List Row) → any p (in_order is_before rows) ≡ any p rows
any-in_order p rows =
    any_by_count p (in_order is_before rows)
    ∙ ap (λ n. ltb 0 n) (count-in_order is_before p rows)
    ∙ sym (any_by_count p rows)

has_run-in_order :
    (rows : List Row) (sender from d : ℕ)
    → has_run sender from d (in_order is_before rows) ≡ has_run sender from d rows
has_run-in_order rows sender from zero = refl
has_run-in_order rows sender from (suc d) =
    ground (
      arith,
      any-in_order (is_numbered sender from) rows,
      has_run-in_order rows sender (suc from) d,
    )

-- Where the contents of a session's messages can be read and no sender used a number twice, the
-- inbox shows a sender's message of a number if it is there unread and every lower number of
-- the sender from 1 on is there, and only then.
pub inbox_messages-has_run :
    {V : Type 0} ⦃x : External V⦄ (r : ReadsContent V) (t : Tables V) (session : ℕ)
    (rows : List Row)
    → inbox_rows r t session ≡ some rows
    → Once rows
    → (shown : List InboxMessage) × (inbox_messages r t session ≡ some shown)
      × ((sender d : ℕ)
          → any (is_shown sender (1 + d)) shown
            ≡ (any (is_unread sender (1 + d)) rows && has_run sender 1 d rows))
unfolding inbox_messages Once
inbox_messages-has_run r t session rows read once = (
  visible from_one (in_order is_before rows),
  rw read refl,
  λ sender d.
      visible-any (in_order is_before rows) from_one sender 1 d refl
        (in_order-IsOrdered is_before is_before-IsTotal rows)
        (λ s n. ground (arith, once s n, count-in_order is_before (is_numbered s n) rows))
      ∙ ground
          (arith, any-in_order (is_unread sender (1 + d)) rows, has_run-in_order rows sender 1 d),
)
