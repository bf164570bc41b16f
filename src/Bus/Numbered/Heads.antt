-- ===== src/Bus/Numbered/Heads.antt =====
-- What the first message of the sorted rows adds to what is shown.
use dotfile.Prelude.{
  ℕ, zero, suc, ◌+◌, ◌≤◌, Bool, true, false, not, ◌&&◌, ◌||◌, List, [], ◌∷◌, ◌≡◌, refl, subst, any,
  count, Bool-cases, inl, inr, arith, leb, if◌then◌else◌, ◌==◌,
}
use dotfile.Registry.Lists.Ordered.{IsOrdered}
use dotfile.Bus.{InboxMessage, Row, number_of, is_before}
use dotfile.Bus.Numbered.{is_numbered, is_unread, is_shown, has_run, Once}

-- every later number is at least the first
from_below :
    (row : Row) (rows : List Row) (sender n : ℕ)
    → IsOrdered is_before (row ∷ rows)
    → leb (number_of row) n ≡ false
    → any (is_numbered sender n) rows ≡ false
unfolding IsOrdered
from_below row [] sender n o h = refl
from_below row (next ∷ rows) sender n o h = ground (arith, from_below next rows sender n o.1)

pub has_run-skip :
    (row : Row) (rows : List Row) (sender from d : ℕ)
    → ((k : ℕ) → leb from k ≡ true → is_numbered sender k row ≡ false)
    → has_run sender from d (row ∷ rows) ≡ has_run sender from d rows
has_run-skip row rows sender from zero h = refl
has_run-skip row rows sender from (suc d) h =
    ground (arith, h from, has_run-skip row rows sender (suc from) d (λ k q. h k (ground arith)))

pub Once-rest : (row : Row) (rows : List Row) → Once (row ∷ rows) → Once rows
unfolding Once
Once-rest row rows once sender n = ground (arith, once sender n)

any-count : (p : Row → Bool) (rows : List Row) → count p rows ≤ 0 → any p rows ≡ false
any-count p [] h = refl
any-count p (row ∷ rows) h = ground (arith, any-count p rows)

-- the first number of a sender is not used again
pub Once-first :
    (row : Row) (rows : List Row) (sender n : ℕ)
    → Once (row ∷ rows)
    → is_numbered sender n row ≡ true
    → any (is_numbered sender n) rows ≡ false
unfolding Once
Once-first row rows sender n once h =
    any-count (is_numbered sender n) rows (ground (arith, once sender n))

any-unread :
    (rows : List Row) (sender n : ℕ)
    → any (is_numbered sender n) rows ≡ false
    → any (is_unread sender n) rows ≡ false
any-unread [] sender n h = refl
any-unread (row ∷ rows) sender n h = ground (arith, any-unread rows sender n)

pub IsOrdered-rest :
    (row : Row) (rows : List Row) → IsOrdered is_before (row ∷ rows) → IsOrdered is_before rows
unfolding IsOrdered
IsOrdered-rest row [] o = tt
IsOrdered-rest row (next ∷ rows) o = o.1

pub any-if :
    (p : InboxMessage → Bool) (test : Bool) (m : InboxMessage) (later : List InboxMessage)
    → any p (if test then m ∷ later else later) ≡ (test && p m || any p later)
any-if p false m later = refl
any-if p true m later = refl

-- the message of another sender
pub head_other :
    (m : InboxMessage) (read here : Bool) (rest : List Row) (sender from d : ℕ)
    (later : List InboxMessage)
    → (m.content.from_session == sender) ≡ false
    → any (is_shown sender (from + d)) later
      ≡ (any (is_unread sender (from + d)) rest && has_run sender from d rest)
    → any (is_shown sender (from + d)) (if here && not read then m ∷ later else later) ≡ (
        any (is_unread sender (from + d)) ((m, read) ∷ rest)
        && has_run sender from d ((m, read) ∷ rest))
head_other m read here rest sender from d later other induct = ground (
  arith,
  any-if (is_shown sender (from + d)) (here && not read) m later,
  has_run-skip (m, read) rest sender from d (λ k h. ground arith),
)

-- the message that is expected
head_expected_first :
    (m : InboxMessage) (read : Bool) (rest : List Row) (sender from : ℕ) (later : List InboxMessage)
    → (m.content.from_session == sender) ≡ true
    → (m.content.pair_seq == from) ≡ true
    → any (is_numbered sender from) rest ≡ false
    → any (is_shown sender from) later ≡ false
    → any (is_shown sender from) (if not read then m ∷ later else later)
      ≡ (any (is_unread sender from) ((m, read) ∷ rest) && true)
head_expected_first m read rest sender from later own expected once below =
    ground
      (arith, any-if (is_shown sender from) (not read) m later, any-unread rest sender from once)

head_expected_later :
    (m : InboxMessage) (read : Bool) (rest : List Row) (sender from d : ℕ)
    (later : List InboxMessage)
    → (m.content.from_session == sender) ≡ true
    → (m.content.pair_seq == from) ≡ true
    → any (is_shown sender (suc from + d)) later
      ≡ (any (is_unread sender (suc from + d)) rest && has_run sender (suc from) d rest)
    → any (is_shown sender (from + suc d)) (if not read then m ∷ later else later) ≡ (
        any (is_unread sender (from + suc d)) ((m, read) ∷ rest)
        && has_run sender from (suc d) ((m, read) ∷ rest))
head_expected_later m read rest sender from d later own expected induct = ground (
  arith,
  any-if (is_shown sender (from + suc d)) (not read) m later,
  has_run-skip (m, read) rest sender (suc from) d (λ k h. ground arith),
)

pub head_expected :
    (m : InboxMessage) (read : Bool) (rest : List Row) (sender from d : ℕ)
    (later : List InboxMessage)
    → (m.content.from_session == sender) ≡ true
    → (m.content.pair_seq == from) ≡ true
    → any (is_numbered sender from) rest ≡ false
    → ((k : ℕ)
        → any (is_shown sender (suc from + k)) later
          ≡ (any (is_unread sender (suc from + k)) rest && has_run sender (suc from) k rest))
    → any (is_shown sender from) later ≡ false
    → any (is_shown sender (from + d)) (if not read then m ∷ later else later) ≡ (
        any (is_unread sender (from + d)) ((m, read) ∷ rest)
        && has_run sender from d ((m, read) ∷ rest))
head_expected m read rest sender from zero later own expected once shows below =
    let same : from ≡ from + 0 = omega arith in
    subst
      (λ n.
        any (is_shown sender n) (if not read then m ∷ later else later)
        ≡ (any (is_unread sender n) ((m, read) ∷ rest) && true))
      same (head_expected_first m read rest sender from later own expected once below)
head_expected m read rest sender from (suc d) later own expected once shows below =
    head_expected_later m read rest sender from d later own expected (shows d)

-- a message that is not the next of its sender
pub head_held :
    (m : InboxMessage) (read : Bool) (rest : List Row) (sender from d : ℕ)
    (later : List InboxMessage)
    → (m.content.from_session == sender) ≡ true
    → (m.content.pair_seq == from) ≡ false
    → IsOrdered is_before ((m, read) ∷ rest)
    → any (is_shown sender (from + d)) later
      ≡ (any (is_unread sender (from + d)) rest && has_run sender from d rest)
    → any (is_shown sender (from + d)) later ≡ (
        any (is_unread sender (from + d)) ((m, read) ∷ rest)
        && has_run sender from d ((m, read) ∷ rest))
head_held m read rest sender from zero later own other o induct = ground arith
head_held m read rest sender from (suc d) later own other o induct =
    elim (Bool-cases (leb m.content.pair_seq from)) [
      | inl passed ↦
          ground (arith, has_run-skip (m, read) rest sender from (suc d) (λ k h. ground arith))
      | inr ahead ↦ ground (arith, from_below (m, read) rest sender from o ahead)
    ]
