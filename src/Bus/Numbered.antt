-- ===== src/Bus/Numbered.antt =====
-- The numbers of an inbox's messages, for each sender.
pub mod Heads
pub mod Shown
pub mod Next
use dotfile.Prelude.{
  ℕ, zero, suc, ◌+◌, ◌≤◌, Bool, true, false, not, ◌&&◌, ◌||◌, Option, none, some, List, [], ◌∷◌,
  ◌≡◌, ◌∙◌, refl, ap, sym, subst, any, count, Bool-cases, inl, inr, arith, leb, ltb, if◌then◌else◌,
  ◌==◌, ==_iff,
}
use dotfile.External.{External}
use dotfile.Registry.Schema.{Tables}
use dotfile.Registry.Lists.{in_order}
use dotfile.Registry.Lists.Ordered.{IsOrdered, IsTotal, in_order-IsOrdered, count-in_order}
use dotfile.Bus.{
  Content, InboxMessage, ReadsContent, Row, number_of, sender_of, is_before, Expected, from_one,
  count_up, visible, inbox_rows, inbox_messages,
}

abbrev pub is_numbered : ℕ → ℕ → Row → Bool
is_numbered sender n row = sender_of row == sender && number_of row == n

abbrev pub is_unread : ℕ → ℕ → Row → Bool
is_unread sender n row = is_numbered sender n row && not row.1

abbrev pub is_shown : ℕ → ℕ → InboxMessage → Bool
is_shown sender n m = m.content.from_session == sender && m.content.pair_seq == n

-- the numbers from `from` on, as many as `count`, are all there
abbrev pub has_run : ℕ → ℕ → ℕ → List Row → Bool
has_run sender from zero rows = true
has_run sender from (suc n) rows =
    any (is_numbered sender from) rows && has_run sender (suc from) n rows

-- no sender used a number twice
unfoldable pub Once : List Row → Type 0
Once rows = (sender n : ℕ) → count (is_numbered sender n) rows ≤ 1
