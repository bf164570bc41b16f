-- ===== src/Bus.antt =====
-- Messages between sessions (ws-daemon/src/bus.rs): the number of the next message of a pair, and the
-- messages that an inbox shows. The calls are in the children.
pub mod Numbered
pub mod Service
use dotfile.Prelude.{
  ℕ, suc, ◌+◌, String, Bool, true, false, not, ◌&&◌, ◌||◌, Option, none, some, List, [], ◌∷◌, any,
  select, max, leb, ltb, if◌then◌else◌, ◌==◌,
}
use dotfile.External.{External}
use dotfile.Registry.Schema.{AliasRow, SessionRow, Message, Tables}
use dotfile.Registry.Project.Messages.{is_some, id_is}
use dotfile.Registry.Lists.{in_order, messages}

pub record Content : Type 0 where
  pub from_session : ℕ
  pub to_session : ℕ
  pub pair_seq : ℕ
  pub body : String

pub record InboxMessage : Type 0 where
  pub event_id : ℕ
  pub content : Content
  pub from_alias : Option ℕ

-- what serde_json reads a content from; `none` where it refuses the value
pub record ReadsContent (V : Type 0) : Type 0 where
  pub read_content : V → Option Content

abbrev alias_in : ℕ → List AliasRow → Option ℕ
alias_in session [] = none
alias_in session (a ∷ rest) =
    if a.session_id == session then some a.alias else alias_in session rest

-- a message and whether it was read
abbrev pub Row : Type 0
Row = InboxMessage × Bool

abbrev pub number_of : Row → ℕ
number_of (m, read) = m.content.pair_seq

abbrev pub sender_of : Row → ℕ
sender_of (m, read) = m.content.from_session

-- `sort_by_key` of the number and the id
abbrev pub is_before : Row → Row → Bool
is_before (m, _) (n, _) =
    ltb m.content.pair_seq n.content.pair_seq
    || (m.content.pair_seq == n.content.pair_seq && leb m.event_id n.event_id)

-- the number that is expected from each sender
abbrev pub Expected : Type 0
Expected = ℕ → ℕ

abbrev pub from_one : Expected
from_one sender = 1

abbrev pub count_up : Bool → ℕ → Expected → Expected
count_up here sender next other = if here && other == sender then suc (next other) else next other

-- the messages that no earlier one holds back, without those that were read
unfoldable pub visible : Expected → List Row → List InboxMessage
visible next [] = []
visible next ((m, read) ∷ rest) =
    let here = m.content.pair_seq == next m.content.from_session in
    let later = visible (count_up here m.content.from_session next) rest in
    if here && not read then m ∷ later else later

abbrev pub put_row : Option Row → Option (List Row) → Option (List Row)
put_row (some row) (some rows) = some (row ∷ rows)
put_row _ _ = none

module _ {V : Type 0} where
  -- the alias in `Registry::sessions`
  abbrev pub alias_of : Tables V → Option ℕ → Option ℕ
  alias_of t none = none
  alias_of t (some session) =
      if any (λ (row : SessionRow V). row.id == session) t.sessions
      then alias_in session t.aliases
      else none

  abbrev pub row_of : Tables V → Message V → Option Content → Option Row
  row_of t m none = none
  row_of t m (some content) = some (
    (record { event_id = m.id; content = content; from_alias = alias_of t m.sender }),
    is_some m.read_at_ms,
  )

  abbrev pub is_addressed : ℕ → Message V → Bool
  is_addressed session m = m.recipient == session && is_some m.sender

  abbrev pub is_sent : ℕ → ℕ → Message V → Bool
  is_sent from to m = id_is m.sender from && m.recipient == to

module _ {V : Type 0} ⦃x : External V⦄ (r : ReadsContent V) where
  open x use {null}
  open r use {read_content}

  -- `unwrap_or_default` of the body, and its content
  abbrev pub content_of : Option V → Option Content
  content_of none = read_content null
  content_of (some body) = read_content body

  -- `none` where a content cannot be read
  unfoldable pub read_rows : Tables V → List (Message V) → Option (List Row)
  read_rows t [] = some []
  read_rows t (m ∷ rest) = put_row (row_of t m (content_of m.body)) (read_rows t rest)

  unfoldable pub inbox_rows : Tables V → ℕ → Option (List Row)
  unfolding read_rows messages
  inbox_rows t session = read_rows t (select (is_addressed session) (messages t))

abbrev pub greatest : Option ℕ → ℕ → ℕ
greatest none rest = rest
greatest (some n) rest = max n rest

abbrev pub sorted_visible : Option (List Row) → Option (List InboxMessage)
sorted_visible none = none
sorted_visible (some rows) = some (visible from_one (in_order is_before rows))

module _ {V : Type 0} ⦃x : External V⦄ where
  open x use {get, as_u64}

  -- what `inbox` answers, after the entry of its call
  unfoldable pub inbox_messages : ReadsContent V → Tables V → ℕ → Option (List InboxMessage)
  unfolding inbox_rows visible in_order
  inbox_messages r t session = sorted_visible (inbox_rows r t session)

  abbrev pub u64_of : Option V → Option ℕ
  u64_of none = none
  u64_of (some v) = as_u64 v

  abbrev pub pair_seq_of : Option V → Option ℕ
  pair_seq_of none = none
  pair_seq_of (some body) = u64_of (get body "pair_seq")

  unfoldable pub max_pair_seq : ℕ → ℕ → List (Message V) → ℕ
  max_pair_seq from to [] = 0
  max_pair_seq from to (m ∷ rest) =
      let later = max_pair_seq from to rest in
      if is_sent from to m then greatest (pair_seq_of m.body) later else later

  unfoldable pub next_pair_seq : Tables V → ℕ → ℕ → ℕ
  unfolding max_pair_seq messages
  next_pair_seq t from to = max_pair_seq from to (messages t) + 1
