-- ===== src/Bus/Service/Marked.antt =====
-- What an entry that a message was read does to the inboxes.
use dotfile.Prelude.{
  ℕ, Bool, true, false, not, ◌||◌, Option, none, some, List, [], ◌∷◌, ◌≡◌, ◌∙◌, ap, sym, refl, inl,
  inr, Option-cases, select, update, map, ◌==◌, if◌then◌else◌, arith,
}
use dotfile.External.{External}
use dotfile.Registry.Schema.{Message, Tables}
use dotfile.Registry.Project.Messages.{
  is_some, find_message, upsert_message, bare_message, read_at, earlier,
}
use dotfile.Registry.Lists.{insert_in_order, in_order, by_id, messages}
use dotfile.Bus.{
  Content, InboxMessage, ReadsContent, Row, is_before, Expected, from_one, count_up, visible,
  sorted_visible, alias_of, is_addressed, content_of, put_row, row_of, read_rows, inbox_rows,
  inbox_messages,
}

-- the row of a message once it was read
abbrev pub mark : ℕ → Row → Row
mark id (m, read) = (m, m.event_id == id || read)

abbrev pub is_other : ℕ → InboxMessage → Bool
is_other id m = not (m.event_id == id)

insert-mark :
    (id : ℕ) (row : Row) (rows : List Row)
    → insert_in_order is_before (mark id row) (map (mark id) rows)
      ≡ map (mark id) (insert_in_order is_before row rows)
unfolding insert_in_order
insert-mark id row [] = refl
insert-mark id row (next ∷ rows) = ground (arith, insert-mark id row rows)

in_order-mark :
    (id : ℕ) (rows : List Row)
    → in_order is_before (map (mark id) rows) ≡ map (mark id) (in_order is_before rows)
unfolding in_order
in_order-mark id [] = refl
in_order-mark id (row ∷ rows) =
    ap (insert_in_order is_before (mark id row)) (in_order-mark id rows)
    ∙ insert-mark id row (in_order is_before rows)

-- a message that was read is shown no more, and the others stay
visible-mark :
    (id : ℕ) (next : Expected) (rows : List Row)
    → visible next (map (mark id) rows) ≡ select (is_other id) (visible next rows)
unfolding visible
visible-mark id next [] = refl
visible-mark id next ((m, read) ∷ rest) =
    let here = m.content.pair_seq == next m.content.from_session in
    ground (arith, visible-mark id (count_up here m.content.from_session next) rest)

module _ {V : Type 0} where
  abbrev note : ℕ → ℕ → List (Message V) → List (Message V)
  note id now = update (λ m. m.id == id) (read_at now)

  insert-note :
      (id now : ℕ) (m : Message V) (ms : List (Message V))
      → insert_in_order by_id (if m.id == id then read_at now m else m) (note id now ms)
        ≡ note id now (insert_in_order by_id m ms)
  unfolding insert_in_order
  insert-note id now m [] = ground arith
  insert-note id now m (n ∷ ns) = ground (arith, insert-note id now m ns)

  in_order-note :
      (id now : ℕ) (ms : List (Message V))
      → in_order by_id (note id now ms) ≡ note id now (in_order by_id ms)
  unfolding in_order
  in_order-note id now [] = refl
  in_order-note id now (m ∷ ms) =
      ap (insert_in_order by_id (if m.id == id then read_at now m else m)) (in_order-note id now ms)
      ∙ insert-note id now m (in_order by_id ms)

  select-note :
      (session id now : ℕ) (ms : List (Message V))
      → select (is_addressed session) (note id now ms)
        ≡ note id now (select (is_addressed session) ms)
  select-note session id now [] = refl
  select-note session id now (m ∷ ms) = ground (arith, select-note session id now ms)

  -- a row without a sender is in no inbox
  select-bare :
      (session : ℕ) (row : Message V) (ms : List (Message V))
      → row.sender ≡ none
      → select (is_addressed session) (insert_in_order by_id row ms)
        ≡ select (is_addressed session) ms
  unfolding insert_in_order
  select-bare session row [] bare = ground arith
  select-bare session row (m ∷ ms) bare = ground (arith, select-bare session row ms bare)

module _ {V : Type 0} where
  update-none :
      (id now : ℕ) (ms : List (Message V)) → find_message id ms ≡ none → note id now ms ≡ ms
  update-none id now [] h = refl
  update-none id now (m ∷ ms) h = ground (arith, update-none id now ms)

  select-upsert :
      (session id now reader : ℕ) (ms : List (Message V))
      → select
          (is_addressed session)
          (in_order by_id (upsert_message (read_at now (bare_message id reader)) (read_at now) ms))
        ≡ note id now (select (is_addressed session) (in_order by_id ms))
  unfolding upsert_message in_order
  select-upsert session id now reader ms =
      let row : Message V = read_at now (bare_message id reader) in
      let shown_of : List (Message V) → List (Message V) =
        λ rows. select (is_addressed session) (in_order by_id rows) in
      let marked : shown_of (note id now ms) ≡ note id now (shown_of ms) =
        ap (select (is_addressed session)) (in_order-note id now ms)
        ∙ select-note session id now (in_order by_id ms) in
      elim (Option-cases (find_message id ms)) [
        | inl missing ↦
            let made : upsert_message row (read_at now) ms ≡ row ∷ ms = ground arith in
            ap shown_of made
            ∙ select-bare session row (in_order by_id ms) refl
            ∙ ap shown_of (sym (update-none id now ms missing))
            ∙ marked
        | inr (m, found) ↦
            let filled : upsert_message row (read_at now) ms ≡ note id now ms = ground arith in
            ap shown_of filled ∙ marked
      ]

abbrev pub map_option : {A B : Type 0} → (A → B) → Option A → Option B
map_option f none = none
map_option f (some a) = some (f a)

shown-mark :
    (id : ℕ) (rows : Option (List Row))
    → sorted_visible (map_option (map (mark id)) rows)
      ≡ map_option (select (is_other id)) (sorted_visible rows)
shown-mark id none = refl
shown-mark id (some rows) = ap some (
    ap (visible from_one) (in_order-mark id rows)
    ∙ visible-mark id from_one (in_order is_before rows))

put-mark :
    (id : ℕ) (row : Option Row) (rows : Option (List Row))
    → put_row (map_option (mark id) row) (map_option (map (mark id)) rows)
      ≡ map_option (map (mark id)) (put_row row rows)
put-mark id none rows = refl
put-mark id (some row) none = refl
put-mark id (some row) (some rows) = refl

earlier-some : (old : Option ℕ) (now : ℕ) → is_some (earlier old now) ≡ true
earlier-some none now = refl
earlier-some (some before) now = refl

module _ {V : Type 0} where
  row_of_test :
      (t : Tables V) (test : Bool) (now : ℕ) (m : Message V) (content : Content)
      → row_of t (if test then read_at now m else m) (some content)
        ≡ some (
          (record { event_id = m.id; content = content; from_alias = alias_of t m.sender }),
          test || is_some m.read_at_ms,
        )
  row_of_test t false now m content = refl
  row_of_test t true now m content = rw (earlier-some m.read_at_ms now) refl

  row_of-note :
      (t : Tables V) (id now : ℕ) (m : Message V) (content : Option Content)
      → row_of t (if m.id == id then read_at now m else m) content
        ≡ map_option (mark id) (row_of t m content)
  row_of-note t id now m none = refl
  row_of-note t id now m (some content) = row_of_test t (m.id == id) now m content

  body-note :
      (test : Bool) (now : ℕ) (m : Message V) → (if test then read_at now m else m).body ≡ m.body
  body-note false now m = refl
  body-note true now m = refl

module _ {V : Type 0} ⦃x : External V⦄ (r : ReadsContent V) where
  read_rows-note :
      (t : Tables V) (id now : ℕ) (ms : List (Message V))
      → read_rows r t (note id now ms) ≡ map_option (map (mark id)) (read_rows r t ms)
  unfolding read_rows
  read_rows-note t id now [] = refl
  read_rows-note t id now (m ∷ ms) =
      let same = ap (content_of r) (body-note (m.id == id) now m) in
      rw (same, row_of-note t id now m (content_of r m.body), read_rows-note t id now ms)
        (put-mark id (row_of t m (content_of r m.body)) (read_rows r t ms))

  -- tables with the same sessions
  module _ (t t' : Tables V) (same : t'.sessions ≡ t.sessions)
      (same' : t'.aliases ≡ t.aliases) where
    alias_of-same : (sender : Option ℕ) → alias_of t' sender ≡ alias_of t sender
    alias_of-same none = refl
    alias_of-same (some sender) = rw (same, same') refl

    row_of-same :
        (m : Message V) (content : Option Content) → row_of t' m content ≡ row_of t m content
    row_of-same m none = refl
    row_of-same m (some content) = rw (alias_of-same m.sender) refl

    read_rows-same : (ms : List (Message V)) → read_rows r t' ms ≡ read_rows r t ms
    unfolding read_rows
    read_rows-same [] = refl
    read_rows-same (m ∷ ms) = rw (row_of-same m (content_of r m.body), read_rows-same ms) refl

    pub inbox_messages-same :
        t'.messages ≡ t.messages
        → (session : ℕ) → inbox_messages r t' session ≡ inbox_messages r t session
    unfolding inbox_messages inbox_rows messages
    inbox_messages-same kept session = rw kept (
        ap sorted_visible
          (read_rows-same (select (is_addressed session) (in_order by_id t.messages))))

    -- the entry takes the message out of what an inbox shows
    pub inbox_messages-mark :
        (id now reader : ℕ)
        → t'.messages
          ≡ upsert_message (read_at now (bare_message id reader)) (read_at now) t.messages
        → (session : ℕ)
        → inbox_messages r t' session
          ≡ map_option (select (is_other id)) (inbox_messages r t session)
    unfolding inbox_messages inbox_rows messages
    inbox_messages-mark id now reader noted session =
        let ms = select (is_addressed session) (in_order by_id t.messages) in
        rw (noted, select-upsert session id now reader t.messages)
          (ap sorted_visible (read_rows-same (note id now ms) ∙ read_rows-note t id now ms)
            ∙ shown-mark id (read_rows r t ms))
