-- ===== src/Bus/Service.antt =====
-- The calls of bus.rs: `send_message_inner`, `inbox`, `ack_messages` and `message_session`.
pub mod Marked
pub mod Entries
pub mod Acked
use dotfile.Prelude.{
  ℕ, ◌+◌, String, Bool, true, false, not, ◌&&◌, Option, none, some, List, [], ◌∷◌, ◌++◌, Result, ok,
  err, guard, ok_or, ◌||◌, all, any, find, select, length, mem, leb, is_empty, one_of, str_eq,
  if◌then◌else◌, ◌==◌,
}
use dotfile.External.{UlidText, External}
use dotfile.Entry.{LogEntry}
use dotfile.Registry.Schema.{AliasRow, SessionRow, Message, Tables}
use dotfile.Registry.Fields.{str_field}
use dotfile.Registry.Store.{next_alias}
use dotfile.Registry.Lists.{in_order, messages}
use dotfile.Registry.Project.Messages.{is_some}
use dotfile.Edges.Add.{Journal}
use dotfile.Bus.{
  Content, InboxMessage, ReadsContent, alias_of, is_addressed, inbox_messages, next_pair_seq,
}
use dotfile.Calls.{
  ServiceError, empty_message, not_in_inbox, message_waits, bad_content, input_error,
  registry_error, Outcome, Call, lift, gets, ◌>>=◌, ◌>>◌, call, append_entry, allocate_alias,
  record_of, from_registry,
}

-- What the calls take from outside: the log's writer, serde_json's bodies, the device, the new id and
-- the counter of the human's session, the lock of the backend, and what a reopening leaves.
pub record Bus (V : Type 0) : Type 0 where
  pub journal : Journal V
  pub contents : ReadsContent V
  pub content_body : Content → Option ℕ → V
  pub message_id_body : ℕ → V
  pub human_body : ℕ → V
  pub device_id : ℕ
  pub alias_floor : ℕ
  pub new_id : ℕ
  pub reserve_counter : ℕ → Option ℕ
  pub delivery_guard : Option Bool
  pub reopen : SessionRow V → ℕ → Tables V → Tables V

abbrev is_text : Option String → String → Bool
is_text none s = false
is_text (some t) s = str_eq t s

abbrev pub in_alias_order : AliasRow → AliasRow → Bool
in_alias_order a b = leb a.alias b.alias

module _ {V : Type 0} where
  -- the rows of `Registry::sessions`, in its order
  abbrev pub rows_of : List AliasRow → List (SessionRow V) → List (SessionRow V)
  rows_of [] rows = []
  rows_of (a ∷ rest) rows =
      select (λ (row : SessionRow V). row.id == a.session_id) rows ++ rows_of rest rows

  abbrev pub listed_sessions : Tables V → List (SessionRow V)
  listed_sessions t = rows_of (in_order in_alias_order t.aliases) t.sessions

  abbrev pub is_mine : ℕ → ℕ → Message V → Bool
  is_mine session id m = m.id == id && is_addressed session m

  abbrev pub is_read : ℕ → ℕ → Message V → Bool
  is_read session id m = m.id == id && m.recipient == session && is_some m.read_at_ms

  -- every id is of a message to the session
  abbrev pub are_mine : ℕ → List ℕ → List (Message V) → Bool
  are_mine session ids rows = all (λ id. any (is_mine session id) rows) ids

  -- every id is shown, or was read
  abbrev pub are_reached : ℕ → List ℕ → List (Message V) → List InboxMessage → Bool
  are_reached session ids rows shown =
      all
        (λ id. any (λ (m : InboxMessage). m.event_id == id) shown || any (is_read session id) rows)
        ids

-- the messages to acknowledge: all where no id is given
abbrev pub is_pending : List ℕ → InboxMessage → Bool
is_pending [] m = true
is_pending (id ∷ ids) m = mem m.event_id (id ∷ ids)

module _ {V : Type 0} ⦃u : UlidText⦄ ⦃x : External V⦄ (b : Bus V) where
  open u use {show_ulid}

  abbrev is_human : SessionRow V → Bool
  is_human row = is_text (str_field row.body "human_device_id") (show_ulid b.device_id)

  abbrev pub human_or_new : Option (SessionRow V) → Call V (SessionRow V)
  human_or_new (some human) = lift (ok human)
  human_or_new none = allocate_alias b.alias_floor b.reserve_counter >>= λ alias.
      append_entry b.journal b.new_id "session.created" (b.human_body alias) >>= λ _.
      record_of (show_ulid b.new_id)

  -- the session itself, or the human's on this device
  unfoldable pub message_session : Option ℕ → Call V (SessionRow V)
  unfolding allocate_alias
  message_session (some session) = record_of (show_ulid session)
  message_session none = gets (λ t. find is_human (listed_sessions t)) >>= human_or_new

  -- a recipient that is over is reopened; an error of that is only printed
  abbrev reopened : SessionRow V → ℕ → Bool → Call V (Unit {0})
  reopened to from backend t = (
    ok tt,
    if backend && to.device_id == b.device_id && one_of ("finished" ∷ "failed" ∷ []) to.state
        then b.reopen to from t
        else t,
  )

  -- what is written, and who gets it
  unfoldable pub write_message :
      String → Option ℕ → String → Option ℕ → Call V (SessionRow V × InboxMessage)
  unfolding message_session next_pair_seq
  write_message target from body trigger = do
    call b.journal from "message.send" (some target)
    to ← record_of target
    lift (guard (not (is_empty body)) empty_message)
    sender ← message_session from
    alias ← gets (λ t. alias_of t (some sender.id))
    number ← gets (λ t. next_pair_seq t sender.id to.id)
    let content : Content = record {
      from_session = sender.id;
      to_session = to.id;
      pair_seq = number;
      body = body;
    }
    e ← append_entry b.journal sender.id "message.sent" (b.content_body content trigger)
    let message : InboxMessage = record {
      event_id = e.event_id;
      content = content;
      from_alias = alias;
    }
    lift (ok (to, message))

  unfoldable pub send_message_inner : String → Option ℕ → String → Option ℕ → Call V InboxMessage
  unfolding write_message
  send_message_inner target from body trigger = do
    (to, message) ← write_message target from body trigger
    backend ← lift (ok_or b.delivery_guard input_error)
    reopened to message.content.from_session backend
    lift (ok message)

  unfoldable pub inbox : ℕ → Call V (List InboxMessage)
  unfolding inbox_messages
  inbox session = do
    call b.journal (some session) "message.inbox" none
    found ← gets (λ t. inbox_messages b.contents t session)
    lift (ok_or found bad_content)

  -- an entry for each message
  unfoldable pub append_reads : ℕ → List InboxMessage → Call V (Unit {0})
  append_reads session [] = lift (ok tt)
  append_reads session (m ∷ rest) =
      append_entry b.journal session "message.read" (b.message_id_body m.event_id) >>= λ _.
      append_reads session rest

  unfoldable pub ack_messages : ℕ → List ℕ → Call V ℕ
  unfolding inbox append_reads messages
  ack_messages session ids = do
    call b.journal (some session) "message.ack" none
    rows ← gets messages
    lift (guard (are_mine session ids rows) not_in_inbox)
    shown ← inbox session
    lift (guard (are_reached session ids rows shown) message_waits)
    append_reads session (select (is_pending ids) shown)
    lift (ok (length (select (is_pending ids) shown)))
