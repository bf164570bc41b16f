-- ===== src/Registry/Project/Messages.antt =====
-- `project_message`, `validate_message` and `check_recipient`: a message's row is made by the
-- sender's log or by the recipient's, whichever comes first.
pub mod Steps
pub mod Order
use dotfile.Prelude.{
  ℕ, String, Bool, false, not, Option, none, some, List, ◌∷◌, Result, ok, ok_or, guard, ◌>>=◌, ◌>>◌,
  ◌&&◌, str_eq, min, ltb, find, any, update, if◌then◌else◌, ◌==◌,
}
use dotfile.Entry.{LogEntry}
use dotfile.External.{UlidText, External}
use dotfile.Registry.Schema.{Message, Tables, Error, invalid_event}
use dotfile.Registry.Schema.{sender_not_owner, conflicting_recipients, bad_pair_seq}
use dotfile.Registry.Schema.{pair_seq_taken, wrong_recipient}
use dotfile.Registry.Fields.{sql_number, required_str, required_id}
use dotfile.Registry.Project.Edges.{remove_action_edges}

-- 1 << 53
abbrev pub safe_limit : ℕ
safe_limit = 9007199254740992

abbrev pub is_some {ℓ} : {A : Type ℓ} → Option A → Bool
is_some none = false
is_some (some _) = Bool.true

abbrev pub id_is : Option ℕ → ℕ → Bool
id_is none n = false
id_is (some m) n = m == n

abbrev in_range : Option ℕ → Option ℕ
in_range none = none
in_range (some n) = if ltb 0 n && ltb n safe_limit then some n else none

-- `MIN(COALESCE(column, excluded.column), excluded.column)`
abbrev pub earlier : Option ℕ → ℕ → Option ℕ
earlier none now = some now
earlier (some old) now = some (min old now)

module _ {V : Type 0} where
  abbrev pub find_message : ℕ → List (Message V) → Option (Message V)
  find_message id = find (λ m. m.id == id)

  unfoldable pub check_recipient : Tables V → ℕ → ℕ → Result Error (Unit {0})
  check_recipient t id recipient = elim (find_message id t.messages) [
    | none ↦ ok tt
    | some m ↦ guard (m.recipient == recipient) (invalid_event wrong_recipient)
  ]

  -- `INSERT INTO messages … ON CONFLICT(id) DO UPDATE`
  unfoldable pub upsert_message :
      Message V → (Message V → Message V) → List (Message V) → List (Message V)
  upsert_message row f ms = elim (find_message row.id ms) [
    | none ↦ row ∷ ms
    | some _ ↦ update (λ m. m.id == row.id) f ms
  ]

  abbrev pub bare_message : ℕ → ℕ → Message V
  bare_message id recipient = record {
    id = id;
    sender = none;
    recipient = recipient;
    body = none;
    sent_at_ms = none;
    delivered_at_ms = none;
    read_at_ms = none;
  }

  -- `SET sender = excluded.sender, body = excluded.body, sent_at_ms = excluded.sent_at_ms`
  abbrev pub sent_by : ℕ → V → ℕ → Message V → Message V
  sent_by sender body now m = record m {
    sender = some sender;
    body = some body;
    sent_at_ms = some now;
  }

  abbrev pub delivered_at : ℕ → Message V → Message V
  delivered_at now m = record m { delivered_at_ms = earlier m.delivered_at_ms now }

  abbrev pub read_at : ℕ → Message V → Message V
  read_at now m = record m { read_at_ms = earlier m.read_at_ms now }

module _ {V : Type 0} ⦃u : UlidText⦄ ⦃x : External V⦄ where
  open x use {get, as_u64, extract_integer}

  abbrev has_field : LogEntry V → String → Bool
  has_field e field = is_some (get e.body field)

  abbrev u64_field : LogEntry V → String → Option ℕ
  u64_field e field = elim (get e.body field) [ none ↦ none | some v ↦ as_u64 v ]

  -- a `recipient` field beside `to_session` names the same session
  check_conflict : LogEntry V → ℕ → Result Error (Unit {0})
  unfolding required_id
  check_conflict e recipient =
      if has_field e "recipient"
      then (do
        named ← required_id e "recipient"
        guard (named == recipient) (invalid_event conflicting_recipients))
      else ok tt

  -- the row of this sender, recipient and pair sequence number
  abbrev pub body_pair_seq : Option V → Option ℕ
  body_pair_seq none = none
  body_pair_seq (some v) = extract_integer v "pair_seq"

  abbrev pub is_pair : ℕ → ℕ → ℕ → Message V → Bool
  is_pair sender recipient seq m =
      id_is m.sender sender && m.recipient == recipient && id_is (body_pair_seq m.body) seq

  validate_message : Tables V → LogEntry V → ℕ → Result Error (Unit {0})
  unfolding required_id required_str check_conflict sql_number
  validate_message t e recipient = do
    from ← required_id e "from_session"
    guard (from == e.session_id) (invalid_event sender_not_owner)
    check_conflict e recipient
    pair_seq ← ok_or (in_range (u64_field e "pair_seq")) (invalid_event bad_pair_seq)
    _ ← required_str e "body"
    number ← sql_number pair_seq
    guard (not (any (is_pair e.session_id recipient number) t.messages))
        (invalid_event pair_seq_taken)

  pub drop_action_edges : Tables V → LogEntry V → Result Error (Tables V)
  unfolding remove_action_edges
  drop_action_edges t e = if has_field e "trigger_id" then remove_action_edges t e else ok t

  validate_addressed : Tables V → LogEntry V → ℕ → Result Error (Unit {0})
  unfolding validate_message
  validate_addressed t e recipient =
      if has_field e "to_session" then validate_message t e recipient else ok tt

  send_message : Tables V → LogEntry V → Result Error (Tables V)
  unfolding drop_action_edges required_id validate_addressed check_recipient sql_number
  send_message t e = do
    t' ← drop_action_edges t e
    recipient ← required_id e (if has_field e "to_session" then "to_session" else "recipient")
    validate_addressed t' e recipient
    check_recipient t' e.event_id recipient
    now ← sql_number e.ts_ms
    let row = sent_by e.session_id e.body now (bare_message e.event_id recipient)
    ok (record t' { messages = upsert_message row (sent_by e.session_id e.body now) t'.messages })

  -- `message.delivered` and `message.read`; `set` is the column's update
  unfoldable pub note_message :
      Tables V → LogEntry V → (ℕ → Message V → Message V) → Result Error (Tables V)
  unfolding required_id check_recipient sql_number
  note_message t e set = do
    id ← required_id e "message_id"
    check_recipient t id e.session_id
    now ← sql_number e.ts_ms
    let row = set now (bare_message id e.session_id)
    ok (record t { messages = upsert_message row (set now) t.messages })

  unfoldable pub project_message : Tables V → LogEntry V → Result Error (Tables V)
  unfolding send_message note_message
  project_message t e =
      if str_eq e.event_type "message.sent"
      then send_message t e
      else if str_eq e.event_type "message.delivered"
      then note_message t e delivered_at
      else if str_eq e.event_type "message.read"
      then note_message t e read_at
      else ok t
