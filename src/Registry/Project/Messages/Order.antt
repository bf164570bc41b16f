-- ===== src/Registry/Project/Messages/Order.antt =====
-- The sender's log and the recipient's log reach the index in any order.
use dotfile.Prelude.{
  ℕ, true, none, some, Option, List, ok, ◌≡◌, refl, sym, ap, ◌∙◌, subst, >>=-ok, Option-cases,
  Bool-cases, ◌⊎◌, inl, inr, ◌==◌, ==_iff, find-update, find-update-none, find-holds, if◌then◌else◌,
  arith,
}
use dotfile.Entry.{LogEntry}
use dotfile.External.{UlidText, External}
use dotfile.Registry.Schema.{Tables, Message}
use dotfile.Registry.Fields.{required_id, sql_number}
use dotfile.Registry.Project.Messages.{
  find_message, upsert_message, check_recipient, sent_by, bare_message, has_field, project_message,
  drop_action_edges, validate_addressed, send_message, note_message, delivered_at, read_at,
}
use dotfile.Registry.Project.Messages.Steps.{drop_action_edges_lem, recipient_checked}

module _ {V : Type 0} where
  -- the row after an insertion or an update
  abbrev put : Message V → (Message V → Message V) → Option (Message V) → Message V
  put row f none = row
  put row f (some m) = f m

  find-upsert :
      (id : ℕ) (row : Message V) (f : Message V → Message V) (ms : List (Message V))
      → ((m : Message V) → (f m).id ≡ m.id)
      → find_message id (upsert_message row f ms)
        ≡ (if row.id == id then some (put row f (find_message id ms)) else find_message id ms)
  unfolding upsert_message
  find-upsert id row f ms same = elim (Option-cases (find_message row.id ms)) [
    | inl free ↦ ground (arith, λ (p : row.id ≡ id). subst (λ i. find_message i ms ≡ none) p free)
    | inr (m, there) ↦ elim (Bool-cases (row.id == id)) [
      | inl here ↦
          let e : row.id ≡ id = (==_iff row.id id).0 here in
          let found : find_message id ms ≡ some m =
            subst (λ i. find_message i ms ≡ some m) e there in
          ground (
            arith,
            find-update (λ r. r.id == id) (λ r. r.id == row.id) f (λ r. ap (λ i. i == id) (same r))
                ms m found,
            find-holds (λ r. r.id == id) ms m found,
          )
      | inr other ↦ elim (Option-cases (find_message id ms)) [
        | inl missing ↦ ground (
          arith,
          find-update-none (λ r. r.id == id) (λ r. r.id == row.id) f
              (λ r. ap (λ i. i == id) (same r)) ms missing,
        )
        | inr (n, found) ↦ ground (
          arith,
          find-update (λ r. r.id == id) (λ r. r.id == row.id) f (λ r. ap (λ i. i == id) (same r)) ms
              n found,
          find-holds (λ r. r.id == id) ms n found,
        )
      ]
    ]
  ]

  -- what the second of two upserts finds at an id, from what was there before
  abbrev upserted :
      ℕ → Message V → (Message V → Message V) → Option (Message V) → Option (Message V)
  upserted i row f o = if row.id == i then some (put row f o) else o

  upserted_comm :
      (g h : Message V → Message V) (ra rb : Message V) (i : ℕ) (o : Option (Message V))
      → ((m : Message V) → g (h m) ≡ h (g m))
      → (o ≡ none → (ra.id == i) ≡ true → (rb.id == i) ≡ true → ra ≡ rb)
      → (g ra).id ≡ ra.id
      → (h rb).id ≡ rb.id
      → upserted i (h rb) h (upserted i (g ra) g o) ≡ upserted i (g ra) g (upserted i (h rb) h o)
  upserted_comm g h ra rb i none comm agree ga hb = ground (arith, comm ra, comm rb, agree refl)
  upserted_comm g h ra rb i (some m) comm agree ga hb = ground (arith, comm m)

  -- two upserts in either order, where the updates commute and new rows are one row
  upsert_comm :
      (g h : Message V → Message V) (ra rb : Message V) (ms : List (Message V)) (i : ℕ)
      → ((m : Message V) → (g m).id ≡ m.id)
      → ((m : Message V) → (h m).id ≡ m.id)
      → ((m : Message V) → g (h m) ≡ h (g m))
      → (find_message i ms ≡ none → (ra.id == i) ≡ true → (rb.id == i) ≡ true → ra ≡ rb)
      → find_message i (upsert_message (h rb) h (upsert_message (g ra) g ms))
        ≡ find_message i (upsert_message (g ra) g (upsert_message (h rb) h ms))
  upsert_comm g h ra rb ms i gs hs comm agree =
      find-upsert i (h rb) h (upsert_message (g ra) g ms) hs
      ∙ ap (upserted i (h rb) h) (find-upsert i (g ra) g ms gs)
      ∙ upserted_comm g h ra rb i (find_message i ms) comm agree (gs ra) (hs rb)
      ∙ sym (ap (upserted i (g ra) g) (find-upsert i (h rb) h ms hs))
      ∙ sym (find-upsert i (g ra) g (upsert_message (h rb) h ms) gs)

module _ {V : Type 0} where
  -- the rows after the recipient's note and then the sender's entry
  noted_then_sent :
      LogEntry V
      → LogEntry V
      → (ℕ → Message V → Message V)
      → List (Message V)
      → ℕ
      → ℕ
      → ℕ
      → ℕ
      → List (Message V)
  noted_then_sent a b set ms to at id now =
      upsert_message (sent_by a.session_id a.body at (bare_message a.event_id to))
        (sent_by a.session_id a.body at)
        (upsert_message (set now (bare_message id b.session_id)) (set now) ms)

  noted_then_sent_eq :
      (a b : LogEntry V) (set : ℕ → Message V → Message V) (ms : List (Message V))
      {to to' at at' id id' now now' : ℕ}
      → to ≡ to'
      → at ≡ at'
      → id ≡ id'
      → now ≡ now'
      → noted_then_sent a b set ms to at id now ≡ noted_then_sent a b set ms to' at' id' now'
  noted_then_sent_eq a b set ms p q r s = cc

module _ {V : Type 0} ⦃u : UlidText⦄ ⦃x : External V⦄ where
  -- what `message.sent` does to the messages
  record Sent (e : LogEntry V) (t t' : Tables V) : Type 0 where
    to : ℕ
    now : ℕ
    to_q : required_id e (if has_field e "to_session" then "to_session" else "recipient") ≡ ok to
    now_q : sql_number e.ts_ms ≡ ok now
    rows :
        t'.messages
        ≡ upsert_message
            (sent_by e.session_id e.body now (bare_message e.event_id to))
            (sent_by e.session_id e.body now)
            t.messages

  send_message-Sent : (t t' : Tables V) (e : LogEntry V) → send_message t e ≡ ok t' → Sent e t t'
  unfolding send_message
  send_message-Sent t t' e h =
      let (t₁, dropped, h₁) = >>=-ok (drop_action_edges t e) _ h in
      let (es, keeps, q) = drop_action_edges_lem t t₁ e dropped in
      let (to, to_q, h₂) =
        >>=-ok (required_id e (if has_field e "to_session" then "to_session" else "recipient")) _
          h₁ in
      let (_, _, h₃) = >>=-ok (validate_addressed t₁ e to) _ h₂ in
      let (_, checked, h₄) = >>=-ok (check_recipient t₁ e.event_id to) _ h₃ in
      let (now, now_q, last) = >>=-ok (sql_number e.ts_ms) _ h₄ in
      record { to = to; now = now; to_q = to_q; now_q = now_q; rows = ground arith }

  record Noted (e : LogEntry V) (set : ℕ → Message V → Message V) (t t' : Tables V) : Type 0 where
    id : ℕ
    now : ℕ
    id_q : required_id e "message_id" ≡ ok id
    now_q : sql_number e.ts_ms ≡ ok now
    checked : check_recipient t id e.session_id ≡ ok tt
    rows :
        t'.messages ≡ upsert_message (set now (bare_message id e.session_id)) (set now) t.messages

  note_message-Noted :
      (t t' : Tables V) (e : LogEntry V) (set : ℕ → Message V → Message V)
      → note_message t e set ≡ ok t'
      → Noted e set t t'
  unfolding note_message
  note_message-Noted t t' e set h =
      let (id, id_q, h₁) = >>=-ok (required_id e "message_id") _ h in
      let (_, checked, h₂) = >>=-ok (check_recipient t id e.session_id) _ h₁ in
      let (now, now_q, last) = >>=-ok (sql_number e.ts_ms) _ h₂ in
      record {
        id = id;
        now = now;
        id_q = id_q;
        now_q = now_q;
        checked = checked;
        rows = ground arith;
      }

  -- the recipient that the log of `b` belongs to is the one that the new message of `a` names
  same_recipient :
      (a b : LogEntry V) (set : ℕ → Message V → Message V) (t t₁ t₁₂ : Tables V) (i : ℕ)
      → (sent : Sent a t t₁) (noted : Noted b set t₁ t₁₂) → find_message i t.messages ≡ none
      → (a.event_id == i) ≡ true
      → (noted.id == i) ≡ true
      → ◌≡◌ {A = Message V} (bare_message a.event_id sent.to) (bare_message noted.id b.session_id)
  same_recipient a b set t t₁ t₁₂ i sent noted new ai bi =
      let row = sent_by a.session_id a.body sent.now (bare_message a.event_id sent.to) in
      let at_i : find_message i t₁.messages ≡ some row =
        ap (find_message i) sent.rows
        ∙ find-upsert i row (sent_by a.session_id a.body sent.now) t.messages (λ m. refl)
        ∙ ground arith in
      let e : noted.id ≡ i = (==_iff noted.id i).0 bi in
      let at_b : find_message noted.id t₁.messages ≡ some row =
        subst (λ j. find_message j t₁.messages ≡ some row) (sym e) at_i in
      let to : sent.to ≡ b.session_id =
        recipient_checked t₁ noted.id b.session_id row noted.checked at_b in
      ground arith

  send-note_comm :
      (a b : LogEntry V) (set : ℕ → Message V → Message V) (t t₁ t₁₂ t₂ t₂₁ : Tables V)
      → ((now : ℕ) (m : Message V) → (set now m).id ≡ m.id)
      → ((now at : ℕ) (m : Message V)
          → sent_by a.session_id a.body at (set now m) ≡ set now (sent_by a.session_id a.body at m))
      → Sent a t t₁
      → Noted b set t₁ t₁₂
      → Noted b set t t₂
      → Sent a t₂ t₂₁
      → (i : ℕ) → find_message i t₁₂.messages ≡ find_message i t₂₁.messages
  unfolding noted_then_sent
  send-note_comm a b set t t₁ t₁₂ t₂ t₂₁ ids comm sent₁ noted₁ noted₂ sent₂ i =
      let to : sent₂.to ≡ sent₁.to = ground arith in
      let at : sent₂.now ≡ sent₁.now = ground arith in
      let id : noted₂.id ≡ noted₁.id = ground arith in
      let now : noted₂.now ≡ noted₁.now = ground arith in
      let late : t₂₁.messages
          ≡ noted_then_sent a b set t.messages sent₁.to sent₁.now noted₁.id noted₁.now =
        (sent₂.rows
          ∙ ap
              (upsert_message
                (sent_by a.session_id a.body sent₂.now (bare_message a.event_id sent₂.to))
                (sent_by a.session_id a.body sent₂.now))
              noted₂.rows)
        ∙ noted_then_sent_eq a b set t.messages to at id now in
      ap (find_message i) (
        noted₁.rows
        ∙ ap
            (upsert_message (set noted₁.now (bare_message noted₁.id b.session_id)) (set noted₁.now))
            sent₁.rows)
      ∙ upsert_comm (sent_by a.session_id a.body sent₁.now) (set noted₁.now)
          (bare_message a.event_id sent₁.to) (bare_message noted₁.id b.session_id) t.messages i
          (λ m. refl) (ids noted₁.now) (comm noted₁.now sent₁.now)
          (same_recipient a b set t t₁ t₁₂ i sent₁ noted₁)
      ∙ sym (ap (find_message i) late)

  note_sent_comm :
      (a b : LogEntry V) (set : ℕ → Message V → Message V) (t t₁ t₁₂ t₂ t₂₁ : Tables V)
      → ((now : ℕ) (m : Message V) → (set now m).id ≡ m.id)
      → ((now at : ℕ) (m : Message V)
          → sent_by a.session_id a.body at (set now m) ≡ set now (sent_by a.session_id a.body at m))
      → send_message t a ≡ ok t₁
      → note_message t₁ b set ≡ ok t₁₂
      → note_message t b set ≡ ok t₂
      → send_message t₂ a ≡ ok t₂₁
      → (i : ℕ) → find_message i t₁₂.messages ≡ find_message i t₂₁.messages
  note_sent_comm a b set t t₁ t₁₂ t₂ t₂₁ ids comm s₁ n₁ n₂ s₂ =
      send-note_comm a b set t t₁ t₁₂ t₂ t₂₁ ids comm (send_message-Sent t t₁ a s₁)
        (note_message-Noted t₁ t₁₂ b set n₁) (note_message-Noted t t₂ b set n₂)
        (send_message-Sent t₂ t₂₁ a s₂)

  project_sent :
      (t : Tables V) (a : LogEntry V)
      → a.event_type ≡ "message.sent"
      → project_message t a ≡ send_message t a
  unfolding project_message
  project_sent t a q = rw (q, project_message) refl

  project_delivered :
      (t : Tables V) (b : LogEntry V)
      → b.event_type ≡ "message.delivered"
      → project_message t b ≡ note_message t b delivered_at
  unfolding project_message
  project_delivered t b q = rw (q, project_message) refl

  project_read :
      (t : Tables V) (b : LogEntry V)
      → b.event_type ≡ "message.read"
      → project_message t b ≡ note_message t b read_at
  unfolding project_message
  project_read t b q = rw (q, project_message) refl

  -- A message that is sent in one log and delivered or read in another: where both orders of the
  -- two entries are accepted, they leave the same row at every message id.
  pub project_message-sent_comm :
      (a b : LogEntry V) (t t₁ t₁₂ t₂ t₂₁ : Tables V)
      → a.event_type ≡ "message.sent"
      → (b.event_type ≡ "message.delivered") ⊎ (b.event_type ≡ "message.read")
      → project_message t a ≡ ok t₁
      → project_message t₁ b ≡ ok t₁₂
      → project_message t b ≡ ok t₂
      → project_message t₂ a ≡ ok t₂₁
      → (i : ℕ) → find_message i t₁₂.messages ≡ find_message i t₂₁.messages
  project_message-sent_comm a b t t₁ t₁₂ t₂ t₂₁ qa (inl qb) s₁ n₁ n₂ s₂ =
      note_sent_comm a b delivered_at t t₁ t₁₂ t₂ t₂₁ (λ now m. refl) (λ now at m. refl)
        (sym (project_sent t a qa) ∙ s₁) (sym (project_delivered t₁ b qb) ∙ n₁)
        (sym (project_delivered t b qb) ∙ n₂) (sym (project_sent t₂ a qa) ∙ s₂)
  project_message-sent_comm a b t t₁ t₁₂ t₂ t₂₁ qa (inr qb) s₁ n₁ n₂ s₂ =
      note_sent_comm a b read_at t t₁ t₁₂ t₂ t₂₁ (λ now m. refl) (λ now at m. refl)
        (sym (project_sent t a qa) ∙ s₁) (sym (project_read t₁ b qb) ∙ n₁)
        (sym (project_read t b qb) ∙ n₂) (sym (project_sent t₂ a qa) ∙ s₂)
