-- ===== src/Bus/Service/Acked.antt =====
-- An acknowledgement takes its messages out of the inbox, and no others.
use dotfile.Prelude.{
  ℕ, String, Bool, true, not, ◌&&◌, Option, none, some, List, [], ◌∷◌, ok, guard, ok_or, ok_or-some,
  ◌≡◌, ◌∙◌, ap, sym, refl, inl, inr, Bool-cases, ==_iff, any, select, length, mem, >>=-ok,
  ok_unique, ◌==◌, arith,
}
use dotfile.Entry.{LogEntry}
use dotfile.External.{UlidText, External}
use dotfile.Registry.Schema.{Tables}
use dotfile.Registry.Fields.{required_id}
use dotfile.Registry.Lists.{messages}
use dotfile.Registry.Resolve.{get_record}
use dotfile.Edges.Add.{append_untagged, record_call}
use dotfile.Limits.Check.{tag_field}
use dotfile.Bus.{InboxMessage, inbox_messages}
use dotfile.Calls.{
  not_in_inbox, message_waits, bad_content, recorded-ok, continue-ok, continue-lift-ok, WriterLaws,
  append_untagged-applied, append_entry-untagged, lift-ok, call, append_entry,
}
use dotfile.Bus.Service.{Bus, is_pending, are_mine, are_reached, inbox, append_reads, ack_messages}
use dotfile.Bus.Service.Entries.{Alike, apply_entry-called, apply_entry-read}
use dotfile.Bus.Service.Marked.{is_other, map_option, inbox_messages-same, inbox_messages-mark}

-- what the calls rely on: the log's writer, and a body that names its message
pub record BusLaws {V : Type 0} ⦃u : UlidText⦄ ⦃x : External V⦄ (b : Bus V) : Type 0 where
  pub writer : WriterLaws b.journal
  pub names_message :
      (e : LogEntry V) (id : ℕ) → e.body ≡ b.message_id_body id → required_id e "message_id" ≡ ok id

abbrev pub ids_of : List InboxMessage → List ℕ
ids_of [] = []
ids_of (m ∷ rest) = m.event_id ∷ ids_of rest

-- those that are left when the messages of some ids go
abbrev pub without : List ℕ → List InboxMessage → List InboxMessage
without ids = select (λ (m : InboxMessage). not (mem m.event_id ids))

without-nil : (shown : List InboxMessage) → without [] shown ≡ shown
without-nil [] = refl
without-nil (m ∷ rest) = ap (λ ms. m ∷ ms) (without-nil rest)

without-cons :
    (id : ℕ) (ids : List ℕ) (shown : List InboxMessage)
    → without ids (select (is_other id) shown) ≡ without (id ∷ ids) shown
without-cons id ids [] = refl
without-cons id ids (m ∷ rest) = ground (arith, without-cons id ids rest)

without_option-nil : (o : Option (List InboxMessage)) → map_option (without []) o ≡ o
without_option-nil none = refl
without_option-nil (some shown) = ap some (without-nil shown)

without_option-cons :
    (id : ℕ) (ids : List ℕ) (o : Option (List InboxMessage))
    → map_option (without ids) (map_option (select (is_other id)) o)
      ≡ map_option (without (id ∷ ids)) o
without_option-cons id ids none = refl
without_option-cons id ids (some shown) = ap some (without-cons id ids shown)

abbrev is_among : List ℕ → ℕ → Bool
is_among [] i = true
is_among (id ∷ ids) i = mem i (id ∷ ids)

is_pending-is_among : (ids : List ℕ) (m : InboxMessage) → is_pending ids m ≡ is_among ids m.event_id
is_pending-is_among [] m = refl
is_pending-is_among (id ∷ ids) m = refl

abbrev has_id : ℕ → InboxMessage → Bool
has_id i m = m.event_id == i

mem-pending :
    (ids : List ℕ) (i : ℕ) (shown : List InboxMessage)
    → mem i (ids_of (select (is_pending ids) shown)) ≡ (is_among ids i && any (has_id i) shown)
mem-pending ids i [] = ground arith
mem-pending ids i (m ∷ rest) = elim (Bool-cases (m.event_id == i)) [
  | inr other ↦ ground (arith, mem-pending ids i rest)
  | inl this ↦
      let same = ap (is_among ids) ((==_iff m.event_id i).0 this) in
      ground (arith, mem-pending ids i rest, is_pending-is_among ids m, same)
]

-- of some messages, those that are not to be acknowledged
without-pending :
    (ids : List ℕ) (shown some_shown : List InboxMessage)
    → ((m : InboxMessage)
        → any (has_id m.event_id) some_shown ≡ true
        → any (has_id m.event_id) shown ≡ true)
    → without (ids_of (select (is_pending ids) shown)) some_shown
      ≡ select (λ m. not (is_pending ids m)) some_shown
without-pending ids shown [] all_in = refl
without-pending ids shown (m ∷ rest) all_in =
    let here : any (has_id m.event_id) shown ≡ true = all_in m (ground arith) in
    let induct = without-pending ids shown rest (λ n h. all_in n (ground arith)) in
    ground (arith, mem-pending ids m.event_id shown, is_pending-is_among ids m, induct)

module _ {V : Type 0} ⦃u : UlidText⦄ ⦃x : External V⦄ where
  open u use {show_ulid}

  module _ (b : Bus V) (laws : BusLaws b) where
    -- the entry of a call
    call-inbox :
        (t t' : Tables V) (caller session : ℕ) (operation : String) (target : Option String)
        → call b.journal (some caller) operation target t ≡ (ok tt, t')
        → inbox_messages b.contents t' session ≡ inbox_messages b.contents t session
    unfolding record_call Alike
    call-inbox t t' caller session operation target h =
        let done = recorded-ok b.journal t _ h in
        let (row, found, h₁) = >>=-ok (get_record t (show_ulid caller)) _ done in
        let ((e, t₁), written, last) =
          >>=-ok
            (append_untagged b.journal t row.id "api.called"
              (b.journal.call_body caller operation target))
            _ h₁ in
        let (made, applied) =
          append_untagged-applied b.journal t t₁ e row.id "api.called"
            (b.journal.call_body caller operation target) written in
        let (_, kind, _, _) =
          laws.writer.keeps t row.id "api.called" (b.journal.call_body caller operation target) e
            made in
        let ((sessions, aliases), kept) = apply_entry-called t t₁ e kind applied in
        ap (λ s. inbox_messages b.contents s session) (sym (ok_unique _ refl last))
        ∙ inbox_messages-same b.contents t t₁ sessions aliases kept session

    append-inbox :
        (t t' : Tables V) (e : LogEntry V) (session id : ℕ)
        → append_entry b.journal session "message.read" (b.message_id_body id) t ≡ (ok e, t')
        → (reader : ℕ)
        → inbox_messages b.contents t' reader
          ≡ map_option (select (is_other id)) (inbox_messages b.contents t reader)
    unfolding Alike tag_field
    append-inbox t t' e session id h reader =
        let (made, applied) =
          append_entry-untagged b.journal t t' e session "message.read" (b.message_id_body id) refl
            h in
        let (_, kind, body, fresh) =
          laws.writer.keeps t session "message.read" (b.message_id_body id) e made in
        let ((sessions, aliases), (now, noted)) =
          apply_entry-read t t' e id kind (laws.names_message e id body) fresh applied in
        inbox_messages-mark b.contents t t' sessions aliases id now e.session_id noted reader

    append_reads-inbox :
        (session : ℕ) (ms : List InboxMessage) (t t' : Tables V)
        → append_reads b session ms t ≡ (ok tt, t')
        → (reader : ℕ)
        → inbox_messages b.contents t' reader
          ≡ map_option (without (ids_of ms)) (inbox_messages b.contents t reader)
    unfolding append_reads
    append_reads-inbox session [] t t' h reader =
        let same : t ≡ t' = ap (λ o. o.1) h in
        ap (λ s. inbox_messages b.contents s reader) (sym same)
        ∙ sym (without_option-nil (inbox_messages b.contents t reader))
    append_reads-inbox session (m ∷ rest) t t' h reader =
        let (e, t₁, first, later) =
          continue-ok
            (append_entry b.journal session "message.read" (b.message_id_body m.event_id) t) _ h in
        append_reads-inbox session rest t₁ t' later reader
        ∙ ap (map_option (without (ids_of rest)))
            (append-inbox t t₁ e session m.event_id first reader)
        ∙ without_option-cons m.event_id (ids_of rest) (inbox_messages b.contents t reader)

    inbox-shown :
        (t t' : Tables V) (session : ℕ) (shown : List InboxMessage)
        → inbox b session t ≡ (ok shown, t')
        → (inbox_messages b.contents t session ≡ some shown)
          × (inbox_messages b.contents t' session ≡ some shown)
    unfolding inbox
    inbox-shown t t' session shown h =
        let (_, t₁, called, h₁) =
          continue-ok (call b.journal (some session) "message.inbox" none t) _ h in
        let (read, same_tables) =
          lift-ok (ok_or (inbox_messages b.contents t₁ session) bad_content) t₁ h₁ in
        let found = ok_or-some (inbox_messages b.contents t₁ session) bad_content read in
        let same = call-inbox t t₁ session session "message.inbox" none called in
        (sym same ∙ found, ap (λ s. inbox_messages b.contents s session) (sym same_tables) ∙ found)

    -- With a log that writes new entries as they are given, an acknowledgement that succeeds answers
    -- with the number of messages that it took: those of the ids among the messages that the
    -- inbox showed, or all where no id is given. After it the inbox shows just the others.
    pub ack_messages-without :
        (t t' : Tables V) (session : ℕ) (ids : List ℕ) (n : ℕ)
        → ack_messages b session ids t ≡ (ok n, t')
        → (shown : List InboxMessage) × (inbox_messages b.contents t session ≡ some shown)
          × (n ≡ length (select (is_pending ids) shown))
          × (inbox_messages b.contents t' session
              ≡ some (select (λ m. not (is_pending ids m)) shown))
    unfolding ack_messages
    ack_messages-without t t' session ids n h =
        let (_, t₁, called, h₁) =
          continue-ok (call b.journal (some session) "message.ack" none t) _ h in
        let (_, mine, h₂) =
          continue-lift-ok (guard (are_mine session ids (messages t₁)) not_in_inbox) t₁ _ h₁ in
        let (shown, t₂, showed, h₃) = continue-ok (inbox b session t₁) _ h₂ in
        let (_, reached, h₄) =
          continue-lift-ok (guard (are_reached session ids (messages t₁) shown) message_waits) t₂ _
            h₃ in
        let taken = select (is_pending ids) shown in
        let (_, t₃, appended, h₅) = continue-ok (append_reads b session taken t₂) _ h₄ in
        let (counted, same_tables) = lift-ok (ok (length taken)) t₃ h₅ in
        let (before, after) = inbox-shown t₁ t₂ session shown showed in
        (
          shown,
          sym (call-inbox t t₁ session session "message.ack" none called) ∙ before,
          sym (ok_unique _ refl counted),
          ap (λ s. inbox_messages b.contents s session) (sym same_tables)
              ∙ append_reads-inbox session taken t₂ t₃ appended session
              ∙ ap (map_option (without (ids_of taken))) after
              ∙ ap some (without-pending ids shown shown (λ m h. h)),
        )
