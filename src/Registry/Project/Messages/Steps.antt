-- ===== src/Registry/Project/Messages/Steps.antt =====
-- What `project_message` may do: one message's row is made or filled in.
use dotfile.Prelude.{
  ℕ, some, List, ok, >>=-ok, ◌≡◌, refl, sym, subst, ◌∙◌, by_test, str_eq, if◌then◌else◌, arith,
}
use dotfile.Entry.{LogEntry}
use dotfile.External.{UlidText, External}
use dotfile.Registry.Schema.{Tables, Edge, Message}
use dotfile.Registry.Project.Edges.Steps.{remove_action_edges_lem}
use dotfile.Registry.Project.Messages.{
  find_message, check_recipient, bare_message, sent_by, delivered_at, read_at, has_field,
  drop_action_edges, validate_addressed, send_message, note_message, project_message,
}
use dotfile.Registry.Fields.{required_id, sql_number}
use dotfile.Registry.Step.{Step, idle, message_noted, KeepsRecipient, KindsOk}

module _ {V : Type 0} where
  pub recipient_checked :
      (t : Tables V) (id recipient : ℕ) (m : Message V)
      → check_recipient t id recipient ≡ ok tt
      → find_message id t.messages ≡ some m
      → m.recipient ≡ recipient
  unfolding check_recipient
  recipient_checked t id recipient m h found = ground arith

module _ {V : Type 0} ⦃u : UlidText⦄ ⦃x : External V⦄ where
  pub drop_action_edges_lem :
      (t t' : Tables V) (e : LogEntry V)
      → drop_action_edges t e ≡ ok t'
      → (es : List (Edge V)) × (KindsOk t.edges → KindsOk es) × (t' ≡ record t { edges = es })
  unfolding drop_action_edges
  drop_action_edges_lem t t' e h =
      by_test (has_field e "trigger_id") h (remove_action_edges_lem t t' e)
        (λ q. (t.edges, λ k. k, ground arith))

  send_message-Step : (t t' : Tables V) (e : LogEntry V) → send_message t e ≡ ok t' → Step e t t'
  unfolding send_message
  send_message-Step t t' e h =
      let (t₁, dropped, h₁) = >>=-ok (drop_action_edges t e) _ h in
      let (es, keeps, q) = drop_action_edges_lem t t₁ e dropped in
      let (recipient, _, h₂) =
        >>=-ok (required_id e (if has_field e "to_session" then "to_session" else "recipient")) _
          h₁ in
      let (_, _, h₃) = >>=-ok (validate_addressed t₁ e recipient) _ h₂ in
      let (_, checked, h₄) = >>=-ok (check_recipient t₁ e.event_id recipient) _ h₃ in
      let (now, _, last) = >>=-ok (sql_number e.ts_ms) _ h₄ in
      message_noted es (sent_by e.session_id e.body now (bare_message e.event_id recipient))
        (sent_by e.session_id e.body now) keeps
        (record { same_id = λ m. refl; same_recipient = λ m. refl })
        (λ m found. recipient_checked t₁ e.event_id recipient m checked (ground arith))
        (ground arith)

  note_message-Step :
      (t t' : Tables V) (e : LogEntry V) (set : ℕ → Message V → Message V)
      → ((now : ℕ) → KeepsRecipient (set now))
      → note_message t e set ≡ ok t'
      → Step e t t'
  unfolding note_message
  note_message-Step t t' e set keeps h =
      let (id, _, h₁) = >>=-ok (required_id e "message_id") _ h in
      let (_, checked, h₂) = >>=-ok (check_recipient t id e.session_id) _ h₁ in
      let (now, _, last) = >>=-ok (sql_number e.ts_ms) _ h₂ in
      message_noted t.edges (set now (bare_message id e.session_id)) (set now) (λ k. k) (keeps now)
        (λ m found.
          recipient_checked t id e.session_id m checked (
            subst (λ i. find_message i t.messages ≡ some m)
              ((keeps now).same_id (bare_message id e.session_id)) found)
          ∙ sym ((keeps now).same_recipient (bare_message id e.session_id)))
        (ground arith)

  pub project_message-Step :
      (t t' : Tables V) (e : LogEntry V) → project_message t e ≡ ok t' → Step e t t'
  unfolding project_message
  project_message-Step t t' e h =
      by_test (str_eq e.event_type "message.sent") h (send_message-Step t t' e) (λ h₁.
        by_test (str_eq e.event_type "message.delivered") h₁
          (note_message-Step t t' e delivered_at
            (λ now. record { same_id = λ m. refl; same_recipient = λ m. refl }))
          (λ h₂.
            by_test (str_eq e.event_type "message.read") h₂
              (note_message-Step t t' e read_at
                (λ now. record { same_id = λ m. refl; same_recipient = λ m. refl }))
              (λ h₃. idle (ground arith))))
