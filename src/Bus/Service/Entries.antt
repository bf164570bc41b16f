-- ===== src/Bus/Service/Entries.antt =====
-- What the entries `api.called` and `message.read` leave in the tables.
use dotfile.Prelude.{
  ℕ, ◌+◌, none, some, ok, guard, ◌≡◌, ◌∙◌, ap, sym, refl, inl, inr, split_once, >>=-ok, ok_unique,
  ◌==◌,
}
use dotfile.Entry.{LogEntry}
use dotfile.External.{UlidText, External}
use dotfile.Registry.Schema.{AppliedRow, Tables, invalid_event, not_consecutive}
use dotfile.Registry.Fields.{sql_number, required_id}
use dotfile.Registry.Apply.{max_seq, find_applied, finish_done, dispatch, apply_new, apply_entry}
use dotfile.Registry.Steps.{record_applied_lem, apply_entry_cases}
use dotfile.Registry.Project.Messages.{
  check_recipient, upsert_message, bare_message, read_at, note_message, project_message,
}

module _ {V : Type 0} where
  -- tables with the same sessions and aliases
  unfoldable pub Alike : Tables V → Tables V → Type 0
  Alike t t' = (t'.sessions ≡ t.sessions) × (t'.aliases ≡ t.aliases)

module _ {V : Type 0} ⦃u : UlidText⦄ ⦃x : External V⦄ where
  apply_new-dispatch :
      (t t' : Tables V) (e : LogEntry V)
      → finish_done t e ≡ ok t
      → apply_new t e ≡ ok t'
      → (t₂ : Tables V) × (dispatch (split_once b'.' e.event_type) t e ≡ ok t₂)
        × Alike t₂ t'
        × (t'.messages ≡ t₂.messages)
  unfolding apply_new Alike
  apply_new-dispatch t t' e first h =
      let (seq, number, h₁) = >>=-ok (sql_number e.seq) _ h in
      let (_, next, h₂) =
        >>=-ok (guard (seq == max_seq e.session_id t.applied + 1) (invalid_event not_consecutive)) _
          h₁ in
      let (t₁, finished, h₃) = >>=-ok (finish_done t e) _ h₂ in
      let (t₂, projected, h₄) = >>=-ok (dispatch (split_once b'.' e.event_type) t₁ e) _ h₃ in
      let same : t₁ ≡ t = ok_unique _ finished first in
      let last = record_applied_lem t₂ t' e h₄ in
      (
        t₂,
        ap (λ s. dispatch (split_once b'.' e.event_type) s e) (sym same) ∙ projected,
        (ap (λ (s : Tables V). s.sessions) last, ap (λ (s : Tables V). s.aliases) last),
        ap (λ (s : Tables V). s.messages) last,
      )

  pub apply_entry-called :
      (t t' : Tables V) (e : LogEntry V)
      → e.event_type ≡ "api.called"
      → apply_entry t e ≡ ok t'
      → Alike t t' × (t'.messages ≡ t.messages)
  unfolding finish_done dispatch split_once Alike
  apply_entry-called t t' e named h = elim (apply_entry_cases t t' e h) [
    | inl (same, row) ↦ (
      (ap (λ (s : Tables V). s.sessions) same, ap (λ (s : Tables V). s.aliases) same),
      ap (λ (s : Tables V). s.messages) same,
    )
    | inr (fresh, new) ↦
        let first : finish_done t e ≡ ok t = rw named refl in
        let second : dispatch (split_once b'.' e.event_type) t e ≡ ok t = rw named refl in
        let (t₂, projected, (sessions, aliases), kept) = apply_new-dispatch t t' e first new in
        let same : t₂ ≡ t = ok_unique _ projected second in
        (
          (
            sessions ∙ ap (λ (s : Tables V). s.sessions) same,
            aliases ∙ ap (λ (s : Tables V). s.aliases) same,
          ),
          kept ∙ ap (λ (s : Tables V). s.messages) same,
        )
  ]

  pub apply_entry-read :
      (t t' : Tables V) (e : LogEntry V) (id : ℕ)
      → e.event_type ≡ "message.read"
      → required_id e "message_id" ≡ ok id
      → find_applied e.event_id t.applied ≡ none
      → apply_entry t e ≡ ok t'
      → Alike t t'
        × ((now : ℕ) × (t'.messages
              ≡ upsert_message
                  (read_at now (bare_message id e.session_id))
                  (read_at now)
                  t.messages))
  unfolding finish_done dispatch split_once Alike project_message note_message
  apply_entry-read t t' e id named reads fresh h = elim (apply_entry_cases t t' e h) [
    | inl (same, (row, old)) ↦ absurd (none-some (sym fresh ∙ old))
    | inr (_, new) ↦
        let first : finish_done t e ≡ ok t = rw named refl in
        let second : dispatch (split_once b'.' e.event_type) t e ≡ note_message t e read_at =
          rw named refl in
        let (t₂, projected, (sessions, aliases), kept) = apply_new-dispatch t t' e first new in
        let (id', read, h₁) = >>=-ok (required_id e "message_id") _ (sym second ∙ projected) in
        let (_, checked, h₂) = >>=-ok (check_recipient t id' e.session_id) _ h₁ in
        let (now, _, last) = >>=-ok (sql_number e.ts_ms) _ h₂ in
        let same : id' ≡ id = ok_unique _ read reads in
        let grown = ok_unique _ refl last in
        (
          (
            sessions ∙ ap (λ (s : Tables V). s.sessions) (sym grown),
            aliases ∙ ap (λ (s : Tables V). s.aliases) (sym grown),
          ),
          (
            now,
            kept
                ∙ ap (λ (s : Tables V). s.messages) (sym grown)
                ∙ ap
                    (λ i.
                      upsert_message (read_at now (bare_message i e.session_id)) (read_at now)
                        t.messages)
                    same,
          ),
        )
  ]
    where
      none-some : {row : AppliedRow V} → none ≡ some row → ⊥
      none-some q = cc
