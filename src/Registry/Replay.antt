-- ===== src/Registry/Replay.antt =====
-- Repeated and misplaced entries.
use dotfile.Prelude.{
  ◌+◌, ◌≤◌, none, some, String, ok, err, ◌≡◌, ◌≢◌, refl, sym, ap, subst, inl, inr, str_eq_refl,
  str_eq_iff, ==_refl, Option-cases, arith,
}
use dotfile.Entry.{LogEntry}
use dotfile.External.{UlidText, External}
use dotfile.Registry.Schema.{AppliedRow, Tables, invalid_event, not_consecutive}
use dotfile.Registry.Schema.{different_content}
use dotfile.Registry.Fields.{sql_number, i64_max}
use dotfile.Registry.Apply.{apply_entry, apply_new, max_seq, find_applied}
use dotfile.Registry.Steps.{applied_row, apply_new_lem, apply_entry_cases}

module _ {V : Type 0} ⦃u : UlidText⦄ ⦃x : External V⦄ where
  open x use {serialize}

  apply_entry_text :
      (t t' : Tables V) (e : LogEntry V)
      → apply_entry t e ≡ ok t'
      → (text : String) × (serialize e ≡ some text)
  unfolding apply_entry
  apply_entry_text t t' e h = elim (Option-cases (serialize e)) [
    | inl missing ↦ absurd (ground arith)
    | inr found ↦ found
  ]

  apply_entry_again :
      (t : Tables V) (e : LogEntry V) (text : String) (row : AppliedRow V)
      → serialize e ≡ some text
      → find_applied e.event_id t.applied ≡ some row
      → row.entry ≡ e
      → apply_entry t e ≡ ok t
  unfolding apply_entry
  apply_entry_again t e text row made found same = ground (arith, str_eq_refl text)

  -- An accepted entry can be applied again at once, with no effect.
  pub apply_entry_repeat :
      (t t' : Tables V) (e : LogEntry V) → apply_entry t e ≡ ok t' → apply_entry t' e ≡ ok t'
  apply_entry_repeat t t' e h = elim (apply_entry_cases t t' e h) [
    | inl (same, _) ↦ subst (λ s. apply_entry s e ≡ ok t') (sym same) h
    | inr (new, applied) ↦
        let (t₁, t₂, _, _, _, q) = apply_new_lem t t' e applied in
        let (text, made) = apply_entry_text t t' e h in
        apply_entry_again t' e text (applied_row e) made
          (rw (ap (λ s. s.applied) q) (ground (arith, ==_refl e.event_id))) refl
  ]

  -- An entry under a known event id but with another text is refused.
  pub apply_entry_conflict :
      (t : Tables V) (e : LogEntry V) (row : AppliedRow V) (text old : String)
      → serialize e ≡ some text
      → find_applied e.event_id t.applied ≡ some row
      → serialize row.entry ≡ some old
      → old ≢ text
      → apply_entry t e ≡ err (invalid_event different_content)
  unfolding apply_entry
  apply_entry_conflict t e row text old made found stored differs =
      ground (arith, str_eq_iff old text)

  -- A new entry whose sequence number is not the next of its session is refused.
  pub apply_entry_gap :
      (t : Tables V) (e : LogEntry V) (text : String)
      → serialize e ≡ some text
      → find_applied e.event_id t.applied ≡ none
      → e.seq ≤ i64_max
      → e.seq ≢ max_seq e.session_id t.applied + 1
      → apply_entry t e ≡ err (invalid_event not_consecutive)
  unfolding apply_entry apply_new sql_number
  apply_entry_gap t e text made new small wrong = ground arith
