-- ===== src/Registry/Steps.antt =====
-- The reduction of an entry follows the step relation, and then records the entry.
use dotfile.Prelude.{
  ℕ, ◌+◌, none, some, Option, String, ◌∷◌, ok, ok_or, Option-cases, ◌⊎◌, inl, inr, >>=-ok, guard,
  ◌≡◌, ◌&&◌, refl, by_test, guard-ok, ==_iff, split_once, str_eq, ◌==◌, arith,
}
use dotfile.Entry.{LogEntry}
use dotfile.External.{UlidText, External}
use dotfile.Registry.Schema.{Tables, AppliedRow, json, invalid_event, not_consecutive}
use dotfile.Registry.Fields.{sql_number}
use dotfile.Registry.Project.Sessions.Steps.{project_session-Step, update_session-Step}
use dotfile.Registry.Project.Repos.Steps.{project_repo-Step}
use dotfile.Registry.Project.Workspaces.Steps.{project_workspace-Step}
use dotfile.Registry.Project.Edges.Steps.{project_edge-Step}
use dotfile.Registry.Project.Messages.Steps.{project_message-Step}
use dotfile.Registry.Apply.{
  dispatch, finish_done, record_applied, apply_new, apply_entry, find_applied, max_seq,
}
use dotfile.Registry.Step.{Step, idle}

sql_number_lem : (n m : ℕ) → sql_number n ≡ ok m → m ≡ n
unfolding sql_number
sql_number_lem n m h = ground arith

module _ {V : Type 0} where
  -- the row of `applied_events` that an entry leaves
  abbrev pub applied_row : LogEntry V → AppliedRow V
  applied_row e = record {
    event_id = e.event_id;
    session_id = e.session_id;
    seq = e.seq;
    entry = e;
  }

module _ {V : Type 0} ⦃u : UlidText⦄ ⦃x : External V⦄ where
  open x use {serialize}

  pub dispatch-Step :
      (parts : Option (String × String)) (t t' : Tables V) (e : LogEntry V)
      → dispatch parts t e ≡ ok t'
      → Step e t t'
  unfolding dispatch
  dispatch-Step none t t' e h = idle (ground arith)
  dispatch-Step (some (family, name)) t t' e h =
      by_test (str_eq family "session") h (project_session-Step t t' e) (λ h₁.
        by_test (str_eq family "phase" && str_eq name "worktree") h₁ (project_repo-Step t t' e)
          (λ h₂. by_test (str_eq family "workspace") h₂ (project_workspace-Step t t' e) (λ h₃.
            by_test (str_eq family "edge") h₃ (project_edge-Step t t' e) (λ h₄.
              by_test (str_eq family "message") h₄ (project_message-Step t t' e)
                (λ h₅. idle (ground arith))))))

  finish_done-Step : (t t' : Tables V) (e : LogEntry V) → finish_done t e ≡ ok t' → Step e t t'
  unfolding finish_done
  finish_done-Step t t' e h =
      by_test (str_eq e.event_type "done") h
        (λ q.
          let (now, _, last) = >>=-ok (sql_number e.ts_ms) _ q in
          update_session-Step e _ t t' (record { same_id = λ r. refl; same_created = λ r. refl })
            last)
        (λ q. idle (ground arith))

  pub record_applied_lem :
      (t t' : Tables V) (e : LogEntry V)
      → record_applied t e ≡ ok t'
      → t' ≡ record t { applied = applied_row e ∷ t.applied }
  unfolding record_applied
  record_applied_lem t t' e h = ground arith

  -- A new entry is a finish, if it is `done`, a step for its event type, and its row.
  pub apply_new_lem :
      (t t' : Tables V) (e : LogEntry V)
      → apply_new t e ≡ ok t'
      → (t₁ t₂ : Tables V) × (e.seq ≡ max_seq e.session_id t.applied + 1)
        × Step e t t₁
        × Step e t₁ t₂
        × (t' ≡ record t₂ { applied = applied_row e ∷ t₂.applied })
  unfolding apply_new
  apply_new_lem t t' e h =
      let (seq, number, h₁) = >>=-ok (sql_number e.seq) _ h in
      let (_, next, h₂) =
        >>=-ok (guard (seq == max_seq e.session_id t.applied + 1) (invalid_event not_consecutive)) _
          h₁ in
      let (t₁, finished, h₃) = >>=-ok (finish_done t e) _ h₂ in
      let (t₂, projected, h₄) = >>=-ok (dispatch (split_once b'.' e.event_type) t₁ e) _ h₃ in
      (
        t₁,
        t₂,
        omega (
          arith,
          sql_number_lem e.seq seq number,
          (==_iff seq (max_seq e.session_id t.applied + 1)).0 (
              guard-ok (seq == max_seq e.session_id t.applied + 1) (invalid_event not_consecutive)
                next),
        ),
        finish_done-Step t t₁ e finished,
        dispatch-Step (split_once b'.' e.event_type) t₁ t₂ e projected,
        record_applied_lem t₂ t' e h₄,
      )

  -- An accepted entry was there already, with the same text, or it is new.
  pub apply_entry_cases :
      (t t' : Tables V) (e : LogEntry V)
      → apply_entry t e ≡ ok t'
      → ((t' ≡ t) × ((row : AppliedRow V) × (find_applied e.event_id t.applied ≡ some row)))
        ⊎ ((find_applied e.event_id t.applied ≡ none) × (apply_new t e ≡ ok t'))
  unfolding apply_entry
  apply_entry_cases t t' e h =
      let (text, made, h₁) = >>=-ok (ok_or (serialize e) json) _ h in
      elim (Option-cases (find_applied e.event_id t.applied)) [
        | inl new ↦ inr (new, ground arith)
        | inr (row, old) ↦ inl (ground arith, (row, old))
      ]
