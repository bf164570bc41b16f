-- ===== src/Registry/States.antt =====
-- The projection of lifecycle events against the state machine of sessions.
use dotfile.Prelude.{
  some, ok, ◌≡◌, ◌≢◌, refl, sym, ap, ◌∙◌, subst, guard, >>=-ok, ◌+◌, ◌==◌, split_once,
}
use dotfile.Entry.{LogEntry}
use dotfile.External.{UlidText, External}
use dotfile.Session.{
  SessionState, created, running, blocked, finished, failed, reopened, event_type, display,
}
use dotfile.Registry.Schema.{Tables, invalid_event, not_consecutive}
use dotfile.Registry.Fields.{sql_number}
use dotfile.Registry.Steps.{record_applied_lem}
use dotfile.Registry.Project.Sessions.Moves.{InState, project_session-InState}
use dotfile.Registry.Project.Sessions.{lifecycle_state, project_session}
use dotfile.Registry.Apply.{dispatch, finish_done, apply_new, max_seq}

-- The state that the projection reads from a lifecycle event's type is the state's own name.
pub lifecycle_state-event_type :
    (s : SessionState) → s ≢ created → lifecycle_state (event_type s) ≡ some (display s)
unfolding event_type display
lifecycle_state-event_type created n = absurd (n refl)
lifecycle_state-event_type running n = refl
lifecycle_state-event_type blocked n = refl
lifecycle_state-event_type finished n = refl
lifecycle_state-event_type failed n = refl
lifecycle_state-event_type reopened n = refl

module _ {V : Type 0} ⦃u : UlidText⦄ ⦃x : External V⦄ where
  dispatch-lifecycle :
      (t : Tables V) (e : LogEntry V) (s : SessionState)
      → e.event_type ≡ event_type s
      → dispatch (split_once b'.' e.event_type) t e ≡ project_session t e
  unfolding dispatch event_type split_once
  dispatch-lifecycle t e created q = ap (λ k. dispatch (split_once b'.' k) t e) q
  dispatch-lifecycle t e running q = ap (λ k. dispatch (split_once b'.' k) t e) q
  dispatch-lifecycle t e blocked q = ap (λ k. dispatch (split_once b'.' k) t e) q
  dispatch-lifecycle t e finished q = ap (λ k. dispatch (split_once b'.' k) t e) q
  dispatch-lifecycle t e failed q = ap (λ k. dispatch (split_once b'.' k) t e) q
  dispatch-lifecycle t e reopened q = ap (λ k. dispatch (split_once b'.' k) t e) q

  -- An accepted new lifecycle event leaves the log's own session in the state that it names.
  pub apply_new-InState :
      (t t' : Tables V) (e : LogEntry V) (s : SessionState)
      → s ≢ created
      → e.event_type ≡ event_type s
      → apply_new t e ≡ ok t'
      → InState e.session_id (display s) t'
  unfolding apply_new
  apply_new-InState t t' e s n q h =
      let (seq, _, h₁) = >>=-ok (sql_number e.seq) _ h in
      let (_, _, h₂) =
        >>=-ok (guard (seq == max_seq e.session_id t.applied + 1) (invalid_event not_consecutive)) _
          h₁ in
      let (t₁, _, h₃) = >>=-ok (finish_done t e) _ h₂ in
      let (t₂, projected, h₄) = >>=-ok (dispatch (split_once b'.' e.event_type) t₁ e) _ h₃ in
      subst (InState e.session_id (display s)) (sym (record_applied_lem t₂ t' e h₄))
        (project_session-InState t₁ t₂ e s n q (sym (dispatch-lifecycle t₁ e s q) ∙ projected))
