-- ===== src/Registry/Project/Sessions/Moves.antt =====
-- A lifecycle event sets the state of the log's own session to the state's name.
use dotfile.Prelude.{
  ℕ, String, false, Bool-cases, inl, inr, some, ok, ◌≡◌, ◌≢◌, refl, sym, ◌∙◌, >>=-ok, ◌==◌, find,
  update, List, [], ◌∷◌, count, arith,
}
use dotfile.Entry.{LogEntry}
use dotfile.External.{UlidText, External}
use dotfile.Session.{
  SessionState, created, running, blocked, finished, failed, reopened, event_type, display,
}
use dotfile.Registry.Schema.{SessionRow, Tables}
use dotfile.Registry.Fields.{sql_number}
use dotfile.Registry.Project.Sessions.{move_session, update_session, project_session}

module _ {V : Type 0} where
  -- the session is there, in this state
  abbrev pub InState : ℕ → String → Tables V → Type 0
  InState id state t =
      (r : SessionRow V) × (find (λ q. q.id == id) t.sessions ≡ some r) × (r.state ≡ state)

  update_all_found :
      (id : ℕ) (f : SessionRow V → SessionRow V) (state : String)
      → ((r : SessionRow V) → (f r).id ≡ r.id)
      → ((r : SessionRow V) → (f r).state ≡ state)
      → (rows : List (SessionRow V)) → (count (λ q. q.id == id) rows == 0) ≡ false
      → (r : SessionRow V) × (find (λ q. q.id == id) (update (λ q. q.id == id) f rows) ≡ some r)
        × (r.state ≡ state)
  update_all_found id f state same sets [] h = cc
  update_all_found id f state same sets (r ∷ rs) h = elim (Bool-cases (r.id == id)) [
    | inl here ↦ (f r, ground (arith, same r), sets r)
    | inr there ↦
        let (q, found, state_q) = update_all_found id f state same sets rs (ground arith) in
        (q, ground arith, state_q)
  ]

module _ {V : Type 0} ⦃u : UlidText⦄ ⦃x : External V⦄ where
  project_session-move :
      (t : Tables V) (e : LogEntry V) (s : SessionState)
      → s ≢ created
      → e.event_type ≡ event_type s
      → project_session t e ≡ move_session t e (some (display s))
  unfolding project_session event_type display
  project_session-move t e created n q = absurd (n refl)
  project_session-move t e running n q = rw (q, project_session) refl
  project_session-move t e blocked n q = rw (q, project_session) refl
  project_session-move t e finished n q = rw (q, project_session) refl
  project_session-move t e failed n q = rw (q, project_session) refl
  project_session-move t e reopened n q = rw (q, project_session) refl

  move_session-InState :
      (t t' : Tables V) (e : LogEntry V) (state : String)
      → move_session t e (some state) ≡ ok t'
      → InState e.session_id state t'
  unfolding move_session update_session
  move_session-InState t t' e state h =
      let (now, _, last) = >>=-ok (sql_number e.ts_ms) _ h in
      let f : SessionRow V → SessionRow V =
        λ r. record r { state = state; device_id = e.device_id; updated_at_ms = now } in
      let known : (count (λ q. q.id == e.session_id) t.sessions == 0) ≡ false = ground arith in
      let q : t'.sessions ≡ update (λ r. r.id == e.session_id) f t.sessions = ground arith in
      rw q (update_all_found e.session_id f state (λ r. refl) (λ r. refl) t.sessions known)

  pub project_session-InState :
      (t t' : Tables V) (e : LogEntry V) (s : SessionState)
      → s ≢ created
      → e.event_type ≡ event_type s
      → project_session t e ≡ ok t'
      → InState e.session_id (display s) t'
  project_session-InState t t' e s n q h =
      move_session-InState t t' e (display s) (sym (project_session-move t e s n q) ∙ h)
