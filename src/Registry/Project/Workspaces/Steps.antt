-- ===== src/Registry/Project/Workspaces/Steps.antt =====
-- What `project_workspace` may do: a workspace is made under a free id, or its owner changes it.
use dotfile.Prelude.{
  ℕ, Bool, true, false, some, String, ok, >>=-ok, Option-cases, ◌≡◌, refl, ◌&&◌, update, by_test,
  inl, inr, str_eq, arith,
}
use dotfile.Entry.{LogEntry}
use dotfile.External.{External}
use dotfile.Registry.Schema.{Tables, WorkspaceRow}
use dotfile.Registry.Project.Workspaces.{
  find_workspace, has_id, store_workspace, live_workspace, extend_body, check_workspace_owner,
  check_existing_owner, create_workspace, update_workspace, remove_workspace, project_workspace,
}
use dotfile.Registry.Fields.{required_str}
use dotfile.Registry.Step.{Step, idle, workspace_created, workspace_changed, KeepsOwner}

and_left : (a b : Bool) → (a && b) ≡ true → a ≡ true
and_left a b h = ground arith

module _ {V : Type 0} where
  owner_checked :
      (t : Tables V) (id : String) (session : ℕ)
      → check_workspace_owner t id session ≡ ok tt
      → (w : WorkspaceRow V) × (find_workspace id t ≡ some w) × (w.owner_session_id ≡ session)
  unfolding check_workspace_owner
  owner_checked t id session h = elim (Option-cases (find_workspace id t)) [
    | inl missing ↦ absurd (ground arith)
    | inr (w, found) ↦ (w, found, ground arith)
  ]

  existing_owner_checked :
      (t : Tables V) (id : String) (session : ℕ) {w : WorkspaceRow V}
      → find_workspace id t ≡ some w
      → check_existing_owner t id session ≡ ok tt
      → w.owner_session_id ≡ session
  unfolding check_existing_owner check_workspace_owner
  existing_owner_checked t id session found h = ground arith

  store_workspace-Step :
      (t t' : Tables V) (e : LogEntry V) (row : WorkspaceRow V)
      → row.owner_session_id ≡ e.session_id
      → check_existing_owner t row.id e.session_id ≡ ok tt
      → store_workspace t row ≡ ok t'
      → Step e t t'
  unfolding store_workspace
  store_workspace-Step t t' e row owner checked h = elim (Option-cases (find_workspace row.id t)) [
    | inl free ↦ workspace_created row owner free (ground arith)
    | inr (w, found) ↦
        workspace_changed row.id w (λ v. has_id row.id v && v.removed)
          (λ v. record v { body = row.body; removed = false }) found
          (existing_owner_checked t row.id e.session_id found checked)
          (record { same_id = λ v. refl; same_owner = λ v. refl })
          (λ v. and_left (has_id row.id v) v.removed) (ground arith)
  ]

  own_workspace-Step :
      (t t' : Tables V) (e : LogEntry V) (id : String) (f : WorkspaceRow V → WorkspaceRow V)
      → KeepsOwner f
      → check_workspace_owner t id e.session_id ≡ ok tt
      → t' ≡ record t { workspaces = update (has_id id) f t.workspaces }
      → Step e t t'
  own_workspace-Step t t' e id f keeps checked h =
      let (w, found, owner) = owner_checked t id e.session_id checked in
      workspace_changed id w (has_id id) f found owner keeps (λ v p. p) h

module _ {V : Type 0} ⦃x : External V⦄ where
  create_workspace-Step :
      (t t' : Tables V) (e : LogEntry V) → create_workspace t e ≡ ok t' → Step e t t'
  unfolding create_workspace
  create_workspace-Step t t' e h =
      let (id, _, q) = >>=-ok (required_str e "workspace_id") _ h in
      let (_, checked, q') = >>=-ok (check_existing_owner t id e.session_id) _ q in
      store_workspace-Step t t' e
        (record { id = id; owner_session_id = e.session_id; removed = false; body = e.body }) refl
        checked q'

  update_workspace-Step :
      (t t' : Tables V) (e : LogEntry V) → update_workspace t e ≡ ok t' → Step e t t'
  unfolding update_workspace
  update_workspace-Step t t' e h =
      let (id, _, q) = >>=-ok (required_str e "workspace_id") _ h in
      let (_, checked, q') = >>=-ok (check_workspace_owner t id e.session_id) _ q in
      let (stored, _, q'') = >>=-ok (live_workspace t id) _ q' in
      let (body, _, last) = >>=-ok (extend_body stored.body e.body) _ q'' in
      own_workspace-Step t t' e id (λ w. record w { body = body })
        (record { same_id = λ v. refl; same_owner = λ v. refl }) checked (ground arith)

  remove_workspace-Step :
      (t t' : Tables V) (e : LogEntry V) → remove_workspace t e ≡ ok t' → Step e t t'
  unfolding remove_workspace
  remove_workspace-Step t t' e h =
      let (id, _, q) = >>=-ok (required_str e "workspace_id") _ h in
      let (_, checked, last) = >>=-ok (check_workspace_owner t id e.session_id) _ q in
      own_workspace-Step t t' e id (λ w. record w { removed = true })
        (record { same_id = λ v. refl; same_owner = λ v. refl }) checked (ground arith)

  pub project_workspace-Step :
      (t t' : Tables V) (e : LogEntry V) → project_workspace t e ≡ ok t' → Step e t t'
  unfolding project_workspace
  project_workspace-Step t t' e h =
      by_test (str_eq e.event_type "workspace.created") h (create_workspace-Step t t' e) (λ h₁.
        by_test (str_eq e.event_type "workspace.updated") h₁ (update_workspace-Step t t' e) (λ h₂.
          by_test (str_eq e.event_type "workspace.removed") h₂ (remove_workspace-Step t t' e)
            (λ h₃. idle (ground arith))))
