-- ===== src/Registry/Project/Sessions/Steps.antt =====
-- What `project_session` may do.
use dotfile.Prelude.{
  ℕ, zero, suc, String, str_eq, one_of, guard, by_test, subst, Bool, true, false, none, some, List,
  [], ◌∷◌, ok, ok_or, >>=-ok, Option-cases, ◌≡◌, ◌<◌, ◌||◌, refl, ◌==◌, any, count, inl, inr,
  Option, arith,
}
use dotfile.Entry.{LogEntry}
use dotfile.External.{ℤ, pos, negsuc, UlidText, External}
use dotfile.Registry.Schema.{
  Tables, AliasRow, SessionRow, invalid_event, alias_not_positive, parent_not_text, bad_priority,
}
use dotfile.Registry.Fields.{sql_number, required_str, optional_str}
use dotfile.Registry.Project.Edges.Steps.{project_edge-Step}
use dotfile.Registry.Project.Repos.Steps.{project_repo-Step}
use dotfile.Registry.Project.Sessions.{
  positive, insert_session, insert_alias, update_session, session_row, create_session,
  project_session, i64_field, alias_field, field_or_null, is_parent, rename_session, set_body_field,
  reparent_session, prioritise_session, move_session, lifecycle_state,
}
use dotfile.Registry.Step.{Step, idle, created, updated, KeepsSession}

abbrev dependencies : List String
dependencies = "session.depends_on" ∷ "session.block_on" ∷ []

module _ {V : Type 0} where
  any-count :
      (p : SessionRow V → Bool) (rows : List (SessionRow V))
      → (count p rows == 0) ≡ false
      → any p rows ≡ true
  any-count p [] h = cc
  any-count p (r ∷ rs) h = ground (arith, any-count p rs)

  pub update_session-Step :
      (e : LogEntry V) (f : SessionRow V → SessionRow V) (t t' : Tables V)
      → KeepsSession f
      → update_session e.session_id f t ≡ ok t'
      → Step e t t'
  unfolding update_session
  update_session-Step e f t t' keeps h =
      updated f keeps (ground (arith, any-count (λ r. r.id == e.session_id) t.sessions))
        (ground arith)

module _ {V : Type 0} where
  insert_both :
      (t t₁ t' : Tables V) (row : SessionRow V) (alias : AliasRow)
      → insert_session row t ≡ ok t₁
      → insert_alias alias t₁ ≡ ok t'
      → (any (λ r. r.id == row.id) t.sessions ≡ false)
        × (any (λ r. r.alias == alias.alias || r.session_id == alias.session_id) t.aliases ≡ false)
        × (t' ≡ record t { sessions = row ∷ t.sessions; aliases = alias ∷ t.aliases })
  unfolding insert_session insert_alias
  insert_both t t₁ t' row alias h h' = (ground arith, ground arith, ground arith)

any_or :
    (p q : AliasRow → Bool) (rows : List AliasRow)
    → any (λ r. p r || q r) rows ≡ false
    → (any p rows ≡ false) × (any q rows ≡ false)
any_or p q [] h = (refl, refl)
any_or p q (r ∷ rs) h = ground (arith, any_or p q rs)

-- only a positive integer is an alias
positive_pos : (o : Option ℤ) (n : ℕ) → positive o ≡ some n → 0 < n
positive_pos (some (pos (suc m))) n h = ground arith
positive_pos (some (pos zero)) n h = cc
positive_pos (some (negsuc m)) n h = cc
positive_pos none n h = cc

module _ {V : Type 0} ⦃u : UlidText⦄ ⦃x : External V⦄ where
  open x use {as_str, of_str, reads_priority}

  session_row_id :
      (e : LogEntry V) (row : SessionRow V) → session_row e ≡ ok row → row.id ≡ e.session_id
  unfolding session_row
  session_row_id e row h =
      let (name, _, h₁) = >>=-ok (optional_str e "name") _ h in
      let (workspace_id, _, h₂) = >>=-ok (optional_str e "workspace_id") _ h₁ in
      let (now, _, h₃) = >>=-ok (sql_number e.ts_ms) _ h₂ in
      let (cwd, _, last) = >>=-ok (optional_str e "cwd") _ h₃ in ground arith

  alias_field_pos :
      (e : LogEntry V) (alias : ℕ)
      → ok_or (alias_field e) (invalid_event alias_not_positive) ≡ ok alias
      → 0 < alias
  alias_field_pos e alias h = elim (Option-cases (alias_field e)) [
    | inl missing ↦ absurd (ground arith)
    | inr (a, found) ↦ positive_pos (i64_field e "alias") alias (ground arith)
  ]

  create_session-Step :
      (t t' : Tables V) (e : LogEntry V) → create_session t e ≡ ok t' → Step e t t'
  unfolding create_session
  create_session-Step t t' e h =
      let (alias, taken, h₁) =
        >>=-ok (ok_or (alias_field e) (invalid_event alias_not_positive)) _ h in
      let (row, made, h₂) = >>=-ok (session_row e) _ h₁ in
      let (t₁, inserted, last) = >>=-ok (insert_session row t) _ h₂ in
      let named : AliasRow = record { alias = alias; session_id = e.session_id } in
      let same = session_row_id e row made in
      let (free, unnamed, q) = insert_both t t₁ t' row named inserted last in
      let (free_alias, free_session) =
        any_or (λ r. r.alias == alias) (λ r. r.session_id == e.session_id) t.aliases unnamed in
      created row named same refl (alias_field_pos e alias taken)
        (subst (λ i. any (λ r. r.id == i) t.sessions ≡ false) same free) free_alias free_session q

  rename_session-Step :
      (t t' : Tables V) (e : LogEntry V) → rename_session t e ≡ ok t' → Step e t t'
  unfolding rename_session
  rename_session-Step t t' e h =
      let (name, _, h₁) = >>=-ok (required_str e "name") _ h in
      let (now, _, last) = >>=-ok (sql_number e.ts_ms) _ h₁ in
      update_session-Step e _ t t' (record { same_id = λ r. refl; same_created = λ r. refl }) last

  set_body_field-Step :
      (t t' : Tables V) (e : LogEntry V) (field : String) (v : V)
      → set_body_field t e field v ≡ ok t'
      → Step e t t'
  unfolding set_body_field
  set_body_field-Step t t' e field v h =
      let (now, _, last) = >>=-ok (sql_number e.ts_ms) _ h in
      update_session-Step e _ t t' (record { same_id = λ r. refl; same_created = λ r. refl }) last

  reparent_session-Step :
      (t t' : Tables V) (e : LogEntry V) → reparent_session t e ≡ ok t' → Step e t t'
  unfolding reparent_session
  reparent_session-Step t t' e h =
      let parent = field_or_null e.body "parent" in
      let (_, _, last) = >>=-ok (guard (is_parent parent) (invalid_event parent_not_text)) _ h in
      set_body_field-Step t t' e "parent_session_id" parent last

  prioritise_session-Step :
      (t t' : Tables V) (e : LogEntry V) → prioritise_session t e ≡ ok t' → Step e t t'
  unfolding prioritise_session
  prioritise_session-Step t t' e h =
      let priority = field_or_null e.body "priority" in
      let (_, _, last) =
        >>=-ok (guard (reads_priority priority) (invalid_event bad_priority)) _ h in
      set_body_field-Step t t' e "priority" (of_str (as_str priority)) last

  move_session-Step :
      (t t' : Tables V) (e : LogEntry V) (state : Option String)
      → move_session t e state ≡ ok t'
      → Step e t t'
  unfolding move_session
  move_session-Step t t' e none h = idle (ground arith)
  move_session-Step t t' e (some state) h =
      let (now, _, last) = >>=-ok (sql_number e.ts_ms) _ h in
      update_session-Step e _ t t' (record { same_id = λ r. refl; same_created = λ r. refl }) last

  pub project_session-Step :
      (t t' : Tables V) (e : LogEntry V) → project_session t e ≡ ok t' → Step e t t'
  unfolding project_session
  project_session-Step t t' e h =
      by_test (one_of dependencies e.event_type) h (project_edge-Step t t' e) (λ h₁.
        by_test (str_eq e.event_type "session.created") h₁ (create_session-Step t t' e) (λ h₂.
          by_test (str_eq e.event_type "session.repo_attached") h₂ (project_repo-Step t t' e) (λ h₃.
            by_test (str_eq e.event_type "session.renamed") h₃ (rename_session-Step t t' e) (λ h₄.
              by_test (str_eq e.event_type "session.reparented") h₄ (reparent_session-Step t t' e)
                (λ h₅.
                  by_test (str_eq e.event_type "session.priority") h₅
                    (prioritise_session-Step t t' e)
                    (move_session-Step t t' e (lifecycle_state e.event_type)))))))
