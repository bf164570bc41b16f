-- ===== src/Limits/Scope/Ends.antt =====
-- The search for the scope of a parent ends.
use dotfile.Prelude.{
  ℕ, String, Option, none, some, Result, ok, err, find, length, ◌≡◌, refl, Chars, >>=-ok,
  ok_or-some, by_test,
}
use dotfile.External.{UlidText, External}
use dotfile.Registry.Schema.{SessionRow, Tables, Error, not_found}
use dotfile.Registry.Fields.{str_field}
use dotfile.Registry.Events.Latest.{IsRow}
use dotfile.Registry.Resolve.{resolve, get_record, is_listed}
use dotfile.Limits.Collect.{collect, length-collect, mem-collect, find-IsRow}
use dotfile.Limits.{LimitError}
use dotfile.Limits.Ancestors.{onward}
use dotfile.Limits.Ancestors.Ends.{climb-enough}
use dotfile.Limits.Scope.{
  ScopeFound, next_parent, is_loop_body, parsed_parent, visit_record, scope_climb, spawn_scope,
}

-- what a parent that was read names
unfoldable pub read_parent : Result LimitError (Option ℕ) → Option ℕ
read_parent (err reason) = none
read_parent (ok parent) = parent

next_parent-names :
    (legacy : Option Chars) (r : Result LimitError (Option ℕ)) (next : ℕ) (s' : Option Chars)
    → next_parent legacy r ≡ onward (some next) s'
    → read_parent r ≡ some next
unfolding next_parent read_parent
next_parent-names legacy (err reason) next s' h = cc
next_parent-names legacy (ok parent) next s' h = cc

module _ {V : Type 0} ⦃u : UlidText⦄ ⦃x : External V⦄ where
  unfoldable pub parent_named : SessionRow V → Option ℕ
  parent_named row = read_parent (parsed_parent (str_field row.body "parent_session_id"))

  visit_record-names :
      (id : ℕ) (legacy : Option Chars) (r : Result Error (SessionRow V)) (next : ℕ)
      (s' : Option Chars)
      → visit_record id legacy r ≡ onward (some next) s'
      → (row : SessionRow V) × (r ≡ ok row) × (parent_named row ≡ some next)
  unfolding visit_record parent_named
  visit_record-names id legacy (err reason) next s' h = cc
  visit_record-names id legacy (ok row) next s' h =
      by_test (is_loop_body row.body) h (λ q. cc)
        (λ q. (row, refl, next_parent-names _ _ next s' q))

  pub get_record-IsRow :
      (t : Tables V) (input : String) (row : SessionRow V)
      → get_record t input ≡ ok row
      → IsRow row t.sessions
  unfolding get_record
  get_record-IsRow t input row h =
      let (id, resolved, h₁) = >>=-ok (resolve t input) _ h in
      find-IsRow parent_named (is_listed t id) t.sessions row
        (ok_or-some (find (is_listed t id) t.sessions) (not_found input) h₁)

  -- The search for the scope of a parent ends, whatever the sessions name as their parents.
  pub spawn_scope-ends :
      (t : Tables V) (parent : Option ℕ) → (r : ScopeFound) × (spawn_scope t parent ≡ some r)
  unfolding spawn_scope scope_climb
  spawn_scope-ends t parent =
      climb-enough (scope_climb t) (collect parent_named t.sessions)
        (λ id s s' n q.
          let (row, got, named) = visit_record-names id s _ n s' q in
          mem-collect parent_named t.sessions row n (get_record-IsRow t (u.show_ulid id) row got)
            named)
        (length t.sessions) parent none (length-collect parent_named t.sessions)
