-- ===== src/Limits/Check/Tag.antt =====
-- Tagging the body of an entry with the loop that it counts for ends.
use dotfile.Prelude.{ℕ, String, Option, none, some, Result, ok, ◌≡◌, Chars}
use dotfile.External.{UlidText, External}
use dotfile.Registry.Schema.{Tables}
use dotfile.Registry.Fields.{str_field}
use dotfile.Limits.{LimitError, Limits}
use dotfile.Limits.Scope.{or_scope, legacy_loop_scope, spawn_scope}
use dotfile.Limits.Check.{
  tag_field, tagged_parent, parent_or, put_scope, tag_body, tag_loop_spawn, check_loop_spawn_cap,
}
use dotfile.Limits.Check.Ends.{
  IsSome, and_then-IsSome, some-IsSome, spawn_scope-IsSome, check_loop_spawn_cap-ends,
}

module _ {V : Type 0} ⦃u : UlidText⦄ ⦃x : External V⦄ where
  put_scope-ends :
      (put : V → Chars → V) (t : Tables V) (limits : Limits) (parent : ℕ) (body : V)
      (scope : Option Chars)
      → IsSome (put_scope put t limits parent body scope)
  unfolding put_scope
  put_scope-ends put t limits parent body none = some-IsSome (ok body)
  put_scope-ends put t limits parent body (some scope) =
      and_then-IsSome (check_loop_spawn_cap t limits parent scope) (λ _. some (ok (put body scope)))
        (check_loop_spawn_cap-ends t limits parent scope) (λ _. some-IsSome _)

  tag_body-ends :
      (put : V → Chars → V) (t : Tables V) (limits : Limits) (id : ℕ) (body : V)
      (field : Option String)
      → IsSome (tag_body put t limits id body field)
  unfolding tag_body
  tag_body-ends put t limits id body none = some-IsSome (ok body)
  tag_body-ends put t limits id body (some field) =
      and_then-IsSome (some (tagged_parent (str_field body field))) _ (some-IsSome _) (λ parent.
        and_then-IsSome (spawn_scope t parent) _ (spawn_scope-IsSome t parent) (λ scope.
          put_scope-ends put t limits (parent_or id parent) body
            (or_scope scope (legacy_loop_scope body))))

  -- Tagging the body of an entry ends with a body or an error.
  pub tag_loop_spawn-ends :
      (put : V → Chars → V) (t : Tables V) (limits : Limits) (id : ℕ) (event_type : String)
      (body : V)
      → (r : Result LimitError V) × (tag_loop_spawn put t limits id event_type body ≡ some r)
  unfolding tag_loop_spawn IsSome
  tag_loop_spawn-ends put t limits id event_type body =
      tag_body-ends put t limits id body (tag_field event_type)
