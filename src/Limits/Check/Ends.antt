-- ===== src/Limits/Check/Ends.antt =====
-- The checks of the spawn limits end on every index.
use dotfile.Prelude.{
  ℕ, suc, ◌+◌, Bool, Option, none, some, List, [], ◌∷◌, Result, ok, err, select, count, length, ◌≡◌,
  refl, subst, inl, inr, arith, Chars, ◌==◌, leb, on_branches, by_test,
}
use dotfile.Entry.{LogEntry}
use dotfile.External.{UlidText, External}
use dotfile.Registry.Schema.{SessionRow, AppliedRow, Tables, Error}
use dotfile.Registry.Fields.{str_field}
use dotfile.Registry.Events.{latest_row, later, is_event, entry_of}
use dotfile.Registry.Events.Latest.{IsRow, latest_row-cases}
use dotfile.Registry.Resolve.{get_record}
use dotfile.Limits.Collect.{collect, length-collect, mem-collect, find-IsRow, length-select}
use dotfile.Limits.{LimitError, Limits}
use dotfile.Limits.Ancestors.{Turn, onward, climb}
use dotfile.Limits.Ancestors.Ends.{climb-enough}
use dotfile.Limits.Scope.{is_loop_body, legacy_loop_scope, spawn_scope}
use dotfile.Limits.Check.{
  Checked, recorded_or_inferred, is_of_type, is_moved_in, is_child, and_then, id_of, deeper,
  visit_creation, creation_of, creation_climb, creation_scope, add_spawn, creations_in, capped,
  text_codes, check_loop_spawn_cap, check_scope, check_children, visit_depth, depth_climb,
  check_depth, check_parent, check_spawn_limits, has_alias,
}
use dotfile.Limits.Scope.Ends.{read_parent, parent_named, spawn_scope-ends}

unfoldable pub IsSome : {A : Type 0} → Option A → Type 0
IsSome {A} found = (a : A) × (found ≡ some a)

deeper-names :
    (n : ℕ) (r : Result LimitError (Option ℕ)) (next s' : ℕ)
    → deeper n r ≡ onward (some next) s'
    → read_parent r ≡ some next
unfolding deeper read_parent
deeper-names n (err reason) next s' h = cc
deeper-names n (ok parent) next s' h = cc

-- a chain of checks ends where each does
pub and_then-IsSome :
    {A B : Type 0} (o : Option (Result LimitError A)) (k : A → Option (Result LimitError B))
    → IsSome o
    → ((a : A) → IsSome (k a))
    → IsSome (and_then o k)
unfolding IsSome
and_then-IsSome none k (r, h) rest = cc
and_then-IsSome (some (err reason)) k h rest = (err reason, refl)
and_then-IsSome (some (ok a)) k h rest = rest a

pub some-IsSome : {A : Type 0} (a : A) → IsSome (some a)
unfolding IsSome
some-IsSome a = (a, refl)

add_spawn-IsSome :
    (scope : Chars) (found : Option (Option Chars)) (later : Option ℕ)
    → IsSome found
    → IsSome later
    → IsSome (add_spawn scope found later)
unfolding add_spawn IsSome
add_spawn-IsSome scope none later (_, h) rest = cc
add_spawn-IsSome scope (some own) none h (_, rest) = cc
add_spawn-IsSome scope (some own) (some n) h rest = (_, refl)

capped-IsSome :
    (limits : Limits) (parent moved : ℕ) (n : Option ℕ)
    → IsSome n
    → IsSome (capped limits parent moved n)
unfolding capped IsSome
capped-IsSome limits parent moved none (_, h) = cc
capped-IsSome limits parent moved (some n) h =
    on_branches (λ (o : Checked). (r : Result LimitError (Unit {0})) × (o ≡ some r))
      (leb limits.max_spawns (n + moved)) (λ _. (_, refl)) (λ _. (_, refl))

module _ {V : Type 0} ⦃u : UlidText⦄ ⦃x : External V⦄ where
  pub spawn_scope-IsSome : (t : Tables V) (parent : Option ℕ) → IsSome (spawn_scope t parent)
  unfolding IsSome
  spawn_scope-IsSome t parent = spawn_scope-ends t parent

  visit_depth-names :
      (id n : ℕ) (found : Option (SessionRow V)) (next s' : ℕ)
      → visit_depth id n found ≡ onward (some next) s'
      → (row : SessionRow V) × (found ≡ some row) × (parent_named row ≡ some next)
  unfolding visit_depth parent_named
  visit_depth-names id n none next s' h = cc
  visit_depth-names id n (some row) next s' h = (row, refl, deeper-names (suc n) _ next s' h)

  check_depth-ends :
      (t : Tables V) (limits : Limits) (parent : ℕ) → IsSome (check_depth t limits parent)
  unfolding check_depth depth_climb IsSome
  check_depth-ends t limits parent =
      let listed = select (has_alias t) t.sessions in
      climb-enough (depth_climb t limits parent) (collect parent_named listed)
        (λ id s s' n q.
          let (row, got, named) = visit_depth-names id s _ n s' q in
          mem-collect parent_named listed row n
            (find-IsRow parent_named (λ r. r.id == id) listed row got) named)
        (length t.sessions) (some parent) 0
        (omega (arith, length-collect parent_named listed, length-select (has_alias t) t.sessions))

  parent_created : AppliedRow V → Option ℕ
  parent_created row = id_of (str_field row.entry.body "parent_session_id")

  visit_creation-names :
      (id : ℕ) (legacy : Option Chars) (found : Option (AppliedRow V)) (next : ℕ)
      (s' : Option Chars)
      → visit_creation id legacy (entry_of found) ≡ onward (some next) s'
      → (row : AppliedRow V) × (found ≡ some row) × (parent_created row ≡ some next)
  unfolding visit_creation parent_created
  visit_creation-names id legacy none next s' h = cc
  visit_creation-names id legacy (some row) next s' h =
      by_test (is_loop_body row.entry.body) h (λ q. cc) (λ q. (row, refl, named q))
    where
      named :
          {parent : Option ℕ} {scope : Option Chars}
          → ◌≡◌ {A = Turn (Option Chars) (Option Chars)}
              (onward parent scope)
              (onward (some next) s')
          → parent ≡ some next
      named q = cc

  creation_row :
      (p : AppliedRow V → Bool) (rows : List (AppliedRow V)) (row : AppliedRow V)
      → latest_row p rows ≡ some row
      → IsRow row rows
  creation_row p rows row h = elim (latest_row-cases p rows) [
    | inl (missing, _) ↦ cc
    | inr (r, found, at, _, _) ↦ subst (λ a. IsRow a rows) (ground arith) at
  ]

  inferred-ends :
      (t : Tables V) (start : Option ℕ) (legacy : Option Chars)
      → IsSome (climb (creation_climb t) (suc (suc (length t.applied))) start [] legacy)
  unfolding creation_climb creation_of IsSome
  inferred-ends t start legacy =
      climb-enough (creation_climb t) (collect parent_created t.applied)
        (λ id s s' n q.
          let (row, got, named) = visit_creation-names id s _ n s' q in
          mem-collect parent_created t.applied row n
            (creation_row (is_event id "session.created") t.applied row got) named)
        (length t.applied) start legacy (length-collect parent_created t.applied)

  recorded_or_inferred-ends :
      (t : Tables V) (e : LogEntry V) (recorded : Option Chars)
      → IsSome (recorded_or_inferred t e recorded)
  unfolding recorded_or_inferred
  recorded_or_inferred-ends t e (some recorded) = some-IsSome (some recorded)
  recorded_or_inferred-ends t e none =
      inferred-ends t (id_of (str_field e.body "parent_session_id")) (legacy_loop_scope e.body)

  creations_in-ends :
      (t : Tables V) (scope : Chars) (rows : List (AppliedRow V))
      → IsSome (creations_in t scope rows)
  unfolding creations_in creation_scope
  creations_in-ends t scope [] = some-IsSome 0
  creations_in-ends t scope (row ∷ rows) =
      on_branches IsSome (is_of_type "session.created" row)
        (λ _.
          add_spawn-IsSome scope (creation_scope t row.entry) (creations_in t scope rows)
            (recorded_or_inferred-ends t row.entry
              (text_codes (str_field row.entry.body "loop_spawn_scope")))
            (creations_in-ends t scope rows))
        (λ _. creations_in-ends t scope rows)

  pub check_loop_spawn_cap-ends :
      (t : Tables V) (limits : Limits) (parent : ℕ) (scope : Chars)
      → IsSome (check_loop_spawn_cap t limits parent scope)
  unfolding check_loop_spawn_cap
  check_loop_spawn_cap-ends t limits parent scope =
      capped-IsSome limits parent (count (is_moved_in scope) t.applied)
        (creations_in t scope t.applied) (creations_in-ends t scope t.applied)

  check_scope-ends :
      (t : Tables V) (limits : Limits) (parent : ℕ) (scope : Option Chars)
      → IsSome (check_scope t limits parent scope)
  unfolding check_scope
  check_scope-ends t limits parent none = some-IsSome (ok tt)
  check_scope-ends t limits parent (some scope) = check_loop_spawn_cap-ends t limits parent scope

  check_children-ends :
      (t : Tables V) (limits : Limits) (parent : ℕ) (scope : Option Chars)
      → IsSome (check_children t limits parent scope)
  unfolding check_children
  check_children-ends t limits parent scope =
      on_branches IsSome
        (leb limits.max_children (count (is_child parent scope) (select (has_alias t) t.sessions)))
        (λ _. some-IsSome _) (λ _. some-IsSome _)

  check_parent-ends :
      (t : Tables V) (limits : Limits) (parent : ℕ) (r : Result Error (SessionRow V))
      → IsSome (check_parent t limits parent r)
  unfolding check_parent
  check_parent-ends t limits parent (err reason) = some-IsSome _
  check_parent-ends t limits parent (ok row) =
      and_then-IsSome (spawn_scope t (some parent)) _ (spawn_scope-IsSome t (some parent)) (λ scope.
        and_then-IsSome (check_scope t limits parent scope) _
          (check_scope-ends t limits parent scope)
          (λ _.
            and_then-IsSome (check_children t limits parent scope) _
              (check_children-ends t limits parent scope) (λ _. check_depth-ends t limits parent)))

  -- The check of the limits ends with an answer on every index, whatever its sessions and its logs
  -- name as parents, cycles included.
  pub check_spawn_limits-ends :
      (t : Tables V) (limits : Limits) (parent : Option ℕ)
      → (r : Result LimitError (Unit {0})) × (check_spawn_limits t limits parent ≡ some r)
  unfolding check_spawn_limits IsSome
  check_spawn_limits-ends t limits none = (ok tt, refl)
  check_spawn_limits-ends t limits (some parent) =
      check_parent-ends t limits parent (get_record t (u.show_ulid parent))
