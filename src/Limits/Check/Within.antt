-- ===== src/Limits/Check/Within.antt =====
-- What holds of a parent that the limits let spawn.
use dotfile.Prelude.{
  ℕ, zero, suc, ◌+◌, ◌≤◌, ◌<◌, Option, none, some, List, [], ◌∷◌, Result, ok, err, find, mem,
  select, count, length, ◌≡◌, refl, inl, inr, Bool-cases, arith, Chars, ◌==◌, leb, by_test,
}
use dotfile.External.{UlidText, External}
use dotfile.Registry.Schema.{SessionRow, Tables, Error}
use dotfile.Registry.Fields.{str_field}
use dotfile.Registry.Resolve.{get_record}
use dotfile.Limits.{LimitError, Limits}
use dotfile.Limits.Ancestors.{climb, turn, unless}
use dotfile.Limits.Scope.{parsed_parent, spawn_scope}
use dotfile.Limits.Check.{
  Checked, and_then, deeper, is_child, is_moved_in, has_alias, creations_in, capped,
  check_loop_spawn_cap, check_scope, check_children, visit_depth, depth_climb, check_depth,
  check_parent, check_spawn_limits,
}

-- a chain of checks that passed: its first did, and so did the rest
and_then-ok :
    {A B : Type 0} (o : Option (Result LimitError A)) (k : A → Option (Result LimitError B)) {b : B}
    → and_then o k ≡ some (ok b)
    → (a : A) × (o ≡ some (ok a)) × (k a ≡ some (ok b))
and_then-ok none k h = cc
and_then-ok (some (err reason)) k h = cc
and_then-ok (some (ok a)) k h = (a, refl, h)

refused : {reason : LimitError} → ◌≡◌ {A = Checked} (some (err reason)) (some (ok tt)) → ⊥
refused h = cc

module _ {V : Type 0} ⦃u : UlidText⦄ ⦃x : External V⦄ (t : Tables V) where
  abbrev pub listed : ℕ → Option (SessionRow V)
  listed id = find (λ r. r.id == id) (select (has_alias t) t.sessions)

  abbrev pub parent_in : SessionRow V → Result LimitError (Option ℕ)
  parent_in row = parsed_parent (str_field row.body "parent_session_id")

  -- a session and its ancestors, up to one without a parent
  pub data Depth : ℕ → ℕ → Type 0 where
    root :
        {id : ℕ} {row : SessionRow V} → listed id ≡ some row → parent_in row ≡ ok none → Depth id 1
    child :
        {id parent n : ℕ} {row : SessionRow V}
        → listed id ≡ some row
        → parent_in row ≡ ok (some parent)
        → Depth parent n
        → Depth id (suc n)

  -- the spawns that count for a scope
  pub CapHolds : Limits → Option Chars → Type 0
  CapHolds limits none = Unit
  CapHolds limits (some scope) =
      (n : ℕ) × (creations_in t scope t.applied ≡ some n)
      × (n + count (is_moved_in scope) t.applied < limits.max_spawns)

  pub record Within (limits : Limits) (parent : ℕ) : Type 0 where
    pub scope : Option Chars
    pub scoped : spawn_scope t (some parent) ≡ some (ok scope)
    pub cap : CapHolds limits scope
    pub few_children :
        count (is_child parent scope) (select (has_alias t) t.sessions) < limits.max_children
    pub ancestors : ℕ
    pub chain : Depth parent ancestors
    pub shallow : ancestors ≤ limits.max_depth

  module _ (limits : Limits) (parent : ℕ) where
    DepthFrom : ℕ → ℕ → Type 0
    DepthFrom id n = (k : ℕ) × Depth id k × (n + k ≤ limits.max_depth)

    deeper-ok :
        (fuel id n : ℕ) (seen : List ℕ) (row : SessionRow V)
        → ((next : ℕ)
            → climb (depth_climb t limits parent) fuel (some next) seen (suc n) ≡ some (ok tt)
            → DepthFrom next (suc n))
        → listed id ≡ some row
        → n < limits.max_depth
        → (p : Result LimitError (Option ℕ)) → parent_in row ≡ p
        → turn
            (depth_climb t limits parent)
            (λ next s. climb (depth_climb t limits parent) fuel next seen s)
            (deeper (suc n) p)
          ≡ some (ok tt)
        → DepthFrom id n
    unfolding turn deeper DepthFrom
    deeper-ok fuel id n seen row go got less (err reason) q h = cc
    deeper-ok fuel id n seen row go got less (ok none) q h = (1, root got q, omega arith)
    deeper-ok fuel id n seen row go got less (ok (some next)) q h =
        let (k, chain, short) = go next h in (suc k, child got q chain, omega arith)

    visited-ok :
        (fuel id n : ℕ) (seen : List ℕ)
        → ((next : ℕ)
            → climb (depth_climb t limits parent) fuel (some next) seen (suc n) ≡ some (ok tt)
            → DepthFrom next (suc n))
        → n < limits.max_depth
        → (found : Option (SessionRow V)) → listed id ≡ found
        → turn
            (depth_climb t limits parent)
            (λ next s. climb (depth_climb t limits parent) fuel next seen s)
            (visit_depth id n found)
          ≡ some (ok tt)
        → DepthFrom id n
    unfolding turn visit_depth
    visited-ok fuel id n seen go less none got h = cc
    visited-ok fuel id n seen go less (some row) got h =
        deeper-ok fuel id n seen row go got less (parent_in row) refl h

    depth-ok :
        (fuel id n : ℕ) (seen : List ℕ)
        → climb (depth_climb t limits parent) fuel (some id) seen n ≡ some (ok tt)
        → DepthFrom id n
    unfolding climb unless depth_climb visit_depth turn
    depth-ok zero id n seen h = cc
    depth-ok (suc fuel) id n seen h = elim (Bool-cases (leb limits.max_depth n)) [
      | inl full ↦ absurd (refused (rw full at h))
      | inr free ↦
          by_test (mem id seen) (rw free at h) (λ q. absurd (refused q))
            (λ q.
              visited-ok fuel id n (id ∷ seen) (λ next. depth-ok fuel next (suc n) (id ∷ seen))
                (ground arith) (listed id) refl q)
    ]

    check_children-ok :
        (scope : Option Chars)
        → check_children t limits parent scope ≡ some (ok tt)
        → count (is_child parent scope) (select (has_alias t) t.sessions) < limits.max_children
    unfolding check_children
    check_children-ok scope h = ground arith

    capped-ok :
        (moved : ℕ) (n : Option ℕ)
        → capped limits parent moved n ≡ some (ok tt)
        → (k : ℕ) × (n ≡ some k) × (k + moved < limits.max_spawns)
    unfolding capped
    capped-ok moved none h = cc
    capped-ok moved (some n) h = (n, refl, ground arith)

    check_scope-ok :
        (scope : Option Chars)
        → check_scope t limits parent scope ≡ some (ok tt)
        → CapHolds limits scope
    unfolding check_scope check_loop_spawn_cap CapHolds
    check_scope-ok none h = tt
    check_scope-ok (some scope) h = capped-ok (count (is_moved_in scope) t.applied) _ h

    check_parent-ok :
        (r : Result Error (SessionRow V))
        → check_parent t limits parent r ≡ some (ok tt)
        → Within limits parent
    unfolding check_parent check_depth DepthFrom
    check_parent-ok (err reason) h = cc
    check_parent-ok (ok row) h =
        let (scope, scoped, h₁) = and_then-ok (spawn_scope t (some parent)) _ h in
        let (_, capped, h₂) = and_then-ok (check_scope t limits parent scope) _ h₁ in
        let (_, few, deep) = and_then-ok (check_children t limits parent scope) _ h₂ in
        let (k, chain, short) = depth-ok (suc (suc (length t.sessions))) parent 0 [] deep in
        record {
          scope = scope;
          scoped = scoped;
          cap = check_scope-ok scope capped;
          few_children = check_children-ok scope few;
          ancestors = k;
          chain = chain;
          shallow = omega arith;
        }

    -- Where the limits let a parent spawn, its scope is known and below the cap of spawns, its
    -- children that count are fewer than the limit, and its ancestry is free of cycles, with no more
    -- sessions than the limit of depth.
    pub check_spawn_limits-Within :
        check_spawn_limits t limits (some parent) ≡ some (ok tt) → Within limits parent
    unfolding check_spawn_limits
    check_spawn_limits-Within h = check_parent-ok (get_record t (u.show_ulid parent)) h
