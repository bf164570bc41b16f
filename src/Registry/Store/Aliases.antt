-- ===== src/Registry/Store/Aliases.antt =====
-- The next alias is free.
use dotfile.Prelude.{
  ℕ, ◌+◌, ◌≤◌, ◌<◌, false, none, some, List, [], ◌∷◌, ok, err, ◌≡◌, refl, inl, inr, Option-cases,
  Bool-cases, ◌⊎◌, max, ◌==◌, ltb, any, arith,
}
use dotfile.Registry.Schema.{AliasRow, invalid_event, alias_range}
use dotfile.Registry.Fields.{i64_max}
use dotfile.Registry.Store.{Registry, max_alias, next_alias}

max_alias-none :
    (rows : List AliasRow) (a : ℕ) → max_alias rows ≡ none → any (λ r. r.alias == a) rows ≡ false
unfolding max_alias
max_alias-none [] a h = refl
max_alias-none (r ∷ rs) a h = absurd (ground arith)

-- no row's alias is above the maximum
max_alias_bounds :
    (rows : List AliasRow) (m a : ℕ)
    → max_alias rows ≡ some m
    → m < a
    → any (λ r. r.alias == a) rows ≡ false
unfolding max_alias
max_alias_bounds [] m a h lt = cc
max_alias_bounds (r ∷ rs) m a h lt = elim (Option-cases (max_alias rs)) [
  | inl alone ↦ ground (arith, max_alias-none rs a alone)
  | inr (n, rest) ↦ ground (arith, max_alias_bounds rs n a rest)
]

module _ {V : Type 0} where
  -- The next alias is not below the floor and no session has it; there is none only when the largest
  -- alias is the largest 64-bit integer.
  pub next_alias_free :
      (r : Registry V)
      → ((a : ℕ) × (next_alias r ≡ ok a)
          × (r.alias_floor ≤ a)
          × (any (λ row. row.alias == a) r.connection.aliases ≡ false))
        ⊎ ((next_alias r ≡ err (invalid_event alias_range))
            × (m : ℕ) × (max_alias r.connection.aliases ≡ some m)
            × (i64_max ≤ m))
  unfolding next_alias
  next_alias_free r = elim (Option-cases (max_alias r.connection.aliases)) [
    | inl alone ↦ inl (
      r.alias_floor,
      ground arith,
      omega arith,
      max_alias-none r.connection.aliases r.alias_floor alone,
    )
    | inr (m, largest) ↦ elim (Bool-cases (ltb m i64_max)) [
      | inl room ↦ inl (
        max (m + 1) r.alias_floor,
        ground arith,
        ground arith,
        max_alias_bounds r.connection.aliases m (max (m + 1) r.alias_floor) largest (ground arith),
      )
      | inr full ↦ inr (ground arith, m, largest, ground arith)
    ]
  ]
