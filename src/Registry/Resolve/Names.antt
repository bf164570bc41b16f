-- ===== src/Registry/Resolve/Names.antt =====
-- What `resolve` answers with on a well-formed index.
use dotfile.Prelude.{
  mem, ℕ, ◌≤◌, ◌<◌, String, Bool, true, false, Option, none, some, List, [], ◌∷◌, Result, ok, err,
  ok_or, ◌>>=◌, ◌≡◌, ◌∙◌, ap, sym, refl, ◌⊎◌, inl, inr, ◌&&◌, any, find, select, map, count, Chars,
  codes, same, starts_with, arith, ◌==◌, ==_iff, ==_refl, >>=-ok, ok_or-some, find-holds, count-any,
  by_test, Bool-cases,
}
use dotfile.External.{UlidText}
use dotfile.Registry.Schema.{SessionRow, AliasRow, Tables, Error, not_found}
use dotfile.Registry.Invariant.{Inv}
use dotfile.Registry.Resolve.{
  select_session, by_alias, by_session, by_prefix, by_text, text_or_prefix, find_session, resolve,
  get_record, or_find, is_listed, alias_number, uppercase, is_id, is_named, is_prefix_text,
}

module _ {ℓ} {A : Type ℓ} where
  select-none : (p : A → Bool) (rows : List A) → count p rows ≤ 0 → select p rows ≡ []
  select-none p [] h = refl
  select-none p (r ∷ rs) h = ground (arith, select-none p rs)

  -- a row that alone passes is what the query selects
  select-once :
      (p : A → Bool) (rows : List A) (a : A)
      → count p rows ≤ 1
      → find p rows ≡ some a
      → select p rows ≡ a ∷ []
  select-once p [] a once h = cc
  select-once p (r ∷ rs) a once h = elim (Bool-cases (p r)) [
    | inl this ↦
        let same : r ≡ a = ground arith in
        let rest : select p rs ≡ [] = select-none p rs (ground arith) in rw (this, rest, same) refl
    | inr other ↦ ground (arith, select-once p rs a)
  ]

  select_congr :
      (p q : A → Bool) → ((a : A) → p a ≡ q a) → (rows : List A) → select p rows ≡ select q rows
  select_congr p q h [] = refl
  select_congr p q h (r ∷ rs) = rw (h r, select_congr p q h rs) refl

  any-count : (p : A → Bool) (rows : List A) → any p rows ≡ true → 0 < count p rows
  any-count p [] h = cc
  any-count p (r ∷ rs) h = ground (arith, any-count p rs)

  any-find : (p : A → Bool) (rows : List A) → any p rows ≡ true → (a : A) × (find p rows ≡ some a)
  any-find p [] h = cc
  any-find p (r ∷ rs) h = elim (Bool-cases (p r)) [
    | inl this ↦ (r, rw this refl)
    | inr other ↦ let (a, q) = any-find p rs (ground arith) in (a, rw other q)
  ]

  select-row :
      (number : A → ℕ) (p : A → Bool) (rows : List A) (id : ℕ)
      → mem id (map number (select p rows)) ≡ true
      → any (λ r. number r == id) rows ≡ true
  select-row number p [] id h = cc
  select-row number p (r ∷ rs) id h = ground (arith, select-row number p rs id)

select_session-mem :
    (input : String) (ids : List ℕ) (id : ℕ)
    → select_session input ids ≡ ok (some id)
    → mem id ids ≡ true
unfolding select_session
select_session-mem input [] id h = cc
select_session-mem input (i ∷ []) id h = ground (arith, ==_refl id)
select_session-mem input (i ∷ j ∷ rest) id h = cc

or_find-some :
    (first later : Result Error (Option ℕ)) (id : ℕ)
    → or_find first later ≡ ok (some id)
    → (first ≡ ok (some id)) ⊎ (later ≡ ok (some id))
unfolding or_find
or_find-some (err reason) later id h = cc
or_find-some (ok none) later id h = inr h
or_find-some (ok (some i)) later id h = inl h

and_left : {a : Bool} (b : Bool) → (a && b) ≡ true → a ≡ true
and_left {a} b h = ground arith

module _ {V : Type 0} where
  abbrev HasSession : Tables V → ℕ → Type 0
  HasSession t id = any (λ (r : SessionRow V). r.id == id) t.sessions ≡ true

  by_session-has :
      (t : Tables V) (input : String) (test : SessionRow V → Bool) (id : ℕ)
      → by_session t input test ≡ ok (some id)
      → HasSession t id
  unfolding by_session
  by_session-has t input test id h =
      select-row (λ (r : SessionRow V). r.id) test t.sessions id (select_session-mem input _ id h)

  owner_has :
      (t : Tables V)
      → Inv t
      → (id : ℕ) → any (λ (a : AliasRow). a.session_id == id) t.aliases ≡ true
      → HasSession t id
  owner_has t v id h = elim (Bool-cases (any (λ (r : SessionRow V). r.id == id) t.sessions)) [
    | inl has ↦ has
    | inr free ↦ absurd (
        omega (
          arith,
          count-any (λ (r : SessionRow V). r.id == id) t.sessions free,
          v.one_alias id,
          any-count (λ (a : AliasRow). a.session_id == id) t.aliases h,
        ))
  ]

  has_owner :
      (t : Tables V)
      → Inv t
      → (id : ℕ) → HasSession t id
      → any (λ (a : AliasRow). a.session_id == id) t.aliases ≡ true
  has_owner t v id h = elim (Bool-cases (any (λ (a : AliasRow). a.session_id == id) t.aliases)) [
    | inl has ↦ has
    | inr free ↦ absurd (
        omega (
          arith,
          count-any (λ (a : AliasRow). a.session_id == id) t.aliases free,
          v.one_alias id,
          any-count (λ (r : SessionRow V). r.id == id) t.sessions h,
        ))
  ]

  any-listed :
      (t : Tables V) (rows : List (SessionRow V)) (id : ℕ)
      → any (λ (a : AliasRow). a.session_id == id) t.aliases ≡ true
      → any (λ r. r.id == id) rows ≡ true
      → any (is_listed t id) rows ≡ true
  any-listed t [] id owner h = cc
  any-listed t (r ∷ rs) id owner h = elim (Bool-cases (r.id == id)) [
    | inl this ↦ let same : r.id ≡ id = (==_iff r.id id).0 this in rw (same, ==_refl id, owner) refl
    | inr other ↦ rw (other, any-listed t rs id owner (ground arith)) refl
  ]

  by_alias-has :
      (t : Tables V)
      → Inv t
      → (input : String) (alias : Option ℕ) (id : ℕ) → by_alias t input alias ≡ ok (some id)
      → HasSession t id
  unfolding by_alias
  by_alias-has t v input none id h = cc
  by_alias-has t v input (some alias) id h = owner_has t v id (
      select-row (λ (a : AliasRow). a.session_id) (λ (a : AliasRow). a.alias == alias) t.aliases id
        (select_session-mem input _ id h))

  module _ ⦃u : UlidText⦄ where
    open u use {show_ulid}

    by_prefix-has :
        (t : Tables V) (input : String) (upper : Chars) (id : ℕ)
        → by_prefix t input upper ≡ ok (some id)
        → HasSession t id
    unfolding by_prefix
    by_prefix-has t input upper id h =
        by_test (is_prefix_text upper) h
          (by_session-has t input (λ r. starts_with upper (codes (show_ulid r.id))) id) (λ q. cc)

    by_text-has :
        (t : Tables V) (input : String) (cs : Chars) (id : ℕ)
        → by_text t input cs ≡ ok (some id)
        → HasSession t id
    unfolding by_text text_or_prefix
    by_text-has t input cs id h = elim (or_find-some _ _ id h) [
      | inl exact ↦ by_session-has t input (is_id (uppercase cs)) id exact
      | inr other ↦ elim (or_find-some _ _ id other) [
        | inl named ↦ by_session-has t input (is_named cs) id named
        | inr short ↦ by_prefix-has t input (uppercase cs) id short
      ]
    ]

    find_session-has :
        (t : Tables V)
        → Inv t
        → (input : String) (cs : Chars) (id : ℕ) → find_session t input cs ≡ ok (some id)
        → HasSession t id
    unfolding find_session
    find_session-has t v input [] id h = by_text-has t input [] id h
    find_session-has t v input (c ∷ cs) id h =
        by_test (c == b'#') h (by_alias-has t v input (alias_number cs) id)
          (by_text-has t input (c ∷ cs) id)

    -- On a well-formed index whatever a text resolves to is a session with a row, and reading its
    -- record by the same text gives that row.
    pub resolve-get_record :
        (t : Tables V)
        → Inv t
        → (input : String) (id : ℕ) → resolve t input ≡ ok id
        → (row : SessionRow V) × (row.id ≡ id) × (get_record t input ≡ ok row)
    unfolding get_record resolve
    resolve-get_record t v input id h =
        let (answer, answered, chosen) = >>=-ok (find_session t input (codes input)) _ h in
        let has =
          find_session-has t v input (codes input) id
            (answered ∙ ap ok (ok_or-some answer (not_found input) chosen)) in
        let (row, listed) =
          any-find (is_listed t id) t.sessions
            (any-listed t t.sessions id (has_owner t v id has) has) in
        let held = find-holds (is_listed t id) t.sessions row listed in
        (row, (==_iff row.id id).0 (and_left _ held), rw (h, listed) refl)

-- what the text of a ULID promises: no `#` before it, capitals only, and another text for another id
pub record UlidLaws (u : UlidText) : Type 0 where
  pub plain :
      (id : ℕ) → (c : ℕ) × (cs : Chars) × (codes (u.show_ulid id) ≡ c ∷ cs) × ((c == b'#') ≡ false)
  pub capitals : (id : ℕ) → uppercase (codes (u.show_ulid id)) ≡ codes (u.show_ulid id)
  pub distinct : (a b : ℕ) → same (codes (u.show_ulid a)) (codes (u.show_ulid b)) ≡ (a == b)

module _ {V : Type 0} ⦃u : UlidText⦄ (laws : UlidLaws u) where
  open u use {show_ulid}

  by_session-show_ulid :
      (t : Tables V)
      → Inv t
      → (input : String) (row : SessionRow V) → find (λ r. r.id == row.id) t.sessions ≡ some row
      → by_session t input (is_id (uppercase (codes (show_ulid row.id)))) ≡ ok (some row.id)
  unfolding by_session select_session
  by_session-show_ulid t v input row h =
      ap (λ (rows : List (SessionRow V)). select_session input (map (λ r. r.id) rows))
        (select_congr _ (λ r. r.id == row.id)
            (λ r.
              ap (same (codes (show_ulid r.id))) (laws.capitals row.id) ∙ laws.distinct r.id row.id)
            t.sessions
          ∙ select-once (λ r. r.id == row.id) t.sessions row (v.session_once row.id) h)

  -- On a well-formed index the canonical text of a session's id resolves to that session, whatever
  -- names other sessions have.
  pub resolve-show_ulid :
      (t : Tables V)
      → Inv t
      → (row : SessionRow V) → find (λ r. r.id == row.id) t.sessions ≡ some row
      → resolve t (show_ulid row.id) ≡ ok row.id
  unfolding resolve find_session by_text by_session select_session or_find
  resolve-show_ulid t v row h =
      let (c, cs, shown, plain) = laws.plain row.id in
      let exact = by_session-show_ulid t v (show_ulid row.id) row h in
      ap (λ r. r >>= λ id. ok_or id (not_found (show_ulid row.id)))
        (ap (find_session t (show_ulid row.id)) shown
          ∙ rw plain refl
          ∙ ap (by_text t (show_ulid row.id)) (sym shown)
          ∙ ap (λ r. or_find r (text_or_prefix t (show_ulid row.id) (codes (show_ulid row.id))))
              exact)
