-- ===== src/Log/Values/Exact.antt =====
-- `validate_numbers` accepts the values whose numbers are exact in JSON.
use dotfile.Prelude.{
  ℕ, ◌+◌, ◌<◌, String, ◌||◌, Bool, true, false, not, Option, none, some, ok, guard-ok, >>=-ok, ◌≡◌,
  ◌↔◌, refl, arith,
}
use dotfile.External.{ℤ, pos, negsuc}
use dotfile.Log.Values.{
  Value, null, boolean, number, string, array, object, Values, no_values, value, Members,
  no_members, member, Codec, big_integer, is_safe, above_safe, below_safe, validate_numbers,
  validate_values, validate_members,
}

-- a number that stands in a value, at any depth
mutual
  pub data Occurs {N : Type 0} (n : N) : Value N → Type 0 where
    itself : Occurs n (number n)
    in_array : {vs : Values N} → Among n vs → Occurs n (array vs)
    in_object : {ms : Members N} → Within n ms → Occurs n (object ms)

  pub data Among {N : Type 0} (n : N) : Values N → Type 0 where
    first_value : {v : Value N} {vs : Values N} → Occurs n v → Among n (value v vs)
    later_value : {v : Value N} {vs : Values N} → Among n vs → Among n (value v vs)

  pub data Within {N : Type 0} (n : N) : Members N → Type 0 where
    first_member :
        {k : String} {v : Value N} {ms : Members N} → Occurs n v → Within n (member k v ms)
    later_member :
        {k : String} {v : Value N} {ms : Members N} → Within n ms → Within n (member k v ms)

-- below 2^53
abbrev IsBelow : Option ℕ → Type 0
IsBelow none = Unit
IsBelow (some k) = k < 9007199254740992

-- above -2^53, where `negsuc k` is -(k + 1)
abbrev IsAbove : Option ℤ → Type 0
IsAbove none = Unit
IsAbove (some (pos k)) = Unit
IsAbove (some (negsuc k)) = k + 1 < 9007199254740992

-- the integer lies strictly between -2^53 and 2^53, where a double holds every integer
unfoldable pub IsExact : {N : Type 0} → ⦃c : Codec N⦄ → N → Type 0
IsExact ⦃c⦄ n = IsBelow (c.as_u64 n) × IsAbove (c.as_i64 n)

above_safe-IsBelow : (k : Option ℕ) → above_safe k ≡ false → IsBelow k
above_safe-IsBelow none h = tt
above_safe-IsBelow (some k) h = ground arith

IsBelow-above_safe : (k : Option ℕ) → IsBelow k → above_safe k ≡ false
IsBelow-above_safe none h = refl
IsBelow-above_safe (some k) h = ground arith

below_safe-IsAbove : (k : Option ℤ) → below_safe k ≡ false → IsAbove k
below_safe-IsAbove none h = tt
below_safe-IsAbove (some (pos k)) h = tt
below_safe-IsAbove (some (negsuc k)) h = ground arith

IsAbove-below_safe : (k : Option ℤ) → IsAbove k → below_safe k ≡ false
IsAbove-below_safe none h = refl
IsAbove-below_safe (some (pos k)) h = refl
IsAbove-below_safe (some (negsuc k)) h = ground arith

neither : (a b : Bool) → not (a || b) ≡ true → (a ≡ false) × (b ≡ false)
neither true b h = absurd (grind arith)
neither false true h = absurd (grind arith)
neither false false h = (refl, refl)

is_safe-IsExact : {N : Type 0} → ⦃c : Codec N⦄ → (n : N) → is_safe n ≡ true → IsExact n
unfolding IsExact
is_safe-IsExact ⦃c⦄ n h =
    let (above, below) = neither (above_safe (c.as_u64 n)) (below_safe (c.as_i64 n)) h in
    (above_safe-IsBelow (c.as_u64 n) above, below_safe-IsAbove (c.as_i64 n) below)

IsExact-is_safe : {N : Type 0} → ⦃c : Codec N⦄ → (n : N) → IsExact n → is_safe n ≡ true
unfolding IsExact
IsExact-is_safe ⦃c⦄ n h =
    rw (IsBelow-above_safe (c.as_u64 n) h.0, IsAbove-below_safe (c.as_i64 n) h.1) refl

mutual
  unfolding validate_numbers validate_values validate_members

  validate_numbers-IsExact :
      {N : Type 0}
      → ⦃c : Codec N⦄ → (v : Value N) → validate_numbers v ≡ ok tt
      → (n : N) → Occurs n v
      → IsExact n
  validate_numbers-IsExact null h n x = elim x [ ]
  validate_numbers-IsExact (boolean b) h n x = elim x [ ]
  validate_numbers-IsExact (string s) h n x = elim x [ ]
  validate_numbers-IsExact (number m) h _ itself =
      is_safe-IsExact m (guard-ok (is_safe m) big_integer h)
  validate_numbers-IsExact (array vs) h n (in_array among) = validate_values-IsExact vs h n among
  validate_numbers-IsExact (object ms) h n (in_object within) =
      validate_members-IsExact ms h n within

  validate_values-IsExact :
      {N : Type 0}
      → ⦃c : Codec N⦄ → (vs : Values N) → validate_values vs ≡ ok tt
      → (n : N) → Among n vs
      → IsExact n
  validate_values-IsExact no_values h n x = elim x [ ]
  validate_values-IsExact (value v vs) h n (first_value occurs) =
      validate_numbers-IsExact v (>>=-ok (validate_numbers v) _ h).1 n occurs
  validate_values-IsExact (value v vs) h n (later_value among) =
      validate_values-IsExact vs (>>=-ok (validate_numbers v) _ h).2 n among

  validate_members-IsExact :
      {N : Type 0}
      → ⦃c : Codec N⦄ → (ms : Members N) → validate_members ms ≡ ok tt
      → (n : N) → Within n ms
      → IsExact n
  validate_members-IsExact no_members h n x = elim x [ ]
  validate_members-IsExact (member k v ms) h n (first_member occurs) =
      validate_numbers-IsExact v (>>=-ok (validate_numbers v) _ h).1 n occurs
  validate_members-IsExact (member k v ms) h n (later_member within) =
      validate_members-IsExact ms (>>=-ok (validate_numbers v) _ h).2 n within

mutual
  unfolding validate_numbers validate_values validate_members

  IsExact-validate_numbers :
      {N : Type 0}
      → ⦃c : Codec N⦄ → (v : Value N) → ((n : N) → Occurs n v → IsExact n)
      → validate_numbers v ≡ ok tt
  IsExact-validate_numbers null h = refl
  IsExact-validate_numbers (boolean b) h = refl
  IsExact-validate_numbers (number n) h = rw (IsExact-is_safe n (h n itself)) refl
  IsExact-validate_numbers (string s) h = refl
  IsExact-validate_numbers (array vs) h =
      IsExact-validate_values vs (λ n among. h n (in_array among))
  IsExact-validate_numbers (object ms) h =
      IsExact-validate_members ms (λ n within. h n (in_object within))

  IsExact-validate_values :
      {N : Type 0}
      → ⦃c : Codec N⦄ → (vs : Values N) → ((n : N) → Among n vs → IsExact n)
      → validate_values vs ≡ ok tt
  IsExact-validate_values no_values h = refl
  IsExact-validate_values (value v vs) h =
      rw (IsExact-validate_numbers v (λ n occurs. h n (first_value occurs)))
        (IsExact-validate_values vs (λ n among. h n (later_value among)))

  IsExact-validate_members :
      {N : Type 0}
      → ⦃c : Codec N⦄ → (ms : Members N) → ((n : N) → Within n ms → IsExact n)
      → validate_members ms ≡ ok tt
  IsExact-validate_members no_members h = refl
  IsExact-validate_members (member k v ms) h =
      rw (IsExact-validate_numbers v (λ n occurs. h n (first_member occurs)))
        (IsExact-validate_members ms (λ n within. h n (later_member within)))

-- A value passes exactly if every number that stands in it, at any depth, is below 2^53 where it is
-- a natural number of 64 bits and above -2^53 where it is an integer of 64 bits.
pub validate_numbers-iff-IsExact :
    {N : Type 0}
    → ⦃c : Codec N⦄ → (v : Value N)
    → (validate_numbers v ≡ ok tt) ↔ ((n : N) → Occurs n v → IsExact n)
validate_numbers-iff-IsExact v = (validate_numbers-IsExact v, IsExact-validate_numbers v)
