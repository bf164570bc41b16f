-- ===== src/Log/Values.antt =====
-- JSON values, as `validate_numbers` and `entry_hash` of ws-core/src/log.rs take them apart, and
-- what those use of serde_json, of its canonicalizer and of the hash.
pub mod Exact
use dotfile.Prelude.{
  ℕ, String, Bool, true, false, Option, none, some, List, Result, ok, err, ok_or, guard, ◌>>=◌,
  ◌>>◌, ltb, leb, not, ◌||◌, ◌≡◌,
}
use dotfile.Entry.{LogEntry}
use dotfile.External.{ℤ, pos, negsuc}

-- `serde_json::Value`; `N` is its `Number`
mutual
  pub data Value (N : Type 0) : Type 0 where
    null : Value N
    boolean : Bool → Value N
    number : N → Value N
    string : String → Value N
    array : Values N → Value N
    object : Members N → Value N

  pub data Values (N : Type 0) : Type 0 where
    no_values : Values N
    value : Value N → Values N → Values N

  pub data Members (N : Type 0) : Type 0 where
    no_members : Members N
    member : String → Value N → Members N → Members N

pub data Fault : Type 0 where
  bad_json wrong_session bad_seq bad_prev_hash epoch_decreased bad_hash : Fault

pub data IoError : Type 0 where
  invalid_data : Fault → IoError
  epoch_older big_integer other failed : IoError

-- What the log takes from outside. `digest` is the hexadecimal SHA-256 of the canonical text.
pub record Codec (N : Type 0) : Type 0 where
  pub as_u64 : N → Option ℕ
  pub as_i64 : N → Option ℤ
  pub from_slice : List ℕ → Option (Value N)
  pub deserialize : Value N → Option (LogEntry (Value N))
  pub to_value : LogEntry (Value N) → Option (Value N)
  pub to_vec : LogEntry (Value N) → Option (List ℕ)
  pub digest : Value N → Option String

-- (1 << 53) - 1
abbrev pub max_safe_integer : ℕ
max_safe_integer = 9007199254740991

abbrev pub above_safe : Option ℕ → Bool
above_safe none = false
above_safe (some n) = ltb max_safe_integer n

-- n < -MAX_SAFE_INTEGER, where `negsuc n` is -(n + 1)
abbrev pub below_safe : Option ℤ → Bool
below_safe none = false
below_safe (some (pos n)) = false
below_safe (some (negsuc n)) = leb max_safe_integer n

abbrev pub is_safe : {N : Type 0} → ⦃c : Codec N⦄ → N → Bool
is_safe ⦃c⦄ n = not (above_safe (c.as_u64 n) || below_safe (c.as_i64 n))

unfoldable mutual
  pub validate_numbers : {N : Type 0} → ⦃c : Codec N⦄ → Value N → Result IoError (Unit {0})
  validate_numbers null = ok tt
  validate_numbers (boolean b) = ok tt
  validate_numbers (number n) = guard (is_safe n) big_integer
  validate_numbers (string s) = ok tt
  validate_numbers (array vs) = validate_values vs
  validate_numbers (object ms) = validate_members ms

  pub validate_values : {N : Type 0} → ⦃c : Codec N⦄ → Values N → Result IoError (Unit {0})
  validate_values no_values = ok tt
  validate_values (value v vs) = validate_numbers v >> validate_values vs

  pub validate_members : {N : Type 0} → ⦃c : Codec N⦄ → Members N → Result IoError (Unit {0})
  validate_members no_members = ok tt
  validate_members (member k v ms) = validate_numbers v >> validate_members ms

module _ {N : Type 0} ⦃c : Codec N⦄ where
  open c use {digest}

  unfoldable pub entry_hash : Value N → Result IoError String
  unfolding validate_numbers
  entry_hash v = do validate_numbers v; ok_or (digest v) other
