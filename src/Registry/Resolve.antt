-- ===== src/Registry/Resolve.antt =====
-- How a text names a session (wsd/crates/ws-core/src/registry/mod.rs, `resolve` and
-- `select_session`), and `get_record` of ws-daemon/src/sessions.rs. A text is compared by its code
-- points.
pub mod Names
use dotfile.Prelude.{
  ℕ, zero, suc, ◌+◌, ◌-◌, ◌*◌, String, Bool, true, false, not, Option, none, some, List, [], ◌∷◌,
  Result, ok, err, ok_or, ◌>>=◌, ◌&&◌, ◌||◌, leb, all, any, find, select, length, map, Chars, codes,
  same, starts_with, if◌then◌else◌, ◌==◌,
}
use dotfile.External.{UlidText, External}
use dotfile.Registry.Schema.{SessionRow, AliasRow, Tables, Error, not_found, ambiguous}
use dotfile.Registry.Fields.{i64_max}

-- `select_session`: the ids that a query selects
unfoldable pub select_session : String → List ℕ → Result Error (Option ℕ)
select_session input [] = ok none
select_session input (id ∷ []) = ok (some id)
select_session input (id ∷ other ∷ rest) = err (ambiguous input)

-- `byte.is_ascii_digit()`, and the number that digits write
abbrev pub is_digit : ℕ → Bool
is_digit c = leb b'0' c && leb c b'9'

unfoldable pub number_from : ℕ → Chars → ℕ
number_from n [] = n
number_from n (c ∷ cs) = number_from (10 * n + (c - b'0')) cs

-- the alias after `#`, if it is a number of 64 bits
unfoldable pub alias_number : Chars → Option ℕ
unfolding number_from
alias_number [] = none
alias_number (c ∷ cs) =
    if all is_digit (c ∷ cs) && leb (number_from 0 (c ∷ cs)) i64_max
    then some (number_from 0 (c ∷ cs))
    else none

abbrev pub upper_char : ℕ → ℕ
upper_char c = if leb b'a' c && leb c b'z' then c - 32 else c

-- `to_ascii_uppercase`
abbrev pub uppercase : Chars → Chars
uppercase = map upper_char

abbrev pub is_crockford : ℕ → Bool
is_crockford c = any (λ d. d == c) (codes "0123456789ABCDEFGHJKMNPQRSTVWXYZ")

abbrev pub is_prefix_text : Chars → Bool
is_prefix_text [] = false
is_prefix_text (c ∷ cs) = leb (length (c ∷ cs)) 26 && all is_crockford (c ∷ cs)

abbrev pub text_matches : Chars → Option String → Bool
text_matches input none = false
text_matches input (some name) = same (codes name) input

-- the first answer of two
unfoldable pub or_find : Result Error (Option ℕ) → Result Error (Option ℕ) → Result Error (Option ℕ)
or_find (err reason) later = err reason
or_find (ok none) later = later
or_find (ok (some id)) later = ok (some id)

module _ {V : Type 0} where
  -- `SELECT session_id FROM aliases WHERE alias = ?1`
  unfoldable pub by_alias : Tables V → String → Option ℕ → Result Error (Option ℕ)
  unfolding select_session
  by_alias t input none = ok none
  by_alias t input (some alias) =
      select_session input (
        map (λ (r : AliasRow). r.session_id)
          (select (λ (r : AliasRow). r.alias == alias) t.aliases))

  -- `SELECT id FROM sessions WHERE …`
  unfoldable pub by_session : Tables V → String → (SessionRow V → Bool) → Result Error (Option ℕ)
  unfolding select_session
  by_session t input test = select_session input (map (λ r. r.id) (select test t.sessions))

  -- `FROM sessions s JOIN aliases a ON a.session_id = s.id WHERE s.id = ?1`
  abbrev pub is_listed : Tables V → ℕ → SessionRow V → Bool
  is_listed t id r = r.id == id && any (λ (a : AliasRow). a.session_id == r.id) t.aliases

  module _ ⦃u : UlidText⦄ where
    open u use {show_ulid}

    abbrev pub is_id : Chars → SessionRow V → Bool
    is_id upper r = same (codes (show_ulid r.id)) upper

    abbrev pub is_named : Chars → SessionRow V → Bool
    is_named input r = text_matches input r.name

    unfoldable pub by_prefix : Tables V → String → Chars → Result Error (Option ℕ)
    unfolding by_session
    by_prefix t input upper =
        if is_prefix_text upper
        then by_session t input (λ r. starts_with upper (codes (show_ulid r.id)))
        else ok none

    unfoldable pub text_or_prefix : Tables V → String → Chars → Result Error (Option ℕ)
    unfolding by_session by_prefix or_find
    text_or_prefix t input cs =
        or_find (by_session t input (is_named cs)) (by_prefix t input (uppercase cs))

    -- an exact id, an exact name, or a prefix of an id
    unfoldable pub by_text : Tables V → String → Chars → Result Error (Option ℕ)
    unfolding by_session text_or_prefix or_find
    by_text t input cs =
        or_find (by_session t input (is_id (uppercase cs))) (text_or_prefix t input cs)

    unfoldable pub find_session : Tables V → String → Chars → Result Error (Option ℕ)
    unfolding by_alias alias_number by_text
    find_session t input [] = by_text t input []
    find_session t input (c ∷ cs) =
        if c == b'#' then by_alias t input (alias_number cs) else by_text t input (c ∷ cs)

    unfoldable pub resolve : Tables V → String → Result Error ℕ
    unfolding find_session
    resolve t input = do id ← find_session t input (codes input); ok_or id (not_found input)

    -- `get_record`: the row of the session
    unfoldable pub get_record : Tables V → String → Result Error (SessionRow V)
    unfolding resolve
    get_record t input = do
      id ← resolve t input
      ok_or (find (is_listed t id) t.sessions) (not_found input)
