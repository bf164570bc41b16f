-- ===== src/Guard/Shell.antt =====
-- `commands` and `substitution` of guard.rs: a shell line is cut into commands, and those into
-- words. A text is the list of its characters, as code points.
pub mod Scanned
pub mod Words
pub mod Quoted
pub use dotfile.Prelude.{Chars, codes}
use dotfile.Prelude.{
  ℕ, zero, suc, ◌+◌, ◌-◌, String, Bool, true, false, not, Option, none, some, List, [], ◌∷◌, ◌++◌,
  ◌&&◌, ◌||◌, leb, length, if◌then◌else◌, ◌==◌,
}

-- `quote == Some(c)`
abbrev pub is_quote : Option ℕ → ℕ → Bool
is_quote none c = false
is_quote (some q) c = q == c

abbrev pub is_none : Option ℕ → Bool
is_none none = true
is_none (some _) = false

abbrev pub is_empty : {A : Type 0} → List A → Bool
is_empty [] = true
is_empty (_ ∷ _) = false

-- `char::is_whitespace`
unfoldable pub is_whitespace : ℕ → Bool
is_whitespace c =
    (leb 9 c && leb c 13)
    || c == 32
    || c == 133
    || c == 160
    || c == 5760
    || (leb 8192 c && leb c 8202)
    || c == 8232
    || c == 8233
    || c == 8239
    || c == 8287
    || c == 12288

-- ; | & ( )
unfoldable pub is_operator : ℕ → Bool
is_operator c = c == b';' || c == b'|' || c == b'&' || c == b'(' || c == b')'

-- what the loop of `substitution` carries
pub record Nested : Type 0 where
  pub script : Chars
  pub nesting : ℕ
  pub quote : Option ℕ
  pub escaped : Bool

abbrev pub push_script : ℕ → Nested → Nested
push_script c s = record s { script = s.script ++ c ∷ [] }

-- a round of the loop for a character that ends nothing
unfoldable pub nested_step : Bool → ℕ → Nested → Nested
nested_step backtick c s =
    if s.escaped
    then push_script c (record s { escaped = false })
    else if c == 92
    then push_script c (record s { escaped = true })
    else elim s.quote [
      | some q ↦ push_script c (if c == q then record s { quote = none } else s)
      | none ↦ push_script c (
          if c == 39 || c == b'"'
          then record s { quote = some c }
          else if not backtick && c == b'('
          then record s { nesting = s.nesting + 1 }
          else if not backtick && c == b')'
          then record s { nesting = s.nesting - 1 }
          else s)
    ]

-- the characters that end the script: a backtick, or the bracket that closes the first
unfoldable pub nested_end : Bool → ℕ → Nested → Bool
nested_end backtick c s =
    not s.escaped
    && not (c == 92)
    && ((backtick && c == b'`') || (not backtick && is_none s.quote && c == b')' && s.nesting == 1))

-- the script, and the characters after it
unfoldable pub substitution : Bool → Nested → Chars → Chars × Chars
unfolding nested_step nested_end
substitution backtick s [] = (s.script, [])
substitution backtick s (c ∷ cs) =
    let rest = substitution backtick (nested_step backtick c s) cs in
    if nested_end backtick c s then (s.script, cs) else rest

abbrev pub nested_start : Nested
nested_start = record { script = []; nesting = 1; quote = none; escaped = false }

-- a comment ends before the newline
unfoldable pub skip_comment : Chars → Chars
skip_comment [] = []
skip_comment (c ∷ cs) = if c == 10 then c ∷ cs else skip_comment cs

abbrev pub Command : Type 0
Command = List Chars

-- what the loop of `commands` carries
pub record Scan : Type 0 where
  pub result : List Command
  pub words : Command
  pub word : Chars
  pub quote : Option ℕ
  pub escaped : Bool

abbrev pub scan_start : Scan
scan_start = record { result = []; words = []; word = []; quote = none; escaped = false }

abbrev pub push_char : ℕ → Scan → Scan
push_char c s = record s { word = s.word ++ c ∷ [] }

-- `if !word.is_empty() { words.push(take(&mut word)) }`
unfoldable pub end_word : Scan → Scan
end_word s = if is_empty s.word then s else record s { words = s.words ++ s.word ∷ []; word = [] }

-- `if !words.is_empty() { result.push(take(&mut words)) }`
unfoldable pub end_command : Scan → Scan
end_command s =
    if is_empty s.words then s else record s { result = s.result ++ s.words ∷ []; words = [] }

abbrev pub starts_dollar : ℕ → Chars → Bool
starts_dollar c [] = false
starts_dollar c (d ∷ _) = c == b'$' && d == b'('

-- after `$` the bracket is taken too
abbrev pub after_opening : ℕ → Chars → Chars
after_opening c [] = []
after_opening c (d ∷ cs) = if c == b'$' then cs else d ∷ cs

-- a round of the loop outside a substitution and a comment, by the open quote
unfoldable pub plain_char : Option ℕ → ℕ → Scan → Scan
unfolding is_whitespace is_operator end_word end_command
plain_char (some q) c s = if c == q then record s { quote = none } else push_char c s
plain_char none c s =
    if c == 39 || c == b'"'
    then record s { quote = some c }
    else if is_whitespace c || is_operator c
    then (if c == 10 || is_operator c then end_command (end_word s) else end_word s)
    else push_char c s

abbrev pub opens_script : ℕ → Chars → Scan → Bool
opens_script c cs s = not (is_quote s.quote 39) && (c == b'`' || starts_dollar c cs)

abbrev pub opens_comment : ℕ → Scan → Bool
opens_comment c s = is_none s.quote && c == b'#' && is_empty s.word

-- a round of the loop: the new state, and the characters left. `nested` is `commands` one deeper.
unfoldable pub step : (Chars → List Command) → ℕ → Chars → Scan → Scan × Chars
unfolding substitution skip_comment plain_char
step nested c cs s =
    if s.escaped
    then (push_char c (record s { escaped = false }), cs)
    else if c == 92 && not (is_quote s.quote 39)
    then (record s { escaped = true }, cs)
    else if opens_script c cs s
    then (let (script, rest) = substitution (c == b'`') nested_start (after_opening c cs) in
        (record s { result = s.result ++ nested script }, rest))
    else if opens_comment c s
    then (s, skip_comment cs)
    else (plain_char s.quote c s, cs)

-- the loop, for as many rounds as `fuel`
unfoldable pub scan : (Chars → List Command) → ℕ → Chars → Scan → Scan
unfolding step
scan nested zero cs s = s
scan nested (suc fuel) [] s = s
scan nested (suc fuel) (c ∷ cs) s = let (s', rest) = step nested c cs s in scan nested fuel rest s'

-- `commands` where `levels` is 9 - depth; the fuel is the number of characters
unfoldable pub commands : ℕ → Chars → List Command
unfolding scan end_word end_command
commands zero input = []
commands (suc levels) input =
    (end_command (end_word (scan (commands levels) (length input) input scan_start))).result
