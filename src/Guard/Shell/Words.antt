-- ===== src/Guard/Shell/Words.antt =====
-- What `commands` gives: no command without a word, and no word without a character.
use dotfile.Prelude.{
  ℕ, zero, suc, false, List, [], ◌∷◌, ◌++◌, ◌≡◌, All, on_branches, ◌==◌, ◌&&◌, ◌||◌, not, Option,
  none, some, length,
}
use dotfile.Guard.Shell.{
  Chars, Command, is_empty, Scan, scan_start, step, scan, commands, end_word, end_command,
  plain_char, is_whitespace, is_operator, opens_script, opens_comment, is_quote,
}

abbrev pub HasChar : Chars → Type 0
HasChar w = is_empty w ≡ false

-- a command with a word, whose words have characters
abbrev pub IsCommand : Command → Type 0
IsCommand words = (is_empty words ≡ false) × All HasChar words

pub All-append :
    {A : Type 0} (P : A → Type 0) (xs ys : List A) → All P xs → All P ys → All P (xs ++ ys)
All-append P [] ys h k = k
All-append P (x ∷ xs) ys h k = (h.0, All-append P xs ys h.1 k)

record IsCut (s : Scan) : Type 0 where
  result : All IsCommand s.result
  words : All HasChar s.words

end_word-IsCut : (s : Scan) → IsCut s → IsCut (end_word s)
unfolding end_word
end_word-IsCut s v =
    on_branches IsCut (is_empty s.word) (λ _. v)
      (λ full. record {
        result = v.result;
        words = All-append HasChar s.words (s.word ∷ []) v.words (full, tt);
      })

end_command-IsCut : (s : Scan) → IsCut s → IsCut (end_command s)
unfolding end_command
end_command-IsCut s v =
    on_branches IsCut (is_empty s.words) (λ _. v)
      (λ full. record {
        result = All-append IsCommand s.result (s.words ∷ []) v.result ((full, v.words), tt);
        words = tt;
      })

plain_char-IsCut : (quote : Option ℕ) (c : ℕ) (s : Scan) → IsCut s → IsCut (plain_char quote c s)
unfolding plain_char
plain_char-IsCut (some q) c s v =
    on_branches IsCut (c == q) (λ _. record { result = v.result; words = v.words })
      (λ _. record { result = v.result; words = v.words })
plain_char-IsCut none c s v =
    on_branches IsCut (c == 39 || c == b'"') (λ _. record { result = v.result; words = v.words })
      (λ _.
        on_branches IsCut (is_whitespace c || is_operator c)
          (λ _.
            on_branches IsCut (c == 10 || is_operator c)
              (λ _. end_command-IsCut (end_word s) (end_word-IsCut s v)) (λ _. end_word-IsCut s v))
          (λ _. record { result = v.result; words = v.words }))

step-IsCut :
    (nested : Chars → List Command)
    → ((input : Chars) → All IsCommand (nested input))
    → (c : ℕ) (cs : Chars) (s : Scan) → IsCut s
    → IsCut (step nested c cs s).0
unfolding step
step-IsCut nested sub c cs s v =
    on_branches P s.escaped (λ _. record { result = v.result; words = v.words })
      (λ _.
        on_branches P (c == 92 && not (is_quote s.quote 39))
          (λ _. record { result = v.result; words = v.words })
          (λ _.
            on_branches P (opens_script c cs s)
              (λ _. record {
                result = All-append IsCommand s.result _ v.result (sub _);
                words = v.words;
              })
              (λ _.
                on_branches P (opens_comment c s) (λ _. v) (λ _. plain_char-IsCut s.quote c s v))))
  where
    P : Scan × Chars → Type 0
    P r = IsCut r.0

scan-IsCut :
    (nested : Chars → List Command)
    → ((input : Chars) → All IsCommand (nested input))
    → (fuel : ℕ) (cs : Chars) (s : Scan) → IsCut s
    → IsCut (scan nested fuel cs s)
unfolding scan
scan-IsCut nested sub zero cs s v = v
scan-IsCut nested sub (suc fuel) [] s v = v
scan-IsCut nested sub (suc fuel) (c ∷ cs) s v =
    scan-IsCut nested sub fuel (step nested c cs s).1 (step nested c cs s).0
      (step-IsCut nested sub c cs s v)

-- Every command that is cut from any line has a word, and every word has a character.
pub commands-IsCommand : (levels : ℕ) (input : Chars) → All IsCommand (commands levels input)
unfolding commands
commands-IsCommand zero input = tt
commands-IsCommand (suc levels) input =
    (end_command-IsCut _ (
      end_word-IsCut _ (
        scan-IsCut (commands levels) (commands-IsCommand levels) (length input) input scan_start
          (record { result = tt; words = tt })))).result
