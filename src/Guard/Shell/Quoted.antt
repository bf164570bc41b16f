-- ===== src/Guard/Shell/Quoted.antt =====
-- Quoted words are read back as they are.
use mathlib.Core.List.{append_assoc, append-nil}
use dotfile.Prelude.{
  ℕ, suc, Bool, true, false, List, [], ◌∷◌, ◌++◌, ◌≡◌, ◌≢◌, refl, sym, ap, ◌∙◌, All, length, arith,
  none, some, ◌==◌, ◌&&◌,
}
use dotfile.Guard.Shell.{
  Chars, Command, Scan, step, scan, commands, end_word, end_command, plain_char,
}
use dotfile.Guard.Shell.Words.{HasChar}

-- a word in single quotes
abbrev pub quoted : Chars → Chars
quoted w = 39 ∷ (w ++ 39 ∷ [])

-- words in single quotes with a space before each
abbrev pub render : Command → Chars
render [] = []
render (w ∷ ws) = 32 ∷ 39 ∷ (w ++ 39 ∷ render ws)

-- a word with characters, none of which is a single quote
abbrev pub Quotable : Chars → Type 0
Quotable w = HasChar w × All (λ c. c ≢ 39) w

==_false : (a b : ℕ) → a ≢ b → (a == b) ≡ false
==_false a b h = ground arith

&&-false : (b : Bool) → (b && false) ≡ false
&&-false false = refl
&&-false true = refl

module _ (nested : Chars → List Command) where
  abbrev state : Command → Chars → Scan
  state words word = record {
    result = [];
    words = words;
    word = word;
    quote = none;
    escaped = false;
  }

  abbrev inside : Command → Chars → Scan
  inside words word = record (state words word) { quote = some 39 }

  -- one character inside the quotes
  step-inside :
      (c : ℕ) (cs : Chars) (words : Command) (word : Chars)
      → c ≢ 39
      → step nested c cs (inside words word) ≡ (inside words (word ++ c ∷ []), cs)
  unfolding step plain_char
  step-inside c cs words word h = rw (==_false c 39 h, &&-false (c == 92)) refl

  step-close :
      (cs : Chars) (words : Command) (word : Chars)
      → step nested 39 cs (inside words word) ≡ (state words word, cs)
  unfolding step plain_char
  step-close cs words word = refl

  step-open :
      (cs : Chars) (words : Command) (word : Chars)
      → step nested 39 cs (state words word) ≡ (inside words word, cs)
  unfolding step plain_char
  step-open [] words word = refl
  step-open (d ∷ cs) words word = refl

  step-space :
      (cs : Chars) (words : Command) (word : Chars)
      → step nested 32 cs (state words word) ≡ (end_word (state words word), cs)
  unfolding step plain_char
  step-space [] words word = refl
  step-space (d ∷ cs) words word = refl

  scan-inside :
      (w cs : Chars) (words : Command) (word : Chars)
      → All (λ c. c ≢ 39) w
      → scan nested (length (w ++ 39 ∷ cs)) (w ++ 39 ∷ cs) (inside words word)
        ≡ scan nested (length cs) cs (state words (word ++ w))
  unfolding scan
  scan-inside [] cs words word h =
      ap (λ x. scan nested (length cs) cs (state words x)) (sym (append-nil word))
  scan-inside (c ∷ w) cs words word h =
      ap (λ r. scan nested (length (w ++ 39 ∷ cs)) r.1 r.0)
        (step-inside c (w ++ 39 ∷ cs) words word h.0)
      ∙ scan-inside w cs words (word ++ c ∷ []) h.1
      ∙ ap (λ x. scan nested (length cs) cs (state words x)) (append_assoc word (c ∷ []) w)

  ended_words : Command → Chars → Command
  ended_words words word = (end_word (state words word)).words

  end_word-state :
      (words : Command) (word : Chars)
      → end_word (state words word) ≡ state (ended_words words word) []
  unfolding end_word ended_words
  end_word-state words [] = refl
  end_word-state words (c ∷ w) = refl

  ended_words-HasChar :
      (words : Command) (word : Chars) → HasChar word → ended_words words word ≡ words ++ word ∷ []
  unfolding end_word ended_words
  ended_words-HasChar words word h = rw h refl

  -- a space and a quoted word
  scan-quoted :
      (w rest : Chars) (words : Command) (word : Chars)
      → All (λ c. c ≢ 39) w
      → scan nested
          (length (32 ∷ 39 ∷ (w ++ 39 ∷ rest)))
          (32 ∷ 39 ∷ (w ++ 39 ∷ rest))
          (state words word)
        ≡ scan nested (length rest) rest (state (ended_words words word) w)
  unfolding scan
  scan-quoted w rest words word h =
      ap (λ r. scan nested (suc (length (w ++ 39 ∷ rest))) r.1 r.0)
        (step-space (39 ∷ (w ++ 39 ∷ rest)) words word)
      ∙ ap (λ x. scan nested (suc (length (w ++ 39 ∷ rest))) (39 ∷ (w ++ 39 ∷ rest)) x)
          (end_word-state words word)
      ∙ ap (λ r. scan nested (length (w ++ 39 ∷ rest)) r.1 r.0)
          (step-open (w ++ 39 ∷ rest) (ended_words words word) [])
      ∙ scan-inside w rest (ended_words words word) [] h

  scan-render :
      (ws : Command) (words : Command) (word : Chars)
      → All Quotable ws
      → end_word (scan nested (length (render ws)) (render ws) (state words word))
        ≡ state (ended_words words word ++ ws) []
  unfolding scan
  scan-render [] words word h =
      end_word-state words word ∙ ap (λ x. state x []) (sym (append-nil (ended_words words word)))
  scan-render (w ∷ ws) words word h =
      ap end_word (scan-quoted w (render ws) words word h.0.1)
      ∙ scan-render ws (ended_words words word) w h.1
      ∙ ap (λ x. state (x ++ ws) []) (ended_words-HasChar (ended_words words word) w h.0.0)
      ∙ ap (λ x. state x []) (append_assoc (ended_words words word) (w ∷ []) ws)

-- Words in single quotes with a space before each are one command of just those words, whatever
-- characters but single quotes they hold: no quoted text is run.
pub commands-render :
    (levels : ℕ) (w : Chars) (ws : Command)
    → All Quotable (w ∷ ws)
    → commands (suc levels) (render (w ∷ ws)) ≡ (w ∷ ws) ∷ []
unfolding commands ended_words
commands-render levels w ws h =
    ap (λ s. (end_command s).result) (scan-render (commands levels) (w ∷ ws) [] [] h)
