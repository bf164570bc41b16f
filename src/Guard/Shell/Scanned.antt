-- ===== src/Guard/Shell/Scanned.antt =====
-- The loops of `commands` end: each round takes a character, and no round puts one back.
use dotfile.Prelude.{
  ℕ, zero, suc, ◌≤◌, Bool, List, [], ◌∷◌, ◌≡◌, refl, inl, inr, Bool-cases, length, arith,
  on_branches, ◌&&◌, not, ◌==◌,
}
use dotfile.Guard.Shell.{
  Chars, Command, Nested, nested_start, nested_step, nested_end, substitution, skip_comment,
  after_opening, Scan, scan_start, step, scan, commands, end_word, end_command, opens_script,
  opens_comment, is_quote,
}

length-after_opening : (c : ℕ) (cs : Chars) → length (after_opening c cs) ≤ length cs
length-after_opening c [] = omega arith
length-after_opening c (d ∷ cs) = ground arith

length-skip_comment : (cs : Chars) → length (skip_comment cs) ≤ length cs
unfolding skip_comment
length-skip_comment [] = omega arith
length-skip_comment (c ∷ cs) = ground (arith, length-skip_comment cs)

length-substitution :
    (backtick : Bool) (s : Nested) (cs : Chars) → length (substitution backtick s cs).1 ≤ length cs
unfolding substitution
length-substitution backtick s [] = omega arith
length-substitution backtick s (c ∷ cs) = elim (Bool-cases (nested_end backtick c s)) [
  | inl done ↦ rw done (omega arith)
  | inr more ↦ rw more (omega (arith, length-substitution backtick (nested_step backtick c s) cs))
]

length-step :
    (nested : Chars → List Command) (c : ℕ) (cs : Chars) (s : Scan)
    → length (step nested c cs s).1 ≤ length cs
unfolding step
length-step nested c cs s =
    on_branches P s.escaped (λ _. omega arith)
      (λ _.
        on_branches P (c == 92 && not (is_quote s.quote 39)) (λ _. omega arith)
          (λ _.
            on_branches P (opens_script c cs s)
              (λ _. omega (
                arith,
                length-substitution (c == b'`') nested_start (after_opening c cs),
                length-after_opening c cs,
              ))
              (λ _.
                on_branches P (opens_comment c s) (λ _. omega (arith, length-skip_comment cs))
                  (λ _. omega arith))))
  where
    P : Scan × Chars → Type 0
    P r = length r.1 ≤ length cs

-- the rounds of the loop from some characters and a state to the state in which it ends
data Scanned (nested : Chars → List Command) : Chars → Scan → Scan → Type 0 where
  ended : {s : Scan} → Scanned nested [] s s
  round :
      {c : ℕ} {cs rest : Chars} {s s' t : Scan}
      → step nested c cs s ≡ (s', rest)
      → Scanned nested rest s' t
      → Scanned nested (c ∷ cs) s t

scan-Scanned :
    (nested : Chars → List Command) (fuel : ℕ) (cs : Chars) (s : Scan)
    → length cs ≤ fuel
    → Scanned nested cs s (scan nested fuel cs s)
unfolding scan
scan-Scanned nested zero [] s h = ended
scan-Scanned nested zero (c ∷ cs) s h = absurd (omega arith)
scan-Scanned nested (suc fuel) [] s h = ended
scan-Scanned nested (suc fuel) (c ∷ cs) s h = round refl (
    scan-Scanned nested fuel (step nested c cs s).1 (step nested c cs s).0
      (omega (arith, length-step nested c cs s)))

-- At every depth below nine the loop over a line's characters runs to its end, whatever
-- substitutions and comments it skips, and the commands are those of the state that it ends in.
commands-Scanned :
    (levels : ℕ) (input : Chars)
    → (t : Scan) × Scanned (commands levels) input scan_start t
      × (commands (suc levels) input ≡ (end_command (end_word t)).result)
unfolding commands
commands-Scanned levels input = (
  scan (commands levels) (length input) input scan_start,
  scan-Scanned (commands levels) (length input) input scan_start (omega arith),
  refl,
)
