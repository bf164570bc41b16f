-- ===== src/Guard/Arguments/Start.antt =====
-- Where `command_start` finds the program of a command.
use dotfile.Prelude.{
  ℕ, zero, suc, ◌+◌, ◌≤◌, true, false, List, [], ◌∷◌, ◌≡◌, refl, sym, ap, ◌∙◌, inl, inr, Bool-cases,
  length, drop, arith,
}
use dotfile.Guard.Shell.{Chars, Command}
use dotfile.Guard.Arguments.{contains, is_wrapper, wrapper_options, start_from, command_start}

pub drop-nil : {A : Type 0} (n : ℕ) → drop {A = A} n [] ≡ []
drop-nil zero = refl
drop-nil (suc n) = refl

pub drop-next :
    {A : Type 0} (n m : ℕ) (x : A) (xs : List A) → n ≡ 1 + m → drop n (x ∷ xs) ≡ drop m xs
drop-next n m x xs h = let e : n ≡ suc m = omega (arith, h) in ap (λ k. drop k (x ∷ xs)) e

pub drop-drop : {A : Type 0} (n k : ℕ) (xs : List A) → drop (n + k) xs ≡ drop k (drop n xs)
drop-drop zero k xs = let e : zero + k ≡ k = omega arith in ap (λ m. drop m xs) e
drop-drop (suc n) k [] = drop-nil (suc n + k) ∙ sym (drop-nil k)
drop-drop (suc n) k (x ∷ xs) = drop-next (suc n + k) (n + k) x xs (omega arith) ∙ drop-drop n k xs

pub length-drop-le : {A : Type 0} (n : ℕ) (xs : List A) → length (drop n xs) ≤ length xs
length-drop-le zero xs = omega arith
length-drop-le (suc n) [] = omega arith
length-drop-le (suc n) (x ∷ xs) = omega (arith, length-drop-le n xs)

-- no word is left, or the next is neither an assignment nor a wrapper
abbrev pub AtProgram : Command → Type 0
AtProgram [] = Unit
AtProgram (w ∷ ws) = (contains b'=' w ≡ false) × (is_wrapper w ≡ false)

start_from-shift :
    (fuel index : ℕ) (words : Command)
    → start_from fuel index words ≡ index + start_from fuel 0 words
unfolding start_from
start_from-shift zero index words = omega arith
start_from-shift (suc fuel) index [] = omega arith
start_from-shift (suc fuel) index (w ∷ ws) = elim (Bool-cases (contains b'=' w)) [
  | inl assigns ↦
      rw assigns
        (omega (arith, start_from-shift fuel (index + 1) ws, start_from-shift fuel (0 + 1) ws))
  | inr plain ↦ elim (Bool-cases (is_wrapper w)) [
    | inr program ↦ rw (plain, program) (omega arith)
    | inl wraps ↦
        let n : ℕ = wrapper_options ws in
        rw (plain, wraps)
          (omega (
            arith,
            start_from-shift fuel (index + 1 + n) (drop n ws),
            start_from-shift fuel (0 + 1 + n) (drop n ws),
          ))
  ]
]

-- the words after leading assignments and wrappers without options
pub data Leads : Command → Command → Type 0 where
  lead_end : {ws : Command} → Leads ws ws
  lead_assignment :
      {a : Chars} {ws vs : Command} → contains b'=' a ≡ true → Leads ws vs → Leads (a ∷ ws) vs
  lead_wrapper :
      {w : Chars} {ws vs : Command}
      → contains b'=' w ≡ false
      → is_wrapper w ≡ true
      → wrapper_options ws ≡ 0
      → Leads ws vs
      → Leads (w ∷ ws) vs

start_from-assignment :
    (a : Chars) (ws : Command)
    → contains b'=' a ≡ true
    → start_from (length (a ∷ ws)) 0 (a ∷ ws) ≡ 1 + start_from (length ws) 0 ws
unfolding start_from
start_from-assignment a ws h = rw h (omega (arith, start_from-shift (length ws) (0 + 1) ws))

start_from-wrapper :
    (w : Chars) (ws : Command)
    → contains b'=' w ≡ false
    → is_wrapper w ≡ true
    → wrapper_options ws ≡ 0
    → start_from (length (w ∷ ws)) 0 (w ∷ ws) ≡ 1 + start_from (length ws) 0 ws
unfolding start_from
start_from-wrapper w ws plain wraps bare =
    rw (plain, wraps, bare) (omega (arith, start_from-shift (length ws) (0 + 1 + 0) ws))

start_from-program : (ws : Command) → AtProgram ws → start_from (length ws) 0 ws ≡ 0
unfolding start_from
start_from-program [] at = refl
start_from-program (w ∷ ws) at = rw (at.0, at.1) refl

start_from-Leads :
    {ws vs : Command} → Leads ws vs → AtProgram vs → drop (start_from (length ws) 0 ws) ws ≡ vs
start_from-Leads {vs = vs} lead_end at = ap (λ n. drop n vs) (start_from-program vs at)
start_from-Leads (lead_assignment {a} {ws} assigns l) at =
    drop-next _ _ a ws (start_from-assignment a ws assigns) ∙ start_from-Leads l at
start_from-Leads (lead_wrapper {w} {ws} plain wraps bare l) at =
    drop-next _ _ w ws (start_from-wrapper w ws plain wraps bare) ∙ start_from-Leads l at

pub command_start-Leads :
    {ws vs : Command} → Leads ws vs → AtProgram vs → drop (command_start ws) ws ≡ vs
unfolding command_start
command_start-Leads l at = start_from-Leads l at
