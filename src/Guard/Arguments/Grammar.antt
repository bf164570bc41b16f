-- ===== src/Guard/Arguments/Grammar.antt =====
-- The words that `command_start` passes: assignments, and `command`, `exec`, `env` and `sudo` with
-- their options.
use dotfile.Prelude.{
  ℕ, zero, suc, ◌+◌, ◌≤◌, String, true, false, List, [], ◌∷◌, ◌≡◌, ◌≢◌, ◌⊎◌, refl, sym, ◌∙◌, subst,
  inl, inr, Bool-cases, length, drop, arith,
}
use dotfile.Guard.Shell.{Chars, Command, codes}
use dotfile.Guard.Arguments.{
  same, contains, is_one_of, starts_dash, or_empty, file_name, is_wrapper, wrapper_value,
  wrapper_options, start_from, command_start,
}
use dotfile.Guard.Arguments.Start.{drop-next, drop-drop, length-drop-le}
use dotfile.Guard.Arguments.References.{same_refl}

-- a word that is one of some names
abbrev pub Listed : List String → Chars → Type 0
Listed [] w = ⊥
Listed (n ∷ ns) w = (w ≡ codes n) ⊎ Listed ns w

-- the words that run the rest of the line, and their options that take a word
abbrev pub wrappers : List String
wrappers = "command" ∷ "exec" ∷ "env" ∷ "sudo" ∷ []

abbrev pub value_options : List String
value_options = "-u" ∷ "--unset" ∷ "-C" ∷ "--chdir" ∷ "-g" ∷ "--user" ∷ "--group" ∷ []

-- the words that remain after the options of a wrapper
pub data Options : Command → Command → Type 0 where
  all_read : Options [] []
  no_option : {w : Chars} {ws : Command} → starts_dash w ≡ false → Options (w ∷ ws) (w ∷ ws)
  separator : {w : Chars} {ws : Command} → w ≡ codes "--" → Options (w ∷ ws) ws
  with_value :
      {o v : Chars} {ws rest : Command}
      → Listed value_options o
      → Options ws rest
      → Options (o ∷ v ∷ ws) rest
  value_missing : {o : Chars} → Listed value_options o → Options (o ∷ []) []
  alone :
      {o : Chars} {ws rest : Command}
      → starts_dash o ≡ true
      → ¬ Listed value_options o
      → o ≢ codes "--"
      → Options ws rest
      → Options (o ∷ ws) rest

-- the words of a command from its program on
pub data Starts : Command → Command → Type 0 where
  no_program : Starts [] []
  program :
      {w : Chars} {ws : Command}
      → contains b'=' w ≡ false
      → ¬ Listed wrappers (or_empty (file_name w))
      → Starts (w ∷ ws) (w ∷ ws)
  assignment :
      {w : Chars} {ws rest : Command}
      → contains b'=' w ≡ true
      → Starts ws rest
      → Starts (w ∷ ws) rest
  wrapper :
      {w : Chars} {ws after rest : Command}
      → contains b'=' w ≡ false
      → Listed wrappers (or_empty (file_name w))
      → Options ws after
      → Starts after rest
      → Starts (w ∷ ws) rest

same_eq : (v w : Chars) → same v w ≡ true → v ≡ w
same_eq [] [] h = refl
same_eq [] (d ∷ ds) h = absurd (grind arith)
same_eq (c ∷ cs) [] h = absurd (grind arith)
same_eq (c ∷ cs) (d ∷ ds) h =
    let first : c ≡ d = ground arith in let rest : cs ≡ ds = same_eq cs ds (ground arith) in cc

is_one_of-Listed : (names : List String) (w : Chars) → is_one_of names w ≡ true → Listed names w
is_one_of-Listed [] w h = absurd (grind arith)
is_one_of-Listed (n ∷ ns) w h = elim (Bool-cases (same (codes n) w)) [
  | inl this ↦ inl (sym (same_eq (codes n) w this))
  | inr other ↦ inr (is_one_of-Listed ns w (ground arith))
]

Listed-is_one_of : (names : List String) (w : Chars) → Listed names w → is_one_of names w ≡ true
Listed-is_one_of [] w listed = absurd listed
Listed-is_one_of (n ∷ ns) w (inl this) =
    let equal : same (codes n) w ≡ true =
      subst (λ v. same (codes n) v ≡ true) (sym this) (same_refl (codes n)) in
    rw equal refl
Listed-is_one_of (n ∷ ns) w (inr later) = let rest = Listed-is_one_of ns w later in ground arith

not-Listed : (names : List String) (w : Chars) → is_one_of names w ≡ false → ¬ Listed names w
not-Listed names w h = λ listed. let found = Listed-is_one_of names w listed in absurd (grind arith)

not_separator : (w : Chars) → same w (codes "--") ≡ false → w ≢ codes "--"
not_separator w h = λ e.
    let equal : same w (codes "--") ≡ true = subst (λ v. same v (codes "--") ≡ true) (sym e) refl in
    absurd (grind arith)

drop_one : (n : ℕ) (w : Chars) (ws : Command) → drop (1 + n) (w ∷ ws) ≡ drop n ws
drop_one n w ws = drop-next (1 + n) n w ws refl

drop_two : (n : ℕ) (o v : Chars) (os : Command) → drop (2 + n) (o ∷ v ∷ os) ≡ drop n os
drop_two n o v os = drop-next (2 + n) (1 + n) o (v ∷ os) (omega arith) ∙ drop_one n v os

wrapper_options-Options : (ws : Command) → Options ws (drop (wrapper_options ws) ws)
unfolding wrapper_options wrapper_value
wrapper_options-Options [] = all_read
wrapper_options-Options (o ∷ []) = elim (Bool-cases (starts_dash o)) [
  | inr word ↦ rw word (no_option word)
  | inl dash ↦ elim (Bool-cases (wrapper_value o)) [
    | inl valued ↦ rw (dash, valued) (value_missing (is_one_of-Listed value_options o valued))
    | inr other ↦ elim (Bool-cases (same o (codes "--"))) [
      | inl ends ↦ rw (dash, other) (separator (same_eq o (codes "--") ends))
      | inr option ↦
          rw (dash, other)
            (alone dash (not-Listed value_options o other) (not_separator o option) all_read)
    ]
  ]
]
wrapper_options-Options (o ∷ v ∷ os) = elim (Bool-cases (starts_dash o)) [
  | inr word ↦ rw word (no_option word)
  | inl dash ↦ elim (Bool-cases (wrapper_value o)) [
    | inl valued ↦
        rw (dash, valued)
          (subst (Options (o ∷ v ∷ os)) (sym (drop_two (wrapper_options os) o v os))
            (with_value (is_one_of-Listed value_options o valued) (wrapper_options-Options os)))
    | inr other ↦ elim (Bool-cases (same o (codes "--"))) [
      | inl ends ↦ rw (dash, other, ends) (separator (same_eq o (codes "--") ends))
      | inr option ↦
          rw (dash, other, option)
            (subst (Options (o ∷ v ∷ os)) (sym (drop_one (wrapper_options (v ∷ os)) o (v ∷ os))) (
              alone dash (not-Listed value_options o other) (not_separator o option)
                (wrapper_options-Options (v ∷ os))))
    ]
  ]
]

start_from-Starts :
    (fuel index : ℕ) (words : Command)
    → length words ≤ fuel
    → (k : ℕ) × (start_from fuel index words ≡ index + k) × Starts words (drop k words)
unfolding start_from is_wrapper
start_from-Starts zero index [] h = (0, omega arith, no_program)
start_from-Starts zero index (w ∷ ws) h = absurd (omega arith)
start_from-Starts (suc fuel) index [] h = (0, omega arith, no_program)
start_from-Starts (suc fuel) index (w ∷ ws) h = elim (Bool-cases (contains b'=' w)) [
  | inl assigns ↦
      let (k, found, at) = start_from-Starts fuel (index + 1) ws (omega arith) in
      (suc k, rw assigns (omega (arith, found)), assignment assigns at)
  | inr plain ↦ elim (Bool-cases (is_wrapper w)) [
    | inr other ↦ (
      0,
      rw (plain, other) (omega arith),
      program plain (not-Listed wrappers (or_empty (file_name w)) other),
    )
    | inl wraps ↦
        let n : ℕ = wrapper_options ws in
        let (k, found, at) =
          start_from-Starts fuel (index + 1 + n) (drop n ws) (omega (arith, length-drop-le n ws)) in
        (
          suc (n + k),
          rw (plain, wraps) (omega (arith, found)),
          wrapper plain (is_one_of-Listed wrappers (or_empty (file_name w)) wraps)
              (wrapper_options-Options ws) (subst (Starts (drop n ws)) (sym (drop-drop n k ws)) at),
        )
  ]
]

-- What `command_start` leaves of the words of a command is its program and its arguments: it
-- passes an assignment, and a `command`, `exec`, `env` or `sudo` with the options after it, of
-- which -u, --unset, -C, --chdir, -g, --user and --group take the next word and `--` is the last,
-- and nothing else.
pub command_start-Starts : (words : Command) → Starts words (drop (command_start words) words)
unfolding command_start
command_start-Starts words =
    let (k, found, at) = start_from-Starts (length words) 0 words (omega arith) in
    subst (λ n. Starts words (drop n words)) (omega (arith, found)) at
