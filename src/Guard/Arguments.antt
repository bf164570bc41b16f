-- ===== src/Guard/Arguments.antt =====
-- The words of one command in guard.rs: `command_start`, `subcommand` and the reference of a push.
-- A command line is a list of words, and an index into it is the list from there on.
pub mod Start
pub mod Grammar
pub mod References
use mathlib.Core.List.{reverse}
pub use dotfile.Prelude.{same, starts_with}
use dotfile.Prelude.{
  ℕ, zero, suc, ◌+◌, String, Bool, true, false, not, Option, none, some, List, [], ◌∷◌, ◌++◌, ◌&&◌,
  ◌||◌, any, all, select, drop, length, if◌then◌else◌, ◌==◌,
}
use dotfile.Guard.Shell.{Chars, Command, codes, is_empty}

abbrev pub contains : ℕ → Chars → Bool
contains c = any (λ d. d == c)

abbrev pub is_one_of : List String → Chars → Bool
is_one_of names w = any (λ n. same (codes n) w) names

abbrev pub starts_dash : Chars → Bool
starts_dash = starts_with (codes "-")

-- the first part of `split(c)`, and the others
unfoldable pub split : ℕ → Chars → List Chars
split c [] = [] ∷ []
split c (d ∷ ds) =
    let rest = split c ds in
    if d == c
    then [] ∷ rest
    else elim rest [ [] ↦ (d ∷ []) ∷ [] | part ∷ parts ↦ (d ∷ part) ∷ parts ]

abbrev pub last : List Chars → Option Chars
last [] = none
last (x ∷ []) = some x
last (x ∷ y ∷ ys) = last (y ∷ ys)

-- `Path::file_name`: the last component, if it is a name
unfoldable pub file_name : Chars → Option Chars
unfolding split
file_name w = elim (last (select (λ p. not (is_empty p || same p (codes "."))) (split b'/' w))) [
  | none ↦ none
  | some name ↦ if same name (codes "..") then none else some name
]

abbrev pub or_empty : Option Chars → Chars
or_empty none = []
or_empty (some w) = w

-- `command`, `exec`, `env` and `sudo` run the rest of the line
unfoldable pub is_wrapper : Chars → Bool
unfolding file_name
is_wrapper w = is_one_of ("command" ∷ "exec" ∷ "env" ∷ "sudo" ∷ []) (or_empty (file_name w))

unfoldable pub wrapper_value : Chars → Bool
wrapper_value = is_one_of ("-u" ∷ "--unset" ∷ "-C" ∷ "--chdir" ∷ "-g" ∷ "--user" ∷ "--group" ∷ [])

-- how far the options of a wrapper reach
unfoldable pub wrapper_options : Command → ℕ
unfolding wrapper_value
wrapper_options [] = 0
wrapper_options (o ∷ []) = if not (starts_dash o) then 0 else if wrapper_value o then 2 else 1
wrapper_options (o ∷ v ∷ os) =
    let after_value = 2 + wrapper_options os in
    let after_option = 1 + wrapper_options (v ∷ os) in
    if not (starts_dash o)
    then 0
    else if wrapper_value o
    then after_value
    else if same o (codes "--")
    then 1
    else after_option

-- the loop of `command_start` at an index; the fuel is the number of words
unfoldable pub start_from : ℕ → ℕ → Command → ℕ
start_from zero index words = index
start_from (suc fuel) index [] = index
start_from (suc fuel) index (w ∷ ws) =
    let after_assignment = start_from fuel (index + 1) ws in
    let after_wrapper =
      start_from fuel (index + 1 + wrapper_options ws) (drop (wrapper_options ws) ws) in
    if contains b'=' w then after_assignment else if is_wrapper w then after_wrapper else index

unfoldable pub command_start : Command → ℕ
unfolding start_from is_wrapper wrapper_options
command_start words = start_from (length words) 0 words

-- the first word that is no option
unfoldable pub subcommand : List String → Command → Option Chars
subcommand value_options [] = none
subcommand value_options (a ∷ []) = if not (starts_dash a) then some a else none
subcommand value_options (a ∷ v ∷ rest) =
    let after_value = subcommand value_options rest in
    let after_option = subcommand value_options (v ∷ rest) in
    if not (starts_dash a)
    then some a
    else if is_one_of value_options a
    then after_value
    else after_option

-- What the guard asks of git and of the glob crate: the branch that is checked out in a
-- directory, and whether a pattern is valid and matches a branch.
pub record Outside : Type 0 where
  pub current_branch : Option Chars → Option Chars
  pub glob_matches : Chars → Chars → Bool

-- what the loop of `push_targets_integration` collects
pub record Push : Type 0 where
  pub positional : List Chars
  pub repo_option : Bool

abbrev pub note_argument : Chars → Push → Push
note_argument a p = record {
  positional = if starts_dash a then p.positional else p.positional ++ a ∷ [];
  repo_option = p.repo_option || starts_with (codes "--repo=") a;
}

abbrev pub pushes_all : Chars → Bool
pushes_all = is_one_of ("--all" ∷ "--mirror" ∷ "--matching" ∷ [])

abbrev pub push_value : Chars → Bool
push_value = is_one_of ("--repo" ∷ "--receive-pack" ∷ "--exec" ∷ "--push-option" ∷ "-o" ∷ [])

abbrev pub note_repo : Chars → Push → Push
note_repo a p = record p { repo_option = p.repo_option || same a (codes "--repo") }

-- `none` where an argument pushes every branch
unfoldable pub push_arguments : Command → Push → Option Push
push_arguments [] p = some p
push_arguments (a ∷ []) p =
    if pushes_all a then none else some (if push_value a then note_repo a p else note_argument a p)
push_arguments (a ∷ v ∷ rest) p =
    let after_value = push_arguments rest (note_repo a p) in
    let after_argument = push_arguments (v ∷ rest) (note_argument a p) in
    if pushes_all a then none else if push_value a then after_value else after_argument

-- after the last `c`, or the whole text
abbrev pub after_last : ℕ → Chars → Chars
after_last c w = or_empty (last (split c w))

unfoldable pub trim_plus : Chars → Chars
trim_plus [] = []
trim_plus (c ∷ cs) = if c == b'+' then trim_plus cs else c ∷ cs

-- `trim_start_matches` of a text, for as many rounds as `fuel`
unfoldable pub trim_prefix : ℕ → Chars → Chars → Chars
trim_prefix zero prefix w = w
trim_prefix (suc fuel) prefix w =
    let rest = trim_prefix fuel prefix (drop (length prefix) w) in
    if starts_with prefix w then rest else w

-- the branch that a reference `+source:refs/heads/target` is pushed to
unfoldable pub push_target : Chars → Chars
unfolding split trim_plus trim_prefix
push_target reference =
    let target = trim_plus (after_last b':' reference) in
    trim_prefix (length target) (codes "refs/heads/") target

abbrev pub is_current : Option Chars → Chars → Bool
is_current none branch = false
is_current (some current) branch = same current branch

module _ (o : Outside) where
  unfoldable pub names_branch : Option Chars → Chars → Chars → Bool
  names_branch cwd target branch =
      same target branch
      || (same target (codes "HEAD") && is_current (o.current_branch cwd) branch)
      || o.glob_matches target branch

  unfoldable pub reference_targets : List Chars → Option Chars → Chars → Bool
  unfolding push_target names_branch
  reference_targets branches cwd reference =
      is_empty (push_target reference) || any (names_branch cwd (push_target reference)) branches

  -- a push without a reference goes to the branch that is checked out
  unfoldable pub current_targets : List Chars → Option Chars → Command → Bool
  current_targets branches cwd args =
      if any (λ a. same a (codes "--tags")) args
      then false
      else any (is_current (o.current_branch cwd)) branches

  unfoldable pub push_references : List Chars → Option Chars → Command → Push → Bool
  unfolding reference_targets current_targets
  push_references branches cwd args p =
      let references = if p.repo_option then p.positional else drop 1 p.positional in
      if not (is_empty references)
      then any (reference_targets branches cwd) references
      else current_targets branches cwd args

  unfoldable pub collected_targets : List Chars → Option Chars → Command → Option Push → Bool
  unfolding push_references
  collected_targets branches cwd args none = true
  collected_targets branches cwd args (some p) = push_references branches cwd args p

  unfoldable pub push_targets_integration : Command → List Chars → Option Chars → Bool
  unfolding push_arguments collected_targets
  push_targets_integration args branches cwd =
      if is_empty branches
      then false
      else collected_targets branches cwd args
          (push_arguments args (record { positional = []; repo_option = false }))
