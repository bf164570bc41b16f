-- ===== src/Guard/Classify.antt =====
-- `classify` of guard.rs: the rule that a shell line breaks, if any.
pub mod Rules
use dotfile.Prelude.{
  ℕ, zero, suc, ◌+◌, String, Bool, true, false, not, Option, none, some, List, [], ◌∷◌, ◌++◌, ◌&&◌,
  ◌||◌, any, all, drop, length, if◌then◌else◌, ◌==◌,
}
use dotfile.Guard.Shell.{Chars, Command, codes, is_empty, commands}
use dotfile.Guard.Arguments.{
  same, starts_with, contains, is_one_of, starts_dash, file_name, command_start, subcommand,
  Outside, or_empty, push_targets_integration,
}

pub data Rule : Type 0 where
  no_merge no_push no_pr_merge no_agent_spawn : Rule

abbrev ends_with_slash : Chars → Bool
ends_with_slash [] = false
ends_with_slash (c ∷ []) = c == b'/'
ends_with_slash (c ∷ d ∷ cs) = ends_with_slash (d ∷ cs)

-- `PathBuf::join`
unfoldable pub join : Chars → Chars → Chars
join base path =
    if starts_with (codes "/") path || is_empty base
    then path
    else if ends_with_slash base
    then base ++ path
    else base ++ b'/' ∷ path

abbrev pub git_value : Chars → Bool
git_value =
    is_one_of ("-C" ∷ "-c" ∷ "--git-dir" ∷ "--work-tree" ∷ "--namespace" ∷ "--config-env" ∷ [])

-- the directory after `-C path`
unfoldable pub change_directory : Chars → Chars → Option Chars → Option Chars
unfolding join
change_directory option path directory =
    if same option (codes "-C") then some (join (or_empty directory) path) else directory

-- git's own options: the arguments after them, and the directory that they choose
unfoldable pub git_options : Command → Option Chars → Command × Option Chars
unfolding change_directory
git_options [] directory = ([], directory)
git_options (a ∷ []) directory = if starts_dash a then ([], directory) else (a ∷ [], directory)
git_options (a ∷ v ∷ rest) directory =
    let after_value = git_options rest (change_directory a v directory) in
    let after_option = git_options (v ∷ rest) directory in
    if not (starts_dash a)
    then (a ∷ v ∷ rest, directory)
    else if git_value a
    then after_value
    else after_option

unfoldable pub has_pair : Chars → Chars → Command → Bool
has_pair a b [] = false
has_pair a b (x ∷ []) = false
has_pair a b (x ∷ y ∷ rest) = (same x a && same y b) || has_pair a b (y ∷ rest)

-- the argument after the first option with a `c` in it
unfoldable pub script_argument : Command → Option Chars
script_argument [] = none
script_argument (a ∷ []) = none
script_argument (a ∷ s ∷ rest) =
    let later = script_argument (s ∷ rest) in
    if starts_dash a && contains b'c' a then some s else later

abbrev pub some_rule : Bool → Rule → Option Rule
some_rule broken rule = if broken then some rule else none

abbrev pub or_rule : Option Rule → Option Rule → Option Rule
or_rule none later = later
or_rule (some rule) later = some rule

abbrev pub is_chars : Option Chars → String → Bool
is_chars none s = false
is_chars (some w) s = same w (codes s)

-- the list of option names that codex takes with a value
abbrev pub codex_values : List String
codex_values =
    "-c" ∷ "--config" ∷ "-m" ∷ "--model" ∷ "-p" ∷ "--profile" ∷ "-C" ∷ "--cd" ∷ "--sandbox"
    ∷ "--ask-for-approval" ∷ []

abbrev pub prints : Chars → Bool
prints a = is_one_of ("-p" ∷ "--print" ∷ []) a || starts_with (codes "--print=") a

-- what the guard knows of the session: the integration branches, and whether its role is `fix`
pub record Scope : Type 0 where
  pub branches : List Chars
  pub cwd : Option Chars
  pub fix : Bool

abbrev pub script_rule : (Chars → Option Rule) → Option Chars → Option Rule
script_rule nested none = none
script_rule nested (some script) = nested script

module _ (o : Outside) where
  unfoldable pub git_subcommand : Scope → Command → Option Chars → Option Rule
  unfolding push_targets_integration
  git_subcommand scope [] directory = none
  git_subcommand scope (a ∷ args) directory =
      if same a (codes "merge")
      then some no_merge
      else if same a (codes "push")
      then some_rule (not scope.fix && push_targets_integration o args scope.branches directory)
          no_push
      else none

  unfoldable pub git_rule : Scope → Command → Option Rule
  unfolding git_options git_subcommand
  git_rule scope args =
      let (rest, directory) = git_options args scope.cwd in git_subcommand scope rest directory

  -- the `match` on the program; `nested` is `classify` one deeper
  unfoldable pub program_rule : (Chars → Option Rule) → Scope → Chars → Command → Option Rule
  unfolding git_rule has_pair subcommand script_argument
  program_rule nested scope program args =
      if same program (codes "git")
      then git_rule scope args
      else if same program (codes "gh")
      then some_rule (has_pair (codes "pr") (codes "merge") args) no_pr_merge
      else if same program (codes "claude")
      then some_rule (any prints args) no_agent_spawn
      else if same program (codes "codex")
      then some_rule (is_chars (subcommand codex_values args) "exec") no_agent_spawn
      else if same program (codes "grok")
      then some no_agent_spawn
      else if is_one_of ("sh" ∷ "bash" ∷ "zsh" ∷ "dash" ∷ []) program
      then script_rule nested (script_argument args)
      else none

  unfoldable pub named_rule : (Chars → Option Rule) → Scope → Option Chars → Command → Option Rule
  unfolding program_rule
  named_rule nested scope none args = none
  named_rule nested scope (some program) args = program_rule nested scope program args

  -- the words from the program on
  unfoldable pub rule_from : (Chars → Option Rule) → Scope → Command → Option Rule
  unfolding file_name named_rule
  rule_from nested scope [] = none
  rule_from nested scope (word ∷ args) = named_rule nested scope (file_name word) args

  unfoldable pub command_rule : (Chars → Option Rule) → Scope → Command → Option Rule
  unfolding command_start rule_from
  command_rule nested scope words = rule_from nested scope (drop (command_start words) words)

  -- the first command that breaks a rule
  unfoldable pub first_rule : (Chars → Option Rule) → Scope → List Command → Option Rule
  unfolding command_rule
  first_rule nested scope [] = none
  first_rule nested scope (words ∷ rest) =
      or_rule (command_rule nested scope words) (first_rule nested scope rest)

  -- `classify` where `levels` is 9 - depth
  unfoldable pub classify : ℕ → Scope → Chars → Option Rule
  unfolding first_rule commands
  classify zero scope command = none
  classify (suc levels) scope command =
      first_rule (classify levels scope) scope (commands 9 command)
