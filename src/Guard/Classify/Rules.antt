-- ===== src/Guard/Classify/Rules.antt =====
-- What `classify` refuses.
use dotfile.Prelude.{
  ℕ, suc, Bool, true, false, Option, none, some, List, [], ◌∷◌, ◌++◌, ◌≡◌, ◌↔◌, refl, ap, sym, ◌∙◌,
  All, Option-cases, inl, inr, any, ◌&&◌, ◌||◌, ◌==◌, arith,
}
use dotfile.Guard.Shell.{Chars, Command, codes, is_empty, commands}
use dotfile.Guard.Shell.Quoted.{render, Quotable, commands-render}
use dotfile.Guard.Arguments.{
  same, starts_with, contains, starts_dash, file_name, Outside, push_target, push_arguments,
  push_references, reference_targets, names_branch, pushes_all, push_value,
  push_targets_integration, collected_targets,
}
use dotfile.Guard.Arguments.Start.{Leads, AtProgram, command_start-Leads}
use dotfile.Guard.Arguments.References.{push_target-branch}
use dotfile.Guard.Classify.{
  Rule, Scope, git_rule, program_rule, command_rule, rule_from, named_rule, or_rule, first_rule,
  classify,
}

or_rule-none :
    (a b : Option Rule)
    → (or_rule a b ≡ none → (a ≡ none) × (b ≡ none))
      × ((a ≡ none) × (b ≡ none) → or_rule a b ≡ none)
or_rule-none none b = (λ h. (refl, h), λ h. h.1)
or_rule-none (some r) b = (λ h. cc, λ h. cc (h.0))

or_rule-last : (a : Option Rule) → or_rule a none ≡ a
or_rule-last none = refl
or_rule-last (some r) = refl

module _ (o : Outside) (scope : Scope) where
  first_rule-none :
      (nested : Chars → Option Rule) (cmds : List Command)
      → (first_rule o nested scope cmds ≡ none)
        ↔ All (λ w. command_rule o nested scope w ≡ none) cmds
  unfolding first_rule
  first_rule-none nested [] = (λ _. tt, λ _. refl)
  first_rule-none nested (w ∷ ws) =
      let (passes, all_pass) = first_rule-none nested ws in
      let (both, first) =
        or_rule-none (command_rule o nested scope w) (first_rule o nested scope ws) in
      (λ h. let (here, rest) = both h in (here, passes rest), λ h. first (h.0, all_pass h.1))

  -- A line passes exactly if each of its commands does, at any depth below nine.
  pub classify-none :
      (levels : ℕ) (line : Chars)
      → (classify o (suc levels) scope line ≡ none)
        ↔ All (λ w. command_rule o (classify o levels scope) scope w ≡ none) (commands 9 line)
  unfolding classify
  classify-none levels line = first_rule-none (classify o levels scope) (commands 9 line)

  -- the first command that breaks a rule breaks this one
  abbrev pub FirstBreak : (Chars → Option Rule) → Rule → List Command → Type 0
  FirstBreak nested rule cmds =
      (before after : List Command) × (w : Command) × (cmds ≡ before ++ w ∷ after)
      × All (λ v. command_rule o nested scope v ≡ none) before
      × (command_rule o nested scope w ≡ some rule)

  first_rule-FirstBreak :
      (nested : Chars → Option Rule) (rule : Rule) (cmds : List Command)
      → first_rule o nested scope cmds ≡ some rule
      → FirstBreak nested rule cmds
  unfolding first_rule
  first_rule-FirstBreak nested rule [] h = cc
  first_rule-FirstBreak nested rule (w ∷ ws) h =
      elim (Option-cases (command_rule o nested scope w)) [
        | inr (r, broken) ↦
            let same : some r ≡ some rule =
              ap (λ a. or_rule a (first_rule o nested scope ws)) (sym broken) ∙ h in
            ([], ws, w, refl, tt, broken ∙ same)
        | inl keeps ↦
            let rest = ap (λ a. or_rule a (first_rule o nested scope ws)) (sym keeps) ∙ h in
            let (before, after, v, split, all, broken) =
              first_rule-FirstBreak nested rule ws rest in
            (w ∷ before, after, v, ap (λ cs. w ∷ cs) split, (keeps, all), broken)
      ]

  pub classify-some :
      (levels : ℕ) (line : Chars) (rule : Rule)
      → classify o (suc levels) scope line ≡ some rule
      → FirstBreak (classify o levels scope) rule (commands 9 line)
  unfolding classify
  classify-some levels line rule h =
      first_rule-FirstBreak (classify o levels scope) rule (commands 9 line) h

  first_rule-one :
      (nested : Chars → Option Rule) (w : Command)
      → first_rule o nested scope (w ∷ []) ≡ command_rule o nested scope w
  unfolding first_rule
  first_rule-one nested w = or_rule-last (command_rule o nested scope w)

  command_rule-Leads :
      (nested : Chars → Option Rule) (ws : Command) (program name : Chars) (args : Command)
      → Leads ws (program ∷ args)
      → AtProgram (program ∷ args)
      → file_name program ≡ some name
      → command_rule o nested scope ws ≡ program_rule o nested scope name args
  unfolding command_rule rule_from named_rule
  command_rule-Leads nested ws program name args leads at named =
      ap (rule_from o nested scope) (command_start-Leads leads at)
      ∙ ap (λ n. named_rule o nested scope n args) named

  -- A line of words in single quotes is judged by its program, whatever assignments and wrappers
  -- stand before it and whatever path the program is named by.
  pub classify-program :
      (levels : ℕ) (w : Chars) (ws : Command) (program name : Chars) (args : Command)
      → All Quotable (w ∷ ws)
      → Leads (w ∷ ws) (program ∷ args)
      → AtProgram (program ∷ args)
      → file_name program ≡ some name
      → classify o (suc levels) scope (render (w ∷ ws))
        ≡ program_rule o (classify o levels scope) scope name args
  unfolding classify
  classify-program levels w ws program name args quotable leads at named =
      ap (first_rule o (classify o levels scope) scope) (commands-render 8 w ws quotable)
      ∙ first_rule-one (classify o levels scope) (w ∷ ws)
      ∙ command_rule-Leads (classify o levels scope) (w ∷ ws) program name args leads at named

  program_rule-git :
      (nested : Chars → Option Rule) (args : Command)
      → program_rule o nested scope (codes "git") args ≡ git_rule o scope args
  unfolding program_rule
  program_rule-git nested args = refl

dash_head : (c : ℕ) → ((45 == c) && true) ≡ false → (45 == c) ≡ false
dash_head c h = ground arith

no_dash_option :
    (w : Chars)
    → starts_dash w ≡ false
    → (pushes_all w ≡ false) × (push_value w ≡ false) × (starts_with (codes "--repo=") w ≡ false)
no_dash_option [] h = (refl, refl, refl)
no_dash_option (c ∷ cs) h =
    let other : (45 == c) ≡ false = dash_head c h in rw other (refl, refl, refl)

starts_dash-append :
    (v w : Chars) → starts_dash v ≡ false → is_empty v ≡ false → starts_dash (v ++ w) ≡ false
starts_dash-append [] w h full = cc
starts_dash-append (c ∷ cs) w h full = h

push_arguments-plain :
    (remote reference : Chars)
    → starts_dash remote ≡ false
    → starts_dash reference ≡ false
    → push_arguments (remote ∷ reference ∷ []) (record { positional = []; repo_option = false })
      ≡ some (record { positional = remote ∷ reference ∷ []; repo_option = false })
unfolding push_arguments
push_arguments-plain remote reference r s =
    let (all, takes, repo) = no_dash_option remote r in
    let (all', takes', repo') = no_dash_option reference s in
    rw (all, takes, repo, all', takes', repo', r, s) refl

any_mono :
    (p q : Chars → Bool)
    → ((b : Chars) → p b ≡ true → q b ≡ true)
    → (bs : List Chars) → any p bs ≡ true
    → any q bs ≡ true
any_mono p q keeps [] h = cc
any_mono p q keeps (b ∷ bs) h = ground (arith, keeps b, any_mono p q keeps bs)

some_branch : (p : Chars → Bool) (bs : List Chars) → any p bs ≡ true → is_empty bs ≡ false
some_branch p [] h = cc
some_branch p (b ∷ bs) h = refl

or_true : (a : Bool) {b : Bool} → b ≡ true → (a || b) ≡ true
or_true false h = h
or_true true h = refl

module _ (o : Outside) (branches : List Chars) (cwd : Option Chars) where
  reference_targets-branch :
      (reference branch : Chars)
      → push_target reference ≡ branch
      → any (same branch) branches ≡ true
      → reference_targets o branches cwd reference ≡ true
  unfolding reference_targets names_branch
  reference_targets-branch reference branch goes named =
      or_true (is_empty (push_target reference)) (
        rw goes
          (any_mono (same branch) (names_branch o cwd branch) (λ b h. rw h refl) branches named))

  -- A push of any source to an integration branch by `source:refs/heads/branch` is seen.
  pub push_targets_integration-branch :
      (remote source branch : Chars)
      → starts_dash remote ≡ false
      → starts_dash source ≡ false
      → is_empty source ≡ false
      → contains b':' branch ≡ false
      → starts_with (codes "refs/heads/") branch ≡ false
      → any (same branch) branches ≡ true
      → push_targets_integration o
          (remote ∷ (source ++ b':' ∷ (codes "refs/heads/" ++ branch)) ∷ [])
          branches
          cwd
        ≡ true
  unfolding push_targets_integration collected_targets push_references
  push_targets_integration-branch remote source branch r s full colon heads named =
      let reference : Chars = source ++ b':' ∷ (codes "refs/heads/" ++ branch) in
      rw (some_branch (same branch) branches named) (
        ap (collected_targets o branches cwd (remote ∷ reference ∷ [])) (
          push_arguments-plain remote reference r
            (starts_dash-append source (b':' ∷ (codes "refs/heads/" ++ branch)) s full))
        ∙ rw
            (reference_targets-branch reference branch
              (push_target-branch source branch colon heads) named)
            refl)
