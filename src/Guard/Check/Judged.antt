-- ===== src/Guard/Check/Judged.antt =====
-- How `check` judges the shell command of a session in a loop.
use dotfile.Prelude.{
  ℕ, String, true, false, none, some, [], ◌∷◌, Result, ok, err, ◌≡◌, ◌≢◌, ◌⊎◌, inl, inr, refl, ap,
  ◌∙◌, All, arith, one_of, Option-cases, Result-cases, Bool-cases, str_eq, str_eq_iff,
}
use dotfile.External.{UlidText, External}
use dotfile.Registry.Schema.{SessionRow, Tables}
use dotfile.Registry.Resolve.{get_record}
use dotfile.Guard.Shell.{Chars, commands}
use dotfile.Guard.Arguments.{Outside}
use dotfile.Guard.Classify.{Scope, classify, command_rule}
use dotfile.Guard.Classify.Rules.{classify-none, classify-some, FirstBreak}
use dotfile.Guard.Context.{Context, Logs, context}
use dotfile.Guard.Check.{
  Payloads, Request, Answer, pass, deny, GuardEvent, CheckError, Append, Verdict, shell_command,
  scope_of, agent_of, answer, deny_command, judge, passed, check_command, check_found,
  check_climbed, check,
}

abbrev CanCancel : String → Type 0
CanCancel agent = (agent ≡ "claude") ⊎ (agent ≡ "codex")

-- every command of the line keeps every rule
abbrev Keeps : Outside → Scope → Chars → Type 0
Keeps o scope command =
    All (λ w. command_rule o (classify o 8 scope) scope w ≡ none) (commands 9 command)

-- what is returned once the event was appended or not
abbrev Denied : Append → String → GuardEvent → Result CheckError Answer → Type 0
Denied append agent event result =
    ((error : CheckError) × (append event ≡ err error) × (result ≡ err error))
    ⊎ ((append event ≡ ok tt) × CanCancel agent × (result ≡ ok (deny event.rule)))
    ⊎ ((append event ≡ ok tt) × ¬ CanCancel agent × (result ≡ ok pass))

differs : (s t : String) → str_eq s t ≡ false → s ≢ t
differs s t h = λ e. let same : str_eq s t ≡ true = (str_eq_iff s t).1 e in absurd (grind arith)

one_of-CanCancel :
    (agent : String)
    → ((one_of ("claude" ∷ "codex" ∷ []) agent ≡ true) × CanCancel agent)
      ⊎ ((one_of ("claude" ∷ "codex" ∷ []) agent ≡ false) × ¬ CanCancel agent)
one_of-CanCancel agent = elim (Bool-cases (str_eq agent "claude")) [
  | inl claude ↦ inl (rw claude refl, inl ((str_eq_iff agent "claude").0 claude))
  | inr other ↦ elim (Bool-cases (str_eq agent "codex")) [
    | inl codex ↦ inl (rw (other, codex) refl, inr ((str_eq_iff agent "codex").0 codex))
    | inr third ↦ inr (
      rw (other, third) refl,
      λ can. elim can [
        | inl e ↦ differs agent "claude" other e
        | inr e ↦ differs agent "codex" third e
      ],
    )
  ]
]

deny_command-Denied :
    (append : Append) (agent : String) (event : GuardEvent)
    → Denied append agent event (deny_command append agent event).result
unfolding deny_command answer
deny_command-Denied append agent event = elim (Result-cases (append event)) [
  | inr (error, failed) ↦ inl (error, failed, rw failed refl)
  | inl (unit, done) ↦ elim (one_of-CanCancel agent) [
    | inl (listed, can) ↦ inr (inl (done, can, rw (done, listed) refl))
    | inr (unlisted, cannot) ↦ inr (inr (done, cannot, rw (done, unlisted) refl))
  ]
]

module _ {V : Type 0} ⦃u : UlidText⦄ ⦃x : External V⦄ (o : Outside) (p : Payloads V)
    (append : Append) (request : Request V) where
  -- how a command is judged: `{}` and no event, or an event for the first broken rule
  abbrev pub Judged : SessionRow V → Context V → Chars → Verdict → Type 0
  Judged row ctx command verdict =
      (Keeps o (scope_of p request ctx) command
        × (verdict.event ≡ none)
        × (verdict.result ≡ ok pass))
      ⊎ ((event : GuardEvent) × (verdict.event ≡ some event)
          × (event.loop ≡ ctx.id)
          × (event.session ≡ row.id)
          × (event.command ≡ command)
          × FirstBreak o (scope_of p request ctx) (classify o 8 (scope_of p request ctx)) event.rule
              (commands 9 command)
          × Denied append (agent_of request row) event verdict.result)

  judge-Judged :
      (row : SessionRow V) (ctx : Context V) (command : Chars)
      → Judged row ctx command (check_command o p append request row ctx (some command))
  unfolding check_command judge passed
  judge-Judged row ctx command =
      elim (Option-cases (classify o 9 (scope_of p request ctx) command)) [
        | inl keeps ↦
            rw keeps
              (inl ((classify-none o (scope_of p request ctx) 8 command).0 keeps, refl, refl))
        | inr (rule, broken) ↦ rw broken (
            inr (
              _,
              refl,
              refl,
              refl,
              refl,
              classify-some o (scope_of p request ctx) 8 command rule broken,
              deny_command-Denied append (agent_of request row) _,
            ))
      ]

  -- Where the session of a request is registered and under a loop, and the payload has a shell
  -- command, the check ends in one of two ways. Either every command of the line, read with the loop's
  -- branches, keeps every rule, no event is recorded, and the answer is `{}`. Or an event for the
  -- loop names the session, the command and the rule that the first command of the line to break one
  -- breaks; the check fails as the appending of the event does; where it succeeds, the answer is the
  -- denial with that rule for the agents claude and codex and `{}` for the others.
  pub check-Judged :
      (logs : Logs V) (sessions : ℕ) (t : Tables V) (row : SessionRow V) (ctx : Context V)
      (command : Chars)
      → get_record t (u.show_ulid request.session) ≡ ok row
      → context logs sessions row.id none ≡ some (ok (some ctx))
      → shell_command p request.payload ≡ some command
      → (verdict : Verdict) × (check o p append request logs sessions t ≡ some verdict)
        × Judged row ctx command verdict
  unfolding check check_found check_climbed
  check-Judged logs sessions t row ctx command registered climbed found = (
    check_command o p append request row ctx (some command),
    ap (check_found o p append request logs sessions) registered
        ∙ ap (check_climbed o p append request row) climbed
        ∙ ap (λ c. some (check_command o p append request row ctx c)) found,
    judge-Judged row ctx command,
  )
