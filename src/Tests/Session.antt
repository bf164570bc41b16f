-- ===== src/Tests/Session.antt =====
-- The session's life on examples.
use dotfile.Prelude.{◌+◌, List, [], ◌∷◌, ok, ◌≡◌, refl}
use dotfile.Session.{
  SessionState, created, running, blocked, finished, reopened, failed, transition,
}
use dotfile.Session.Lifecycle.{
  advance, advance-balance, sum, closes, reopens, Arrow, transition-iff-Arrow,
}
use dotfile.Prelude.{◌↔◌}

abbrev life : List SessionState
life = running ∷ blocked ∷ running ∷ finished ∷ reopened ∷ failed ∷ []

advance-balance_example : sum closes life + 0 ≡ sum reopens life + 1
unfolding advance transition
advance-balance_example = advance-balance created failed life refl

transition-iff-Arrow_example : (transition blocked failed ≡ ok failed) ↔ Arrow blocked failed
transition-iff-Arrow_example = transition-iff-Arrow blocked failed
