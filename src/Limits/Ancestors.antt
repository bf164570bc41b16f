-- ===== src/Limits/Ancestors.antt =====
-- The loop over a session's ancestors that limits.rs writes three times: a set of the sessions that
-- were visited, and a next one that each turn names.
pub mod Ends
use dotfile.Prelude.{ℕ, zero, suc, Bool, Option, none, some, List, [], ◌∷◌, mem, if◌then◌else◌}

-- a turn answers, or names the next ancestor
pub data Turn (S R : Type 0) : Type 0 where
  answer : R → Turn S R
  onward : Option ℕ → S → Turn S R

pub record Climb (S R : Type 0) : Type 0 where
  -- an answer before the session is looked at
  pub before : S → Option R
  -- what a session that was visited answers
  pub again : S → R
  -- what the end of the ancestry answers
  pub done : S → R
  pub visit : ℕ → S → Turn S R

module _ {S R : Type 0} (c : Climb S R) where
  unfoldable pub turn : (Option ℕ → S → Option R) → Turn S R → Option R
  turn go (answer r) = some r
  turn go (onward next s) = go next s

  unfoldable pub unless : Option R → Option R → Option R
  unless (some r) later = some r
  unless none later = later

  -- no answer stands for fuel that ran out
  unfoldable pub climb : ℕ → Option ℕ → List ℕ → S → Option R
  unfolding turn unless
  climb fuel none seen s = some (c.done s)
  climb zero (some id) seen s = none
  climb (suc fuel) (some id) seen s = unless (c.before s) (
      if mem id seen
      then some (c.again s)
      else turn (λ next s'. climb fuel next (id ∷ seen) s') (c.visit id s))
