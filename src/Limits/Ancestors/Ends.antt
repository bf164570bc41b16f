-- ===== src/Limits/Ancestors/Ends.antt =====
-- The loop over the ancestors ends.
use dotfile.Prelude.{
  ℕ, zero, suc, ◌≤◌, ◌<◌, true, Option, none, some, List, [], ◌∷◌, mem, count, ◌≡◌, ◌∙◌, ap, refl,
  arith, ==_refl, on_branches, count-le-length, length,
}
use dotfile.Seen.{unseen, count-seen}
use dotfile.Limits.Ancestors.{Turn, answer, onward, Climb, climb, turn, unless}

module _ {S R : Type 0} (c : Climb S R) (ids : List ℕ) where
  -- every ancestor that a turn names is one of the list
  abbrev pub NamesOf : Type 0
  NamesOf =
      (id : ℕ) (s s' : S) (next : ℕ) → c.visit id s ≡ onward (some next) s' → mem next ids ≡ true

  abbrev IsSome : Option R → Type 0
  IsSome found = (r : R) × (found ≡ some r)

  unless-IsSome : (first later : Option R) → IsSome later → IsSome (unless c first later)
  unfolding unless
  unless-IsSome (some r) later h = (r, refl)
  unless-IsSome none later h = h

  turn-IsSome :
      (go : Option ℕ → S → Option R) (t : Turn S R)
      → ((next : Option ℕ) (s : S) → t ≡ onward next s → IsSome (go next s))
      → IsSome (turn c go t)
  unfolding turn
  turn-IsSome go (answer r) h = (r, refl)
  turn-IsSome go (onward next s) h = h next s refl

  -- The loop answers where each ancestor is one of a list and the fuel is above the number of those
  -- that were not visited.
  pub climb-ends :
      NamesOf
      → (fuel : ℕ) (next : Option ℕ) (seen : List ℕ) (s : S)
      → ((id : ℕ) → next ≡ some id → mem id ids ≡ true)
      → count (unseen seen) ids < fuel
      → IsSome (climb c fuel next seen s)
  unfolding climb
  climb-ends names fuel none seen s h less = (c.done s, refl)
  climb-ends names zero (some id) seen s h less = absurd (omega arith)
  climb-ends names (suc fuel) (some id) seen s h less = unless-IsSome (c.before s) _ (
      on_branches IsSome (mem id seen) (λ _. (c.again s, refl))
        (λ new.
          turn-IsSome (λ next s'. climb c fuel next (id ∷ seen) s') (c.visit id s)
            (λ next s' q.
              climb-ends names fuel next (id ∷ seen) s'
                (λ n named. names id s s' n (q ∙ ap (λ o. onward o s') named))
                (omega (arith, count-seen id seen ids (h id refl) new)))))

module _ {S R : Type 0} (c : Climb S R) (ids : List ℕ) where
  -- Fuel for two more turns than there are names is enough from any start.
  pub climb-enough :
      NamesOf c ids
      → (size : ℕ) (next : Option ℕ) (s : S) → length ids ≤ size
      → (r : R) × (climb c (suc (suc size)) next [] s ≡ some r)
  unfolding climb
  climb-enough names size none s short = (c.done s, refl)
  climb-enough names size (some start) s short =
      climb-ends c (start ∷ ids) (λ id s s' n q. ground (arith, names id s s' n q)) (suc (suc size))
        (some start) [] s (λ id q. ground (arith, ==_refl id))
        (omega (arith, count-le-length (unseen []) (start ∷ ids)))
