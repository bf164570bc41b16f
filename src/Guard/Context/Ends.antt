-- ===== src/Guard/Context/Ends.antt =====
-- The climb over a session's ancestors ends.
use dotfile.Prelude.{
  mem, count-le-length, ℕ, zero, suc, ◌<◌, String, false, Option, none, some, List, [], ◌∷◌, Result,
  ok, err, ◌≡◌, refl, inl, inr, Bool-cases, count, length, arith, if◌then◌else◌, ◌==◌, ok_unique,
  on_branches,
}
use dotfile.Seen.{unseen, count-seen}
use dotfile.Entry.{LogEntry}
use dotfile.External.{UlidText, External}
use dotfile.Guard.Context.{
  ContextError, cycle, Context, Logs, climb_entries, climb, context, Climbed, next_ancestor,
  is_loop, created_body, parent_from, role_of, or_else,
}

abbrev IsSome : {A : Type 0} → Option A → Type 0
IsSome {A} answer = (r : A) × (answer ≡ some r)

module _ {V : Type 0} ⦃u : UlidText⦄ ⦃x : External V⦄ where
  -- a round ends, or goes on where the log has a parent
  climb_entries-ends :
      (onward : Option ℕ → Option String → Climbed V) (id : ℕ) (caller : Option ℕ)
      (role : Option String) (log : Result ContextError (List (LogEntry V)))
      → ((entries : List (LogEntry V)) (found : Option String)
          → log ≡ ok entries
          → IsSome (onward (next_ancestor entries caller) found))
      → IsSome (climb_entries onward id caller role log)
  unfolding climb_entries
  climb_entries-ends onward id caller role (err error) go = (err error, refl)
  climb_entries-ends onward id caller role (ok entries) go =
      on_branches IsSome (is_loop (created_body entries))
        (λ _. (ok (some (record { id = id; role = role; entries = entries })), refl))
        (λ _. go entries (or_else role (role_of (created_body entries))) refl)

  module _ (logs : Logs V) (known : List ℕ)
      (absent : (id : ℕ) → mem id known ≡ false → logs id ≡ ok []) (session : ℕ)
      (caller : Option ℕ) where
    -- no parent is known of a session without a log
    next-absent :
        (id : ℕ) (entries : List (LogEntry V))
        → mem id (session ∷ known) ≡ false
        → logs id ≡ ok entries
        → next_ancestor entries (if id == session then caller else none) ≡ none
    unfolding next_ancestor created_body parent_from
    next-absent id entries out read =
        let empty : entries ≡ [] = ok_unique (logs id) read (absent id (ground arith)) in
        let other : (id == session) ≡ false = ground arith in rw (empty, other) refl

    climb-ends :
        (fuel : ℕ) (next : Option ℕ) (seen : List ℕ) (role : Option String)
        → count (unseen seen) (session ∷ known) < fuel
        → IsSome (climb logs session caller fuel next seen role)
    unfolding climb
    climb-ends fuel none seen role h = (ok none, refl)
    climb-ends zero (some id) seen role h = absurd (omega arith)
    climb-ends (suc fuel) (some id) seen role h =
        on_branches IsSome (mem id seen) (λ _. (err cycle, refl))
          (λ new.
            climb_entries-ends (λ next found. climb logs session caller fuel next (id ∷ seen) found)
              id (if id == session then caller else none) role (logs id)
              (λ entries found read. elim (Bool-cases (mem id (session ∷ known))) [
                | inr out ↦ rw (next-absent id entries out read) (ok none, refl)
                | inl held ↦
                    climb-ends fuel _ (id ∷ seen) found
                      (omega (arith, count-seen id seen (session ∷ known) held new))
              ]))

  -- The climb answers, if the fuel is the number of sessions that have a log: it meets each at most
  -- once, and a session without a log has no parent.
  pub context-ends :
      (logs : Logs V) (known : List ℕ)
      → ((id : ℕ) → mem id known ≡ false → logs id ≡ ok [])
      → (session : ℕ) (caller : Option ℕ)
      → (r : Result ContextError (Option (Context V))) × (context logs (length known) session caller
          ≡ some r)
  unfolding context
  context-ends logs known absent session caller =
      climb-ends logs known absent session caller (suc (suc (length known))) (some session) [] none
        (omega (arith, count-le-length (unseen []) (session ∷ known)))
