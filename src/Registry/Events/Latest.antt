-- ===== src/Registry/Events/Latest.antt =====
-- The latest and the first of the rows that pass a test.
use dotfile.Prelude.{
  ℕ, ◌≤◌, String, Bool, true, false, Option, none, some, List, [], ◌∷◌, ◌≡◌, refl, ◌⊎◌, inl, inr,
  Bool-cases, leb, arith,
}
use dotfile.Entry.{LogEntry}
use dotfile.External.{External}
use dotfile.Registry.Schema.{AppliedRow}
use dotfile.Registry.Store.{Registry}
use dotfile.Registry.Events.{latest_row, is_event, is_process_exit, entry_of, latest_event}
use dotfile.Registry.Events.{latest_process_exit}

pub data IsRow {A : Type 0} (a : A) : List A → Type 0 where
  first : {rows : List A} → IsRow a (a ∷ rows)
  below : {b : A} {rows : List A} → IsRow a rows → IsRow a (b ∷ rows)

module _ {V : Type 0} where
  -- no row passes, or one passes that no other exceeds in `seq`
  pub data Latest (p : AppliedRow V → Bool) (rows : List (AppliedRow V))
      : Option (LogEntry V) → Type 0 where
    no_row : ((q : AppliedRow V) → IsRow q rows → p q ≡ false) → Latest p rows none
    row :
        (r : AppliedRow V)
        → IsRow r rows
        → p r ≡ true
        → ((q : AppliedRow V) → IsRow q rows → p q ≡ true → q.seq ≤ r.seq)
        → Latest p rows (some r.entry)

  below_all :
      {P : AppliedRow V → Type 0} {b : AppliedRow V} {rows : List (AppliedRow V)}
      → P b
      → ((q : AppliedRow V) → IsRow q rows → P q)
      → (q : AppliedRow V) → IsRow q (b ∷ rows)
      → P q
  below_all here rest _ first = here
  below_all here rest q (below h) = rest q h

  pub latest_row-cases :
      (p : AppliedRow V → Bool) (rows : List (AppliedRow V))
      → ((latest_row p rows ≡ none) × ((q : AppliedRow V) → IsRow q rows → p q ≡ false))
        ⊎ ((r : AppliedRow V) × (latest_row p rows ≡ some r)
            × IsRow r rows
            × (p r ≡ true)
            × ((q : AppliedRow V) → IsRow q rows → p q ≡ true → q.seq ≤ r.seq))
  unfolding latest_row
  latest_row-cases p [] = inl (refl, λ q h. elim h [ ])
  latest_row-cases p (b ∷ rows) = elim (Bool-cases (p b)) [
    | inr fails ↦ elim (latest_row-cases p rows) [
      | inl (found, none_pass) ↦ inl (rw fails found, below_all fails none_pass)
      | inr (r, found, at, passes, most) ↦
          inr (r, rw fails found, below at, passes, below_all (λ h. cc) most)
    ]
    | inl passes ↦ elim (latest_row-cases p rows) [
      | inl (found, none_pass) ↦ inr (
        b,
        rw (passes, found) refl,
        first,
        passes,
        below_all (λ _. omega arith) (λ q at h. absurd (ground (arith, none_pass q at))),
      )
      | inr (r, found, at, good, most) ↦ elim (Bool-cases (leb r.seq b.seq)) [
        | inl newer ↦ inr (
          b,
          rw (passes, found, newer) refl,
          first,
          passes,
          below_all (λ _. omega arith) (λ q under h. ground (arith, most q under h)),
        )
        | inr older ↦
            inr (
              r,
              rw (passes, found, older) refl,
              below at,
              good,
              below_all (λ _. ground arith) most,
            )
      ]
    ]
  ]

  latest_row-Latest :
      (p : AppliedRow V → Bool) (rows : List (AppliedRow V))
      → Latest p rows (entry_of (latest_row p rows))
  latest_row-Latest p rows = elim (latest_row-cases p rows) [
    | inl (found, none_pass) ↦ rw found (no_row none_pass)
    | inr (r, found, at, passes, most) ↦ rw found (row r at passes most)
  ]

module _ {V : Type 0} ⦃x : External V⦄ where
  -- The two queries answer with the event of greatest sequence number among those they ask for, and
  -- with none exactly where there is no such event: `latest_event` among the session's events of
  -- the type, `latest_process_exit` among its exits without a callback id.
  pub latest_event-Latest :
      (r : Registry V) (session : ℕ) (event_type : String)
      → Latest
          (is_event session event_type)
          r.connection.applied
          (latest_event r session event_type)
        × Latest (is_process_exit session) r.connection.applied (latest_process_exit r session)
  unfolding latest_event latest_process_exit
  latest_event-Latest r session event_type = (
    latest_row-Latest (is_event session event_type) r.connection.applied,
    latest_row-Latest (is_process_exit session) r.connection.applied,
  )
