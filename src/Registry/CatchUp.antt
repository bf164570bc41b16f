-- ===== src/Registry/CatchUp.antt =====
-- `Registry::catch_up` (wsd/crates/ws-core/src/registry/mod.rs): the entries that the index lacks
-- are applied, and every log that has entries is passed to the visitor.
pub mod Held
pub mod Loop
pub mod Index
use dotfile.Prelude.{
  ℕ, zero, suc, Bool, true, false, Option, none, some, List, [], ◌∷◌, Result, ok, err, ok_or, ◌>>=◌,
  str_eq, leb, any, all, drop, if◌then◌else◌, ◌==◌,
}
use dotfile.Entry.{LogEntry}
use dotfile.External.{UlidText, External}
use dotfile.Registry.Schema.{AppliedRow, Tables, Error, json}
use dotfile.Registry.Apply.{apply_all}
use dotfile.Registry.Store.{Registry, RebuildReport, Reads, for_each_log, empty_report}

-- the rows of `applied_events` of one session
module _ {V : Type 0} where
  -- `ORDER BY seq DESC LIMIT 1`
  unfoldable pub last_applied : ℕ → List (AppliedRow V) → Option (AppliedRow V)
  last_applied session [] = none
  last_applied session (r ∷ rs) =
      let rest = last_applied session rs in
      if r.session_id == session
      then elim rest [ none ↦ some r | some q ↦ if leb q.seq r.seq then some r else some q ]
      else rest

  -- `entries.get(index)` and `&entries[n..]`
  abbrev pub get_elem? : List (LogEntry V) → ℕ → Option (LogEntry V)
  get_elem? [] i = none
  get_elem? (e ∷ es) zero = some e
  get_elem? (e ∷ es) (suc i) = get_elem? es i

  -- `seq.checked_sub(1).and_then(|index| entries.get(index))`
  abbrev pub entry_at : List (LogEntry V) → ℕ → Option (LogEntry V)
  entry_at es zero = none
  entry_at es (suc i) = get_elem? es i

module _ {V : Type 0} where
  abbrev is_logged : Reads V → AppliedRow V → Bool
  is_logged reads row = any (λ read. read.0 == row.session_id) reads

module _ {V : Type 0} ⦃u : UlidText⦄ ⦃x : External V⦄ where
  open x use {serialize}

  -- how many of the log's entries the index holds; `none` where the two differ
  unfoldable pub applied_count : Option (AppliedRow V) → List (LogEntry V) → Result Error (Option ℕ)
  applied_count none entries = ok (some 0)
  applied_count (some row) entries = elim (entry_at entries row.seq) [
    | none ↦ ok none
    | some e ↦ (do
      text ← ok_or (serialize e) json
      indexed ← ok_or (serialize row.entry) json
      ok (if str_eq text indexed then some row.seq else none))
  ]

-- what the loop carries: the tables, `diverged`, and the visitor's state
pub record Progress (V S : Type 0) : Type 0 where
  pub tables : Tables V
  pub diverged : Bool
  pub visited : S

module _ {V S : Type 0} where
  -- an empty log is not visited
  unfoldable pub visit_log :
      (S → List (LogEntry V) → Result Error S) → List (LogEntry V) → S → Result Error S
  visit_log visit [] s = ok s
  visit_log visit (e ∷ es) s = visit s (e ∷ es)

module _ {V S : Type 0} ⦃u : UlidText⦄ ⦃x : External V⦄ where
  catch_up_log :
      (S → List (LogEntry V) → Result Error S)
      → List (LogEntry V)
      → Progress V S
      → Option ℕ
      → Result Error (Progress V S)
  catch_up_log visit entries p none = ok (record p { diverged = true })
  catch_up_log visit entries p (some applied) = do
    t ← apply_all p.tables (drop applied entries)
    s ← visit_log visit entries p.visited
    ok (record p { tables = t; visited = s })

  -- the closure that `catch_up` passes to `for_each_log`
  unfoldable pub catch_up_each :
      (S → List (LogEntry V) → Result Error S)
      → ℕ
      → List (LogEntry V)
      → Progress V S
      → Result Error (Progress V S)
  unfolding applied_count catch_up_log
  catch_up_each visit session entries p = if p.diverged then ok p else (do
    count ← applied_count (last_applied session p.tables.applied) entries
    catch_up_log visit entries p count)

  -- commit, unless the index is no prefix of the logs
  unfoldable pub finish_catch_up :
      Registry V
      → Result Error (RebuildReport × Progress V S)
      → Registry V × Result Error (Option (RebuildReport × S))
  finish_catch_up r (err error) = (r, err error)
  finish_catch_up r (ok (report, p)) =
      if p.diverged
      then (r, ok none)
      else (record r { connection = p.tables }, ok (some (report, p.visited)))

  unfoldable pub catch_up :
      Registry V
      → (S → List (LogEntry V) → Result Error S)
      → S
      → Reads V
      → Registry V × Result Error (Option (RebuildReport × S))
  unfolding finish_catch_up
  catch_up r visit s reads =
      if all (is_logged reads) r.connection.applied
      then finish_catch_up r (
          for_each_log (catch_up_each visit) reads empty_report
            (record { tables = r.connection; diverged = false; visited = s }))
      else (r, ok none)
