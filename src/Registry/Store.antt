-- ===== src/Registry/Store.antt =====
-- The registry's transactions (wsd/crates/ws-core/src/registry/mod.rs): open, apply, rebuild and
-- catch-up. What the readers of the log files return is an argument: one read for each log, in
-- the order in which the parallel readers finish.
pub mod Aliases
pub mod Rebuild
use dotfile.Prelude.{
  ℕ, zero, suc, ◌+◌, ◌-◌, String, Bool, true, false, not, Option, none, some, List, [], ◌∷◌, ◌++◌,
  Result, ok, err, ok_or, guard, ◌>>=◌, ◌>>◌, ◌&&◌, ◌||◌, str_eq, ltb, leb, max, any, all, length,
  if◌then◌else◌, ◌==◌,
}
use dotfile.Entry.{LogEntry, LogRead}
use dotfile.External.{UlidText, External}
use dotfile.Registry.Schema.{AppliedRow, AliasRow, Tables, Error, io, json, invalid_event}
use dotfile.Registry.Schema.{alias_floor_not_positive, schema_newer, alias_range}
use dotfile.Registry.Fields.{i64_max}
use dotfile.Registry.Apply.{apply_entry, apply_all, empty_tables}

pub record Registry (V : Type 0) : Type 0 where
  pub connection : Tables V
  pub alias_floor : ℕ  -- i64

-- a database file: its schema version, whether it has a table of sessions, and its tables
pub record Database (V : Type 0) : Type 0 where
  pub user_version : ℕ
  pub has_sessions : Bool
  pub tables : Tables V

pub record RebuildReport : Type 0 where
  pub events : ℕ
  pub truncated_logs : List (ℕ × ℕ)

-- `none` is a failed read
abbrev pub Reads : Type 0 → Type 0
Reads V = List (ℕ × Option (LogRead V))

abbrev pub empty_report : RebuildReport
empty_report = record { events = 0; truncated_logs = [] }

abbrev pub schema_version : ℕ
schema_version = 2

-- `Vec::sort` of pairs
abbrev pub pair_leb : ℕ × ℕ → ℕ × ℕ → Bool
pair_leb (a, b) (c, d) = ltb a c || (a == c && leb b d)

unfoldable pub insert_pair : ℕ × ℕ → List (ℕ × ℕ) → List (ℕ × ℕ)
insert_pair p [] = p ∷ []
insert_pair p (q ∷ qs) = if pair_leb p q then p ∷ q ∷ qs else q ∷ insert_pair p qs

unfoldable pub sort_pairs : List (ℕ × ℕ) → List (ℕ × ℕ)
unfolding insert_pair
sort_pairs [] = []
sort_pairs (p ∷ ps) = insert_pair p (sort_pairs ps)

abbrev pub add_truncated : ℕ → Option ℕ → List (ℕ × ℕ) → List (ℕ × ℕ)
add_truncated session none lines = lines
add_truncated session (some line) lines = (session, line) ∷ lines

module _ {V : Type 0} where
  abbrev pub add_read : ℕ → LogRead V → RebuildReport → RebuildReport
  add_read session read report = record {
    events = report.events + length read.entries;
    truncated_logs = add_truncated session read.truncated_line report.truncated_logs;
  }

module _ {V S : Type 0} where
  -- the loop over the received reads; the truncated lines are sorted when it ends
  unfoldable pub for_each_log :
      (ℕ → List (LogEntry V) → S → Result Error S)
      → Reads V
      → RebuildReport
      → S
      → Result Error (RebuildReport × S)
  for_each_log each [] report s =
      ok (record report { truncated_logs = sort_pairs report.truncated_logs }, s)
  for_each_log each ((session, none) ∷ reads) report s = err io
  for_each_log each ((session, some read) ∷ reads) report s = do
    s' ← each session read.entries s
    for_each_log each reads (add_read session read report) s'

module _ {V : Type 0} ⦃u : UlidText⦄ ⦃x : External V⦄ where
  -- `Registry::apply`: an error drops the transaction
  unfoldable pub apply : Registry V → LogEntry V → Registry V × Result Error (Unit {0})
  apply r e = elim (apply_entry r.connection e) [
    | ok t ↦ (record r { connection = t }, ok tt)
    | err error ↦ (r, err error)
  ]

  unfoldable pub rebuild : Registry V → Reads V → Registry V × Result Error RebuildReport
  rebuild r reads =
      elim (for_each_log (λ _ entries t. apply_all t entries) reads empty_report empty_tables) [
        | ok (report, t) ↦ (record r { connection = t }, ok report)
        | err error ↦ (r, err error)
      ]

  -- `open`: a database with an older schema is read again from the logs beside it
  unfoldable pub open_registry :
      Database V → ℕ → Result Error (List (LogEntry V)) → Result Error (Database V × Registry V)
  open_registry db floor logs = do
    guard (leb 1 floor) (invalid_event alias_floor_not_positive)
    guard (leb db.user_version schema_version) (invalid_event schema_newer)
    let older = ltb db.user_version schema_version
    entries ← (if older && db.has_sessions then logs else ok [])
    tables ← apply_all (if older then empty_tables else db.tables) entries
    ok (
      record { user_version = schema_version; has_sessions = true; tables = tables },
      record { connection = tables; alias_floor = floor },
    )

-- `SELECT MAX(alias) FROM aliases`
unfoldable pub max_alias : List AliasRow → Option ℕ
max_alias [] = none
max_alias (r ∷ rs) = elim (max_alias rs) [ none ↦ some r.alias | some m ↦ some (max r.alias m) ]

module _ {V : Type 0} where
  unfoldable pub next_alias : Registry V → Result Error ℕ
  unfolding max_alias
  next_alias r = elim (max_alias r.connection.aliases) [
    | none ↦ ok r.alias_floor
    | some maximum ↦
        if ltb maximum i64_max
        then ok (max (maximum + 1) r.alias_floor)
        else err (invalid_event alias_range)
  ]
