-- ===== src/Registry/CatchUp/Index.antt =====
-- What `catch_up` leaves of the index.
use dotfile.Prelude.{true, Option, none, some, Result, ok, err, ◌≡◌, ◌⊎◌, length, all}
use dotfile.External.{UlidText, External}
use dotfile.Registry.Schema.{Error}
use dotfile.Registry.Apply.{apply_all}
use dotfile.Registry.Index.{Indexed}
use dotfile.Registry.Store.{Registry, RebuildReport, Reads}
use dotfile.Registry.Store.Rebuild.{all_entries}
use dotfile.Registry.CatchUp.Held.{lacking, AllBegin}
use dotfile.Registry.CatchUp.{is_logged}

module _ {V : Type 0} ⦃u : UlidText⦄ ⦃x : External V⦄ where
  -- every row of the index has a log, and every log begins with the rows of its session
  abbrev pub IsPrefix : Registry V → Reads V → Type 0
  IsPrefix r reads =
      (all (is_logged reads) r.connection.applied ≡ true) × AllBegin r.connection reads

  -- the registry is as it was, and nothing is reported
  abbrev pub Unchanged :
      {S : Type 0}
      → Registry V
      → Reads V
      → Registry V × Result Error (Option (RebuildReport × S))
      → Type 0
  Unchanged {S} r reads outcome =
      (outcome.0 ≡ r)
      × (((outcome.1 ≡ ok none) × ¬ IsPrefix r reads) ⊎ ((e : Error) × (outcome.1 ≡ err e)))

  -- the entries that the index lacked are applied, and the report counts every entry of every log
  abbrev pub CaughtUp :
      {S : Type 0}
      → Registry V
      → Reads V
      → Registry V × Result Error (Option (RebuildReport × S))
      → Type 0
  CaughtUp {S} r reads outcome =
      (report : RebuildReport) × (s : S) × (outcome.1 ≡ ok (some (report, s)))
      × (report.events ≡ length (all_entries reads))
      × IsPrefix r reads
      × (apply_all r.connection (lacking r.connection reads) ≡ ok outcome.0.connection)
      × Indexed outcome.0.connection
      × (outcome.0.alias_floor ≡ r.alias_floor)
