-- ===== src/Registry/Store/Rebuild.antt =====
-- A rebuild is the application of every log to empty tables, or it changes nothing.
use dotfile.Prelude.{
  ◌+◌, none, some, List, [], ◌∷◌, ◌++◌, ok, err, ◌≡◌, ◌⊎◌, refl, sym, ap, ◌∙◌, inl, inr, ◌>>=◌,
  >>=-ok, >>=_congr, >>=_assoc, Result-cases, subst, length, length-append, arith,
}
use dotfile.Entry.{LogEntry}
use dotfile.External.{UlidText, External}
use dotfile.Registry.Schema.{Tables, Error}
use dotfile.Registry.Apply.{apply_entry, apply_all, empty_tables}
use dotfile.Registry.Index.{Indexed, apply_all-Indexed}
use dotfile.Registry.Store.{
  Registry, RebuildReport, Reads, for_each_log, empty_report, add_read, rebuild,
}

module _ {V : Type 0} where
  -- the entries of all logs, in the order in which the logs were read
  abbrev pub all_entries : Reads V → List (LogEntry V)
  all_entries [] = []
  all_entries ((session, none) ∷ reads) = all_entries reads
  all_entries ((session, some read) ∷ reads) = read.entries ++ all_entries reads

module _ {V : Type 0} ⦃u : UlidText⦄ ⦃x : External V⦄ where
  pub apply_all-append :
      (t : Tables V) (es fs : List (LogEntry V))
      → apply_all t (es ++ fs) ≡ (apply_all t es >>= λ s. apply_all s fs)
  unfolding apply_all
  apply_all-append t [] fs = refl
  apply_all-append t (e ∷ es) fs =
      >>=_congr (apply_entry t e) _ (λ s. apply_all s es >>= λ s'. apply_all s' fs)
        (λ s. apply_all-append s es fs)
      ∙ sym (>>=_assoc (apply_entry t e) (λ s. apply_all s es) (λ s. apply_all s fs))

  rebuild_loop :
      (reads : Reads V) (report report' : RebuildReport) (t t' : Tables V)
      → for_each_log (λ _ entries s. apply_all s entries) reads report t ≡ ok (report', t')
      → (apply_all t (all_entries reads) ≡ ok t')
        × (report'.events ≡ report.events + length (all_entries reads))
  unfolding for_each_log apply_all
  rebuild_loop [] report report' t t' h = (ground arith, ground arith)
  rebuild_loop ((session, none) ∷ reads) report report' t t' h = cc
  rebuild_loop ((session, some read) ∷ reads) report report' t t' h =
      let (mid, first, rest) = >>=-ok (apply_all t read.entries) _ h in
      let (all, events) = rebuild_loop reads (add_read session read report) report' mid t' rest in
      (
        apply_all-append t read.entries (all_entries reads)
            ∙ ap (λ r. r >>= λ s. apply_all s (all_entries reads)) first
            ∙ all,
        omega (arith, events, length-append read.entries (all_entries reads)),
      )

  -- A rebuild either fails and keeps the index as it was, or succeeds and the index is that of all
  -- entries of all logs, in the order read, applied to empty tables: whatever the index held before
  -- is gone, every entry is counted, and the new index is well formed.
  pub rebuild_lem :
      (r : Registry V) (reads : Reads V)
      → ((error : Error) × ((rebuild r reads).1 ≡ err error) × ((rebuild r reads).0 ≡ r))
        ⊎ ((report : RebuildReport) × ((rebuild r reads).1 ≡ ok report)
            × (apply_all empty_tables (all_entries reads) ≡ ok (rebuild r reads).0.connection)
            × (report.events ≡ length (all_entries reads))
            × ((rebuild r reads).0.alias_floor ≡ r.alias_floor)
            × Indexed (rebuild r reads).0.connection)
  unfolding rebuild
  rebuild_lem r reads =
      elim (Result-cases
        (for_each_log (λ _ entries s. apply_all s entries) reads empty_report empty_tables)) [
          | inr (error, h) ↦ inl (error, ground arith, ground arith)
          | inl ((report, t), h) ↦
              let (all, events) = rebuild_loop reads empty_report report empty_tables t h in
              let q : (rebuild r reads).0.connection ≡ t = ground arith in
              inr (
                report,
                ground arith,
                all ∙ ap ok (sym q),
                omega (arith, events),
                ground arith,
                subst Indexed (sym q) (apply_all-Indexed t (all_entries reads) all),
              )
        ]
