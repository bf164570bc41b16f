-- ===== src/Registry/CatchUp/Loop.antt =====
-- The loop of `catch_up` over the logs.
use dotfile.Prelude.{
  ℕ, Bool, if◌then◌else◌, true, false, none, some, List, [], ◌∷◌, Result, ok, ◌≡◌, ◌⊎◌, refl, sym,
  ap, ◌∙◌, subst, inl, inr, ◌>>=◌, >>=-ok, zero, suc, drop, All, ◌==◌, arith,
}
use dotfile.Entry.{LogEntry}
use dotfile.External.{UlidText, External}
use dotfile.Registry.Schema.{Tables, Error}
use dotfile.Registry.Apply.{apply_all, max_seq}
use dotfile.Registry.Store.{RebuildReport, Reads, for_each_log, add_read}
use dotfile.Registry.Store.Rebuild.{apply_all-append}
use dotfile.Registry.CatchUp.{
  Progress, catch_up_log, catch_up_each, applied_count, last_applied, visit_log,
}
use dotfile.Registry.CatchUp.Held.{
  seq_of, seq_of-last_applied, Begins, applied_count-Begins, apply_all-last_applied, AreLogs,
  lacking, AllBegin,
}

drop-All : {A : Type 0} (P : A → Type 0) (n : ℕ) (xs : List A) → All P xs → All P (drop n xs)
drop-All P zero xs all = all
drop-All P (suc n) [] all = tt
drop-All P (suc n) (x ∷ xs) all = drop-All P n xs all.1

then_taken :
    {A : Type 0} {a c : A} (test : Bool) (b : A) → test ≡ true → (if test then a else b) ≡ c → a ≡ c
then_taken true b t h = h
then_taken false b t h = absurd (grind arith)

else_taken :
    {A : Type 0} {b c : A} (test : Bool) (a : A)
    → test ≡ false
    → (if test then a else b) ≡ c
    → b ≡ c
else_taken false a t h = h
else_taken true a t h = absurd (grind arith)

other_session :
    {V : Type 0} (session other : ℕ) (es : List (LogEntry V))
    → All (λ e. e.session_id ≡ session) es
    → (session == other) ≡ false
    → All (λ e. (e.session_id == other) ≡ false) es
other_session session other [] own apart = tt
other_session session other (e ∷ es) own apart = (
  subst (λ s. (s == other) ≡ false) (sym own.0) apart,
  other_session session other es own.1 apart,
)

module _ {V S : Type 0} ⦃u : UlidText⦄ ⦃x : External V⦄
    (visit : S → List (LogEntry V) → Result Error S) where
  -- the tables' last rows of the sessions of the logs are those of the tables at the start
  abbrev pub Untouched : Tables V → Tables V → Reads V → Type 0
  Untouched t₀ t reads =
      All (λ read. last_applied read.0 t.applied ≡ last_applied read.0 t₀.applied) reads

  pub Untouched-start : (t : Tables V) (reads : Reads V) → Untouched t t reads
  Untouched-start t [] = tt
  Untouched-start t (read ∷ reads) = (refl, Untouched-start t reads)

  Untouched-apply_all :
      (t₀ t t' : Tables V) (es : List (LogEntry V)) (session : ℕ) (reads : Reads V)
      → All (λ e. e.session_id ≡ session) es
      → All (λ read. (session == read.0) ≡ false) reads
      → apply_all t es ≡ ok t'
      → Untouched t₀ t reads
      → Untouched t₀ t' reads
  Untouched-apply_all t₀ t t' es session [] own apart h same = tt
  Untouched-apply_all t₀ t t' es session ((other, read) ∷ reads) own apart h same = (
    apply_all-last_applied t t' es other (other_session session other es own apart.0) h ∙ same.0,
    Untouched-apply_all t₀ t t' es session reads own apart.1 h same.1,
  )

  catch_up_log-some :
      (entries : List (LogEntry V)) (p p' : Progress V S) (n : ℕ)
      → p.diverged ≡ false
      → catch_up_log visit entries p (some n) ≡ ok p'
      → (p'.diverged ≡ false) × (apply_all p.tables (drop n entries) ≡ ok p'.tables)
  unfolding catch_up_log
  catch_up_log-some entries p p' n going h =
      let (t, applied, h₁) = >>=-ok (apply_all p.tables (drop n entries)) _ h in
      let (s, _, h₂) = >>=-ok (visit_log visit entries p.visited) _ h₁ in
      let same : t ≡ p'.tables = ground arith in (ground arith, applied ∙ ap ok same)

  catch_up_log-none :
      (entries : List (LogEntry V)) (p p' : Progress V S)
      → catch_up_log visit entries p none ≡ ok p'
      → p'.diverged ≡ true
  unfolding catch_up_log
  catch_up_log-none entries p p' h = ground arith

  -- one log, while no other was found to differ
  catch_up_each_cases :
      (session : ℕ) (entries : List (LogEntry V)) (p p' : Progress V S)
      → p.diverged ≡ false
      → catch_up_each visit session entries p ≡ ok p'
      → ((p'.diverged ≡ true) × ¬ Begins (last_applied session p.tables.applied) entries)
        ⊎ ((p'.diverged ≡ false)
            × Begins (last_applied session p.tables.applied) entries
            × (apply_all p.tables (drop (seq_of (last_applied session p.tables.applied)) entries)
                ≡ ok p'.tables))
  unfolding catch_up_each
  catch_up_each_cases session entries p p' going h =
      let (count, counted, h₁) =
        >>=-ok (applied_count (last_applied session p.tables.applied) entries) _
          (else_taken p.diverged _ going h) in
      elim (applied_count-Begins (last_applied session p.tables.applied) entries count counted) [
        | inl (lost, differs) ↦ inl (
          catch_up_log-none entries p p'
              (subst (λ c. catch_up_log visit entries p c ≡ ok p') lost h₁),
          differs,
        )
        | inr (kept, begins) ↦
            let (going', applied) =
              catch_up_log-some entries p p' _ going
                (subst (λ c. catch_up_log visit entries p c ≡ ok p') kept h₁) in
            inr (going', begins, applied)
      ]

  -- once a log was found to differ, no other is applied
  loop_diverged :
      (reads : Reads V) (report report' : RebuildReport) (p p' : Progress V S)
      → p.diverged ≡ true
      → for_each_log (catch_up_each visit) reads report p ≡ ok (report', p')
      → p'.diverged ≡ true
  unfolding for_each_log catch_up_each
  loop_diverged [] report report' p p' lost h = ground arith
  loop_diverged ((session, none) ∷ reads) report report' p p' lost h = cc
  loop_diverged ((session, some read) ∷ reads) report report' p p' lost h =
      let (mid, first, rest) = >>=-ok (catch_up_each visit session read.entries p) _ h in
      let same : ok p ≡ ok mid = then_taken p.diverged _ lost first in
      loop_diverged reads (add_read session read report) report' mid p' (ground arith) rest

  pub loop_cases :
      (t₀ : Tables V) (reads : Reads V) (report report' : RebuildReport) (p p' : Progress V S)
      → AreLogs reads
      → Untouched t₀ p.tables reads
      → p.diverged ≡ false
      → for_each_log (catch_up_each visit) reads report p ≡ ok (report', p')
      → ((p'.diverged ≡ true) × ¬ AllBegin t₀ reads)
        ⊎ ((p'.diverged ≡ false)
            × AllBegin t₀ reads
            × (apply_all p.tables (lacking t₀ reads) ≡ ok p'.tables))
  unfolding for_each_log apply_all
  loop_cases t₀ [] report report' p p' logs same going h = inr (ground arith, tt, ground arith)
  loop_cases t₀ ((session, none) ∷ reads) report report' p p' logs same going h = cc
  loop_cases t₀ ((session, some read) ∷ reads) report report' p p' logs same going h =
      let (mid, first, rest) = >>=-ok (catch_up_each visit session read.entries p) _ h in
      elim (catch_up_each_cases session read.entries p mid going first) [
        | inl (lost, differs) ↦ inl (
          loop_diverged reads (add_read session read report) report' mid p' lost rest,
          λ all. differs (subst (λ last. Begins last read.entries) (sym same.0) all.0),
        )
        | inr (going', begins, applied) ↦
            let held = ap seq_of same.0 ∙ seq_of-last_applied session t₀.applied in
            let now : apply_all p.tables (drop (max_seq session t₀.applied) read.entries)
                ≡ ok mid.tables =
              subst (λ n. apply_all p.tables (drop n read.entries) ≡ ok mid.tables) held applied in
            let untouched =
              Untouched-apply_all t₀ p.tables mid.tables
                (drop (max_seq session t₀.applied) read.entries) session reads
                (drop-All (λ e. e.session_id ≡ session) (max_seq session t₀.applied) read.entries
                  logs.0)
                logs.1 now same.1 in
            elim (loop_cases t₀ reads (add_read session read report) report' mid p' logs.2 untouched
              going' rest) [
                | inl (lost, differs) ↦ inl (lost, λ all. differs all.1)
                | inr (kept, all, later) ↦ inr (
                  kept,
                  (subst (λ last. Begins last read.entries) same.0 begins, all),
                  apply_all-append p.tables (drop (max_seq session t₀.applied) read.entries)
                        (lacking t₀ reads)
                      ∙ ap (λ r. r >>= λ s. apply_all s (lacking t₀ reads)) now
                      ∙ later,
                )
              ]
      ]
