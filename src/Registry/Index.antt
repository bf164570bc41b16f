-- ===== src/Registry/Index.antt =====
-- The index as a whole, after any number of entries: the tables' invariant, and for each session
-- the sequence numbers 1 to n, each once.
use dotfile.Prelude.{
  ℕ, zero, suc, ◌+◌, ◌≤◌, true, false, none, List, [], ◌∷◌, ok, ◌≡◌, refl, sym, ap, ◌∙◌, subst,
  ◌==◌, inl, inr, count, count-any, find-any, any, if◌then◌else◌, >>=-ok, arith,
}
use dotfile.Entry.{LogEntry}
use dotfile.External.{UlidText, External}
use dotfile.Registry.Schema.{AppliedRow, Tables}
use dotfile.Registry.Apply.{apply_entry, apply_all, empty_tables, apply_new, max_seq, find_applied}
use dotfile.Registry.Step.{
  Step, idle, created, updated, workspace_created, workspace_changed, edges_changed, message_noted,
}
use dotfile.Registry.Steps.{applied_row, apply_new_lem, apply_entry_cases}
use dotfile.Registry.Invariant.{Inv, Step-Inv}

module _ {V : Type 0} where
  -- the sequence numbers of a session's rows, newest row first
  abbrev pub seqs : ℕ → List (AppliedRow V) → List ℕ
  seqs session [] = []
  seqs session (r ∷ rs) =
      let rest = seqs session rs in if r.session_id == session then r.seq ∷ rest else rest

-- n, n - 1, …, 1
abbrev pub countdown : ℕ → List ℕ
countdown zero = []
countdown (suc n) = suc n ∷ countdown n

module _ {V : Type 0} where
  pub record Indexed (t : Tables V) : Type 0 where
    pub tables : Inv t
    pub event_once : (id : ℕ) → count (λ r. r.event_id == id) t.applied ≤ 1
    pub no_gap : (session : ℕ) → seqs session t.applied ≡ countdown (max_seq session t.applied)

  pub Step-applied : (e : LogEntry V) (t t' : Tables V) → Step e t t' → t'.applied ≡ t.applied
  Step-applied e t t' (idle q) = ap (λ s. s.applied) q
  Step-applied e t t' (created row alias own named pos free unused unnamed q) =
      ap (λ s. s.applied) q
  Step-applied e t t' (updated f keeps known q) = ap (λ s. s.applied) q
  Step-applied e t t' (workspace_created row own free q) = ap (λ s. s.applied) q
  Step-applied e t t' (workspace_changed id w p f found own keeps inside q) = ap (λ s. s.applied) q
  Step-applied e t t' (edges_changed es keeps q) = ap (λ s. s.applied) q
  Step-applied e t t' (message_noted es row f kinds keeps same q) = ap (λ s. s.applied) q

  count-event_fresh :
      (rows : List (AppliedRow V)) (s id : ℕ)
      → find_applied s rows ≡ none
      → (s == id) ≡ true
      → count (λ r. r.event_id == id) rows ≡ 0
  count-event_fresh rows s id h e =
      count-any (λ r. r.event_id == id) rows
        (subst (λ i. any (λ r. r.event_id == i) rows ≡ false) (ground arith)
          (find-any (λ r. r.event_id == s) rows h))

  max_seq-cons :
      (e : LogEntry V) (rows : List (AppliedRow V)) (session : ℕ)
      → e.seq ≡ max_seq e.session_id rows + 1
      → max_seq session (applied_row e ∷ rows)
        ≡ (if e.session_id == session then suc (max_seq session rows) else max_seq session rows)
  unfolding max_seq
  max_seq-cons e rows session h =
      ground (arith, λ (p : e.session_id ≡ session). ap (λ i. max_seq i rows) p)

  pub empty-Indexed : Indexed empty_tables
  unfolding max_seq
  empty-Indexed = record {
    tables = record {
      session_once = λ id. omega arith;
      one_alias = λ id. refl;
      alias_once = λ a. omega arith;
      alias_positive = refl;
      workspace_once = λ id. omega arith;
      message_once = λ id. omega arith;
      kinds = tt;
    };
    event_once = λ id. omega arith;
    no_gap = λ session. refl;
  }

  -- the new row, over tables whose other parts keep their invariant
  record-Indexed :
      (t t' : Tables V) (e : LogEntry V)
      → find_applied e.event_id t.applied ≡ none
      → e.seq ≡ max_seq e.session_id t.applied + 1
      → t'.applied ≡ applied_row e ∷ t.applied
      → Inv t'
      → Indexed t
      → Indexed t'
  record-Indexed t t' e new next q inv v = record {
    tables = inv;
    event_once =
        λ id. rw q (ground (arith, v.event_once id, count-event_fresh t.applied e.event_id id new));
    no_gap = λ session. rw q (
        ground (
          arith,
          v.no_gap session,
          max_seq-cons e t.applied session next,
          λ (p : e.session_id ≡ session). ap (λ i. max_seq i t.applied) p,
        ));
  }

module _ {V : Type 0} where
  with_applied-Inv :
      (t : Tables V) (rows : List (AppliedRow V)) → Inv t → Inv (record t { applied = rows })
  with_applied-Inv t rows v = record {
    session_once = v.session_once;
    one_alias = v.one_alias;
    alias_once = v.alias_once;
    alias_positive = v.alias_positive;
    workspace_once = v.workspace_once;
    message_once = v.message_once;
    kinds = v.kinds;
  }

module _ {V : Type 0} ⦃u : UlidText⦄ ⦃x : External V⦄ where
  apply_new-Indexed :
      (t t' : Tables V) (e : LogEntry V)
      → find_applied e.event_id t.applied ≡ none
      → apply_new t e ≡ ok t'
      → Indexed t
      → Indexed t'
  apply_new-Indexed t t' e new h v =
      let (t₁, t₂, next, first, second, q) = apply_new_lem t t' e h in
      let same = Step-applied e t₁ t₂ second ∙ Step-applied e t t₁ first in
      record-Indexed t t' e new next
        (ap (λ s. s.applied) q ∙ ap (λ rows. applied_row e ∷ rows) same)
        (subst Inv (sym q) (
          with_applied-Inv t₂ (applied_row e ∷ t₂.applied)
            (Step-Inv e t₁ t₂ second (Step-Inv e t t₁ first v.tables))))
        v

  -- An accepted entry keeps the index well formed.
  pub apply_entry-Indexed :
      (t t' : Tables V) (e : LogEntry V) → apply_entry t e ≡ ok t' → Indexed t → Indexed t'
  apply_entry-Indexed t t' e h v = elim (apply_entry_cases t t' e h) [
    | inl (same, _) ↦ subst Indexed (sym same) v
    | inr (new, applied) ↦ apply_new-Indexed t t' e new applied v
  ]

  -- entries keep a well-formed index well formed
  pub apply_all-Indexed_from :
      (t t' : Tables V) (es : List (LogEntry V)) → Indexed t → apply_all t es ≡ ok t' → Indexed t'
  unfolding apply_all
  apply_all-Indexed_from t t' [] v h = subst Indexed (ground arith) v
  apply_all-Indexed_from t t' (e ∷ es) v h =
      let (mid, first, rest) = >>=-ok (apply_entry t e) _ h in
      apply_all-Indexed_from mid t' es (apply_entry-Indexed t mid e first v) rest

  -- The index that any entries leave, applied in any order to empty tables, is well formed: each
  -- session has one row and one alias, aliases are positive and distinct, workspace, message and
  -- event ids are distinct, edges have one of the three kinds, and the events of each session are
  -- numbered 1, 2, … with no gap and no repetition.
  pub apply_all-Indexed :
      (t : Tables V) (es : List (LogEntry V)) → apply_all empty_tables es ≡ ok t → Indexed t
  apply_all-Indexed t es h = apply_all-Indexed_from empty_tables t es empty-Indexed h
