-- ===== src/Registry/CatchUp/Held.antt =====
-- The entries of a log that the index of `catch_up` holds, and those that it lacks.
use dotfile.Prelude.{
  ℕ, false, true, Option, none, some, String, List, [], ◌∷◌, ◌++◌, ok, ok_or, ◌>>=◌, ◌≡◌, ◌⊎◌, refl,
  sym, ap, ◌∙◌, inl, inr, >>=-ok, ok_or-some, str_eq, str_eq_iff, Option-cases, Bool-cases, drop,
  All, arith, if◌then◌else◌, ◌==◌,
}
use dotfile.Entry.{LogEntry, LogRead}
use dotfile.External.{UlidText, External}
use dotfile.Registry.Schema.{AppliedRow, Tables, json}
use dotfile.Registry.Apply.{apply_entry, apply_all, max_seq}
use dotfile.Registry.Steps.{applied_row, apply_new_lem, apply_entry_cases}
use dotfile.Registry.Index.{Step-applied}
use dotfile.Registry.Store.{Reads}
use dotfile.Registry.CatchUp.{applied_count, last_applied, entry_at}

module _ {V : Type 0} where
  abbrev pub seq_of : Option (AppliedRow V) → ℕ
  seq_of none = 0
  seq_of (some row) = row.seq

  pub seq_of-last_applied :
      (session : ℕ) (rows : List (AppliedRow V))
      → seq_of (last_applied session rows) ≡ max_seq session rows
  unfolding last_applied max_seq
  seq_of-last_applied session [] = refl
  seq_of-last_applied session (r ∷ rs) = elim (Bool-cases (r.session_id == session)) [
    | inr other ↦ rw other (seq_of-last_applied session rs)
    | inl own ↦ elim (Option-cases (last_applied session rs)) [
      | inl none_left ↦
          rw (own, none_left)
            (let rest : 0 ≡ max_seq session rs =
                ap seq_of (sym none_left) ∙ seq_of-last_applied session rs in
              ground (arith, rest))
      | inr (q, found) ↦
          let rest : q.seq ≡ max_seq session rs =
            ap seq_of (sym found) ∙ seq_of-last_applied session rs in
          rw (own, found) (ground (arith, rest))
    ]
  ]

-- the entry with the number of a session's last row, and the row's own, serialize as the same text
module _ {V : Type 0} ⦃u : UlidText⦄ ⦃x : External V⦄ where
  open x use {serialize}

  abbrev pub Begins : Option (AppliedRow V) → List (LogEntry V) → Type 0
  Begins none entries = Unit
  Begins (some row) entries =
      (e : LogEntry V) × (text : String) × (entry_at entries row.seq ≡ some e)
      × (serialize e ≡ some text)
      × (serialize row.entry ≡ some text)

  pub applied_count-Begins :
      (last : Option (AppliedRow V)) (entries : List (LogEntry V)) (count : Option ℕ)
      → applied_count last entries ≡ ok count
      → ((count ≡ none) × ¬ Begins last entries)
        ⊎ ((count ≡ some (seq_of last)) × Begins last entries)
  unfolding applied_count
  applied_count-Begins none entries count h = inr (ground arith, tt)
  applied_count-Begins (some row) entries count h = elim (Option-cases (entry_at entries row.seq)) [
    | inl beyond ↦ inl (ground arith, λ (e, text, at, _, _). cc)
    | inr (e, at) ↦
        let h₀ : (ok_or (serialize e) json >>= λ text.
        ok_or (serialize row.entry) json >>= λ indexed.
        ok (if str_eq text indexed then some row.seq else none))
            ≡ ok count =
          ground arith in
        let (text, made, h₁) = >>=-ok (ok_or (serialize e) json) _ h₀ in
        let (indexed, kept, h₂) = >>=-ok (ok_or (serialize row.entry) json) _ h₁ in
        let written = ok_or-some (serialize e) json made in
        let stored = ok_or-some (serialize row.entry) json kept in
        elim (Bool-cases (str_eq text indexed)) [
          | inl same ↦ inr (
            ground arith,
            (e, text, at, written, stored ∙ ap some (sym ((str_eq_iff text indexed).0 same))),
          )
          | inr other ↦ inl (
            ground arith,
            λ (e', text', at', written', stored').
                let same : text ≡ indexed = cc in
                let equal : str_eq text indexed ≡ true = (str_eq_iff text indexed).1 same in cc,
          )
        ]
  ]

  -- an entry's row comes first, if it was not there before
  apply_entry-applied :
      (t t' : Tables V) (e : LogEntry V)
      → apply_entry t e ≡ ok t'
      → (t'.applied ≡ t.applied) ⊎ (t'.applied ≡ applied_row e ∷ t.applied)
  apply_entry-applied t t' e h = elim (apply_entry_cases t t' e h) [
    | inl (same, _) ↦ inl (ap (λ s. s.applied) same)
    | inr (_, applied) ↦
        let (t₁, t₂, _, first, second, q) = apply_new_lem t t' e applied in
        let same = Step-applied e t₁ t₂ second ∙ Step-applied e t t₁ first in
        inr (ap (λ s. s.applied) q ∙ ap (λ rows. applied_row e ∷ rows) same)
  ]

  last_applied-other :
      (e : LogEntry V) (rows : List (AppliedRow V)) (session : ℕ)
      → (e.session_id == session) ≡ false
      → last_applied session (applied_row e ∷ rows) ≡ last_applied session rows
  unfolding last_applied
  last_applied-other e rows session h = rw h refl

  -- entries of other sessions leave a session's last row
  pub apply_all-last_applied :
      (t t' : Tables V) (es : List (LogEntry V)) (session : ℕ)
      → All (λ e. (e.session_id == session) ≡ false) es
      → apply_all t es ≡ ok t'
      → last_applied session t'.applied ≡ last_applied session t.applied
  unfolding apply_all
  apply_all-last_applied t t' [] session others h =
      let same : t' ≡ t = ground arith in ap (λ s. last_applied session s.applied) same
  apply_all-last_applied t t' (e ∷ es) session others h =
      let (mid, first, rest) = >>=-ok (apply_entry t e) _ h in
      let later = apply_all-last_applied mid t' es session others.1 rest in
      elim (apply_entry-applied t mid e first) [
        | inl same ↦ later ∙ ap (last_applied session) same
        | inr new ↦
            later ∙ ap (last_applied session) new ∙ last_applied-other e t.applied session others.0
      ]

module _ {V : Type 0} where
  -- the sessions of the logs are distinct, and a log has its own session's entries
  abbrev pub IsOwn : ℕ → Option (LogRead V) → Type 0
  IsOwn session none = Unit
  IsOwn session (some read) = All (λ e. e.session_id ≡ session) read.entries

  abbrev pub AreLogs : Reads V → Type 0
  AreLogs [] = Unit
  AreLogs ((session, read) ∷ reads) =
      IsOwn session read × All (λ other. (session == other.0) ≡ false) reads × AreLogs reads

  -- the entries that the tables lack: those of each log after the highest number of its session
  abbrev pub lacking : Tables V → Reads V → List (LogEntry V)
  lacking t [] = []
  lacking t ((session, none) ∷ reads) = lacking t reads
  lacking t ((session, some read) ∷ reads) =
      drop (max_seq session t.applied) read.entries ++ lacking t reads

module _ {V : Type 0} ⦃u : UlidText⦄ ⦃x : External V⦄ where
  -- every log begins with what the tables hold of its session
  abbrev pub AllBegin : Tables V → Reads V → Type 0
  AllBegin t [] = Unit
  AllBegin t ((session, none) ∷ reads) = AllBegin t reads
  AllBegin t ((session, some read) ∷ reads) =
      Begins (last_applied session t.applied) read.entries × AllBegin t reads
