-- ===== src/Log/Read/Chain.antt =====
-- The hash chain that `read_file` checks.
use dotfile.Prelude.{
  ℕ, ◌+◌, ◌≤◌, String, Option, none, some, Result, err, List, [], ◌∷◌, ◌++◌, ok, ok_or, ok_or-some,
  >>=-ok, ◌≡◌, refl, sym, ◌∙◌, subst, inl, inr, Bool-cases, length, arith, str_eq_iff,
}
use dotfile.Entry.{LogEntry, LogRead}
use dotfile.Log.Values.{Value, Codec, IoError, Fault, entry_hash, invalid_data, bad_json, bad_hash}
use dotfile.Log.Lines.{split_lines, ends_with_newline}
use dotfile.Log.Read.{
  Reading, nothing_read, push_line, read_lines, read_file, fault_of, refuse, as_fault, to_read,
}
use dotfile.Log.Read.Prefix.{read_lines-line}

-- Entries that may stand in a log, with the hash and the epoch of the last one: each is of the
-- session, carries its own number and the hash of the one before it, and is not older in epoch.
pub data Chain {N : Type 0} (c : Codec N) (session : ℕ)
    : List (LogEntry (Value N)) → String → ℕ → Type 0 where
  chain_start : Chain c session [] "" 0
  chain_next :
      {es : List (LogEntry (Value N))} {hash : String} {epoch : ℕ} {v : Value N}
      {e : LogEntry (Value N)} {hash' : String}
      → Chain c session es hash epoch
      → c.deserialize v ≡ some e
      → e.session_id ≡ session
      → e.seq ≡ length es + 1
      → e.prev_hash ≡ hash
      → epoch ≤ e.epoch
      → entry_hash ⦃c = c⦄ v ≡ ok hash'
      → Chain c session (es ++ e ∷ []) hash' e.epoch

refuse-none : (fault : Option Fault) {u : Unit {0}} → refuse fault ≡ ok u → fault ≡ none
refuse-none none h = refl
refuse-none (some fault) h = cc

as_fault-ok :
    {A : Type 0} (fault : Fault) (r : Result IoError A) {a : A} → as_fault fault r ≡ ok a → r ≡ ok a
as_fault-ok fault (err error) h = cc
as_fault-ok fault (ok a) h = h

module _ {N : Type 0} ⦃c : Codec N⦄ where
  open c use {from_slice, deserialize}

  fault_of-none :
      (session : ℕ) (s : Reading N) (e : LogEntry (Value N))
      → fault_of session s e ≡ none
      → (e.session_id ≡ session)
        × (e.seq ≡ length s.entries + 1)
        × (e.prev_hash ≡ s.head_hash)
        × (s.epoch ≤ e.epoch)
  unfolding fault_of
  fault_of-none session s e h =
      (ground arith, ground arith, ground (arith, str_eq_iff e.prev_hash s.head_hash), ground arith)

  abbrev Chained : ℕ → Reading N → Type 0
  Chained session s = Chain c session s.entries s.head_hash s.epoch

  push_line-Chained :
      (session : ℕ) (s s' : Reading N) (l : List ℕ)
      → Chained session s
      → push_line session s l ≡ ok s'
      → Chained session s'
  unfolding push_line
  push_line-Chained session s s' l chain h =
      let (v, _, h₁) = >>=-ok (ok_or (from_slice l) (invalid_data bad_json)) _ h in
      let (e, read, h₂) = >>=-ok (ok_or (deserialize v) (invalid_data bad_json)) _ h₁ in
      let (_, fine, h₃) = >>=-ok (refuse (fault_of session s e)) _ h₂ in
      let (hash, hashed, h₄) = >>=-ok (as_fault bad_hash (entry_hash v)) _ h₃ in
      let (owner, seq, prev, epoch) =
        fault_of-none session s e (refuse-none (fault_of session s e) fine) in
      let same : record {
        entries = s.entries ++ e ∷ [];
        valid_bytes = s.valid_bytes + length l;
        head_hash = hash;
        epoch = e.epoch;
      }
          ≡ s' =
        ground arith in
      subst (Chained session) same (
        chain_next chain (ok_or-some (deserialize v) _ read) owner seq prev epoch
          (as_fault-ok bad_hash (entry_hash v) hashed))

  read_lines-Chained :
      (session : ℕ) (s s' : Reading N) (ls : List (List ℕ)) (truncated : Option ℕ)
      → Chained session s
      → read_lines session s ls ≡ ok (s', truncated)
      → Chained session s'
  unfolding read_lines
  read_lines-Chained session s s' [] truncated chain h =
      let same : s ≡ s' = ground arith in subst (Chained session) same chain
  read_lines-Chained session s s' (l ∷ ls) truncated chain h =
      elim (Bool-cases (ends_with_newline l)) [
        | inr part ↦ let same : s ≡ s' = ground arith in subst (Chained session) same chain
        | inl whole ↦
            let (mid, pushed, h') =
              >>=-ok (push_line session s l) _ (sym (read_lines-line session s l ls whole) ∙ h) in
            read_lines-Chained session mid s' ls truncated
              (push_line-Chained session s mid l chain pushed) h'
      ]

  -- What `read_file` accepts is a chain: every entry is of the session, has its own number and the
  -- hash of the entry before it, and an epoch that is not older; the head hash is the last entry's.
  pub read_file-Chain :
      (session : ℕ) (bs : List ℕ) (r : LogRead (Value N))
      → read_file session bs ≡ ok r
      → (epoch : ℕ) × Chain c session r.entries r.head_hash epoch
  unfolding read_file
  read_file-Chain session bs r h =
      let ((s, truncated), lines, made) =
        >>=-ok (read_lines session nothing_read (split_lines bs)) _ h in
      let chain =
        read_lines-Chained session nothing_read s (split_lines bs) truncated chain_start lines in
      let same : to_read (s, truncated) ≡ r = ground arith in
      (s.epoch, subst (λ x. Chain c session x.entries x.head_hash s.epoch) same chain)
