-- ===== src/Log/Read/Tail.antt =====
-- The incremental reader against the verifying one.
use dotfile.Prelude.{
  ℕ, ◌+◌, false, Option, some, List, [], ◌∷◌, ◌++◌, ok, ok_or, ok_or-some, ok_unique, >>=-ok, ◌≡◌,
  refl, sym, ap, ◌∙◌, inl, inr, Bool-cases, length, arith, ltb,
}
use dotfile.Entry.{LogEntry, LogRead}
use dotfile.Log.Values.{Value, Codec, entry_hash, invalid_data, bad_json, bad_hash}
use dotfile.Log.Lines.{split_lines, ends_with_newline}
use dotfile.Log.Read.{
  Reading, nothing_read, push_line, read_lines, read_file, fault_of, refuse, as_fault, to_read,
  LogTail, parse_entry, deserialize_parsed, tail_lines, read_after,
}
use dotfile.Log.Read.Prefix.{read_lines-line}

module _ {N : Type 0} ⦃c : Codec N⦄ where
  open c use {from_slice, deserialize}

  abbrev tail_of : Reading N → LogTail N
  tail_of s = record { entries = s.entries; offset = s.valid_bytes; restarted = false }

  parse_entry-some :
      (l : List ℕ) (v : Value N) (e : LogEntry (Value N))
      → from_slice l ≡ some v
      → deserialize v ≡ some e
      → parse_entry l ≡ some e
  parse_entry-some l v e parsed read = ap deserialize_parsed parsed ∙ read

  push_line-parse_entry :
      (session : ℕ) (s s' : Reading N) (l : List ℕ)
      → push_line session s l ≡ ok s'
      → (e : LogEntry (Value N)) × (parse_entry l ≡ some e)
        × (record {
          entries = s.entries ++ e ∷ [];
          offset = s.valid_bytes + length l;
          restarted = false;
        }
            ≡ tail_of s')
  unfolding push_line
  push_line-parse_entry session s s' l h =
      let (v, parsed, h₁) = >>=-ok (ok_or (from_slice l) (invalid_data bad_json)) _ h in
      let (e, read, h₂) = >>=-ok (ok_or (deserialize v) (invalid_data bad_json)) _ h₁ in
      let (_, _, h₃) = >>=-ok (refuse (fault_of session s e)) _ h₂ in
      let (hash, _, h₄) = >>=-ok (as_fault bad_hash (entry_hash v)) _ h₃ in
      (
        e,
        parse_entry-some l v e (ok_or-some (from_slice l) _ parsed)
            (ok_or-some (deserialize v) _ read),
        ap tail_of (ok_unique _ refl h₄),
      )

  tail_lines-read_lines :
      (session : ℕ) (s s' : Reading N) (ls : List (List ℕ)) (truncated : Option ℕ)
      → read_lines session s ls ≡ ok (s', truncated)
      → tail_lines (tail_of s) ls ≡ ok (tail_of s')
  unfolding read_lines tail_lines
  tail_lines-read_lines session s s' [] truncated h =
      let same : s ≡ s' = ground arith in ap (λ x. ok (tail_of x)) same
  tail_lines-read_lines session s s' (l ∷ ls) truncated h =
      elim (Bool-cases (ends_with_newline l)) [
        | inr part ↦ let same : s ≡ s' = ground arith in rw part (ap (λ x. ok (tail_of x)) same)
        | inl whole ↦
            let (mid, pushed, h') =
              >>=-ok (push_line session s l) _ (sym (read_lines-line session s l ls whole) ∙ h) in
            let (e, parsed, next) = push_line-parse_entry session s mid l pushed in
            rw (whole, parsed, next) (tail_lines-read_lines session mid s' ls truncated h')
      ]

  -- On a log that `read_file` accepts, the reader of new entries started at 0 gives the same
  -- entries, stops where the complete lines end, and reports no restart.
  pub read_after-read_file :
      (session : ℕ) (bs : List ℕ) (r : LogRead (Value N))
      → read_file session bs ≡ ok r
      → read_after (some bs) 0
        ≡ ok (record { entries = r.entries; offset = r.valid_bytes; restarted = false })
  unfolding read_file read_after
  read_after-read_file session bs r h =
      let ((s, truncated), lines, made) =
        >>=-ok (read_lines session nothing_read (split_lines bs)) _ h in
      let same : to_read (s, truncated) ≡ r = ground arith in
      let start : ltb (length bs) 0 ≡ false = ground arith in
      rw start (
        tail_lines-read_lines session nothing_read s (split_lines bs) truncated lines
        ∙ ap (λ x. ok (record { entries = x.entries; offset = x.valid_bytes; restarted = false }))
            same)
