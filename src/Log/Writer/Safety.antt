-- ===== src/Log/Writer/Safety.antt =====
-- What an append does to what is read of the log, on success and after an error.
use dotfile.Prelude.{
  ℕ, ◌+◌, ◌≤◌, Option, none, some, List, [], ◌∷◌, ◌++◌, ok, ◌≡◌, ◌≢◌, refl, sym, ap, ◌∙◌, subst,
  inl, inr, ◌⊎◌, length, arith,
}
use dotfile.Entry.{LogEntry, LogRead}
use dotfile.Log.Values.{Value, Codec}
use dotfile.Log.Lines.{IsLine, NoNewline, newline, newline-IsLine, concat, take-line}
use dotfile.Log.Read.{read_file}
use dotfile.Log.Writer.{last_epoch, LogFile, Outcome, Prepared}
use dotfile.Log.Writer.{write_line, written_part, encode_entry}
use dotfile.Log.Writer.Appended.{write_line-bytes, read_file_lem, read_file-line, read_file-part}
use dotfile.Log.Writer.Heads.{Describes, CodecLaws}
use dotfile.Log.Writer.Heads.{encode_entry_lem, fault_of-next}

-- the entries are those of the first read, or those and one more
abbrev pub Extends : {V : Type 0} → LogRead V → LogRead V → Type 0
Extends {V} r r' =
    (r'.entries ≡ r.entries) ⊎ ((e : LogEntry V) × (r'.entries ≡ r.entries ++ e ∷ []))

-- a line that is written in part, or whole
written_part-line :
    (written : Option ℕ) (text : List ℕ)
    → NoNewline text
    → (written_part written (text ++ newline ∷ []) ≡ text ++ newline ∷ [])
      ⊎ (NoNewline (written_part written (text ++ newline ∷ [])) × (written ≢ none))
written_part-line none text h = inl refl
written_part-line (some n) text h = elim (take-line n text h) [
  | inl all ↦ inl all
  | inr part ↦ inr (part, λ q. cc)
]

module _ {N : Type 0} ⦃c : Codec N⦄ (laws : CodecLaws c) (session : ℕ) (f : LogFile)
    (p : Prepared N) (r : LogRead (Value N)) (d : Describes c session p.previous f r)
    (encoded : encode_entry p.entry ≡ ok p.line) (owner : p.entry.session_id ≡ session)
    (seq : p.entry.seq ≡ p.previous.seq + 1) (prev : p.entry.prev_hash ≡ p.previous.hash)
    (epoch : p.previous.epoch ≤ p.entry.epoch) where
  -- what is read after the new line
  abbrev pub appended : LogRead (Value N)
  appended = record {
    entries = r.entries ++ p.entry ∷ [];
    truncated_line = none;
    valid_bytes = p.previous.valid_bytes + length p.line.bytes;
    head_hash = p.line.hash;
  }

  -- the complete lines of the file, and what the new line, or a part of it, makes of them
  pub write_line_lem :
      (o : Outcome)
      → (r' : LogRead (Value N)) × (read_file session (write_line f p.previous p.line o).bytes
          ≡ ok r')
        × Extends r r'
        × (o.written ≡ none → r' ≡ appended)
  write_line_lem o =
      let (cs, rest, s, complete, split, lines, entries, hash, same, valid, at) =
        read_file_lem session f.bytes r d.readable in
      let bytes =
        write_line-bytes f p.previous p.line o (concat cs) rest split (d.valid_bytes ∙ valid)
          d.size in
      let fine =
        fault_of-next session s p.entry owner (seq ∙ ap (λ n. n + 1) (d.seq ∙ ap length entries))
          (prev ∙ d.hash ∙ hash) (omega (arith, epoch, at, d.epoch ∙ ap last_epoch entries)) in
      let (text, single, line, pushed) =
        encode_entry_lem laws session s p.entry p.line encoded fine in
      let whole : read_file session (concat cs ++ p.line.bytes) ≡ ok appended =
        read_file-line session cs s complete lines p.line.bytes _
          (subst IsLine (sym line) (newline-IsLine text single)) pushed
        ∙ rw (entries, d.valid_bytes, same) refl in
      elim (written_part-line o.written text single) [
        | inl all ↦ (
          appended,
          ap (read_file session) (
                bytes
                ∙ ap (λ l. concat cs ++ l) (ap (written_part o.written) line ∙ all ∙ sym line))
              ∙ whole,
          inr (p.entry, refl),
          λ _. refl,
        )
        | inr (part, cut) ↦
            let (truncated, readable) = read_file-part session cs s complete lines _ part in
            (
              _,
              ap (read_file session)
                    (bytes ∙ ap (λ l. concat cs ++ l) (ap (written_part o.written) line))
                  ∙ readable,
              inl (sym entries),
              λ all. absurd (cut all),
            )
      ]
