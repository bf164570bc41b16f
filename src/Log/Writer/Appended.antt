-- ===== src/Log/Writer/Appended.antt =====
-- What the bytes written after the complete lines of a file do to what is read of it.
use mathlib.Core.List.{append-nil}
use dotfile.Prelude.{
  ℕ, zero, suc, ◌+◌, ◌≤◌, subst, Option, none, some, List, [], ◌∷◌, ◌++◌, ok, >>=-ok, ◌≡◌, refl,
  sym, ap, ◌∙◌, inl, inr, Bool-cases, All, length, length-append, drop, arith, ◌==◌, if◌then◌else◌,
}
use dotfile.Entry.{LogEntry, LogRead}
use dotfile.Log.Values.{Value, Codec}
use dotfile.Log.Lines.{IsLine, NoNewline, concat, concat-append}
use dotfile.Log.Lines.{split_lines, split_lines-concat, split_lines-one, split_lines-part}
use dotfile.Log.Lines.{concat-split_lines, split_lines-IsLine, ends_with_newline-IsLine}
use dotfile.Log.Lines.{ends_with_newline, ends_with_newline-part}
use dotfile.Log.Read.{Reading, nothing_read, push_line, read_lines, read_file, to_read}
use dotfile.Log.Read.Prefix.{read_lines-line, push_line_lem, read_lines-prefix, read_lines-append}
use dotfile.Log.Writer.{set_len, write_at, last_epoch, LogFile, WriterHead, NewLine, Outcome}
use dotfile.Log.Writer.{write_line, written_part}

set_len-append : (xs ys : List ℕ) → set_len (length xs) (xs ++ ys) ≡ xs
unfolding set_len
set_len-append [] ys = refl
set_len-append (x ∷ xs) ys = ap (λ l. x ∷ l) (set_len-append xs ys)

drop-end : (xs : List ℕ) (n : ℕ) → length xs ≤ n → drop n xs ≡ []
drop-end [] zero h = refl
drop-end [] (suc n) h = refl
drop-end (x ∷ xs) zero h = absurd (omega arith)
drop-end (x ∷ xs) (suc n) h = drop-end xs n (omega arith)

write_at-end : (xs new : List ℕ) → write_at (length xs) new xs ≡ xs ++ new
unfolding write_at
write_at-end xs new =
    rw
      (
        ap (set_len (length xs)) (sym (append-nil xs)) ∙ set_len-append xs [],
        drop-end xs (length xs + length new) (omega arith),
      )
      (append-nil (xs ++ new))

append-same_length : (xs ys : List ℕ) → length (xs ++ ys) ≡ length xs → xs ++ ys ≡ xs
append-same_length xs [] h = append-nil xs
append-same_length xs (y ∷ ys) h = absurd (omega (arith, length-append xs (y ∷ ys)))

-- the file before the write: its complete lines
kept_bytes :
    (size valid : ℕ) (whole rest : List ℕ)
    → size ≡ length (whole ++ rest)
    → valid ≡ length whole
    → (if size == valid then whole ++ rest else set_len valid (whole ++ rest)) ≡ whole
kept_bytes size valid whole rest h v = elim (Bool-cases (size == valid)) [
  | inl same ↦ rw same (append-same_length whole rest (ground arith))
  | inr differs ↦ rw (differs, v) (set_len-append whole rest)
]

-- the write goes after the complete lines, whatever stood there
pub write_line-bytes :
    (f : LogFile) (previous : WriterHead) (line : NewLine) (o : Outcome) (whole rest : List ℕ)
    → f.bytes ≡ whole ++ rest
    → previous.valid_bytes ≡ length whole
    → previous.stamp.size ≡ length f.bytes
    → (write_line f previous line o).bytes ≡ whole ++ written_part o.written line.bytes
unfolding write_line
write_line-bytes f previous line o whole rest split valid size =
    rw
      (
        split,
        kept_bytes previous.stamp.size previous.valid_bytes whole rest (size ∙ ap length split)
            valid,
        valid,
      )
      (write_at-end whole (written_part o.written line.bytes))

module _ {V : Type 0} where
  pub last_epoch-append :
      (es : List (LogEntry V)) (e : LogEntry V) → last_epoch (es ++ e ∷ []) ≡ e.epoch
  unfolding last_epoch
  last_epoch-append [] e = refl
  last_epoch-append (x ∷ []) e = refl
  last_epoch-append (x ∷ y ∷ es) e = last_epoch-append (y ∷ es) e

module _ {N : Type 0} ⦃c : Codec N⦄ where
  read_lines-last_epoch :
      (session : ℕ) (s s' : Reading N) (ls : List (List ℕ)) (truncated : Option ℕ)
      → s.epoch ≡ last_epoch s.entries
      → read_lines session s ls ≡ ok (s', truncated)
      → s'.epoch ≡ last_epoch s'.entries
  unfolding read_lines
  read_lines-last_epoch session s s' [] truncated q h =
      let same : s ≡ s' = ground arith in subst (λ x. x.epoch ≡ last_epoch x.entries) same q
  read_lines-last_epoch session s s' (l ∷ ls) truncated q h =
      elim (Bool-cases (ends_with_newline l)) [
        | inr part ↦
            let same : s ≡ s' = ground arith in subst (λ x. x.epoch ≡ last_epoch x.entries) same q
        | inl whole ↦
            let (mid, pushed, h') =
              >>=-ok (push_line session s l) _ (sym (read_lines-line session s l ls whole) ∙ h) in
            let (_, e, grown, _, at) = push_line_lem session s mid l pushed in
            read_lines-last_epoch session mid s' ls truncated
              (at ∙ sym (ap last_epoch grown ∙ last_epoch-append s.entries e)) h'
      ]

  -- The state that a readable file leaves, and the complete lines that it is read from.
  pub read_file_lem :
      (session : ℕ) (bs : List ℕ) (r : LogRead (Value N))
      → read_file session bs ≡ ok r
      → (cs : List (List ℕ)) × (rest : List ℕ) × (s : Reading N) × All IsLine cs
        × (bs ≡ concat cs ++ rest)
        × (read_lines session nothing_read cs ≡ ok (s, none))
        × (r.entries ≡ s.entries)
        × (r.head_hash ≡ s.head_hash)
        × (r.valid_bytes ≡ s.valid_bytes)
        × (r.valid_bytes ≡ length (concat cs))
        × (s.epoch ≡ last_epoch s.entries)
  unfolding read_file last_epoch
  read_file_lem session bs r h =
      let ((s, truncated), lines, made) =
        >>=-ok (read_lines session nothing_read (split_lines bs)) _ h in
      let (cs, rest, split, complete, again, bytes) =
        read_lines-prefix session nothing_read s (split_lines bs) truncated (split_lines-IsLine bs)
          lines in
      let valid : r.valid_bytes ≡ s.valid_bytes = ground arith in
      (
        cs,
        concat rest,
        s,
        complete,
        sym (concat-split_lines bs) ∙ ap concat split ∙ concat-append cs rest,
        again,
        ground arith,
        ground arith,
        valid,
        omega (arith, bytes, valid),
        read_lines-last_epoch session nothing_read s cs none refl again,
      )

  module _ (session : ℕ) (cs : List (List ℕ)) (s : Reading N) (complete : All IsLine cs)
      (lines : read_lines session nothing_read cs ≡ ok (s, none)) where
    -- a whole line is read as the next
    pub read_file-line :
        (l : List ℕ) (s' : Reading N)
        → IsLine l
        → push_line session s l ≡ ok s'
        → read_file session (concat cs ++ l) ≡ ok (to_read (s', none))
    unfolding read_file read_lines
    read_file-line l s' line pushed =
        rw
          (
            split_lines-concat cs l complete,
            split_lines-one l line,
            read_lines-append session nothing_read s cs (l ∷ []) complete lines,
            ends_with_newline-IsLine l line,
            pushed,
          )
          refl

    -- a part of a line leaves what was read as it was
    pub read_file-part :
        (p : List ℕ)
        → NoNewline p
        → (truncated : Option ℕ) × (read_file session (concat cs ++ p)
            ≡ ok (to_read (s, truncated)))
    unfolding read_file read_lines split_lines
    read_file-part [] part =
        (none, rw (split_lines-concat cs [] complete, append-nil cs, lines) refl)
    read_file-part (b ∷ bs) part = (
      some (length s.entries + 1),
      rw
          (
            split_lines-concat cs (b ∷ bs) complete,
            split_lines-part b bs part,
            read_lines-append session nothing_read s cs ((b ∷ bs) ∷ []) complete lines,
            ends_with_newline-part (b ∷ bs) part,
          )
          refl,
    )
