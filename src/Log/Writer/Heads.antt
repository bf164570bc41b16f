-- ===== src/Log/Writer/Heads.antt =====
-- The retained head of a log, and what `append_locked` has worked out when it begins to write.
use dotfile.Prelude.{
  Result, ℕ, ◌+◌, ◌≤◌, String, true, not, Option, none, some, List, [], ◌∷◌, ◌++◌, ok, err, ok_or,
  guard, guard-ok, >>=-ok, ◌≡◌, refl, sym, ap, ◌∙◌, subst, inl, inr, Bool-cases, length, arith,
  ==_refl, str_eq_refl, ltb, Option-cases,
}
use dotfile.Entry.{LogEntry, LogRead}
use dotfile.Log.Values.{Value, Codec, IoError, other, epoch_older, validate_numbers, entry_hash}
use dotfile.Log.Lines.{NoNewline, newline}
use dotfile.Log.Read.{Reading, push_line, read_file, fault_of}
use dotfile.Log.Writer.{
  as_other, last_epoch, LogFile, WriterHead, NewLine, Outcome, LogWriter, Prepared,
}
use dotfile.Log.Writer.{file_stamp, same_stamp, encode_entry, new_entry}
use dotfile.Log.Writer.{previous_head, prepare, unwrap_or}
use dotfile.Log.Writer.{head_of_read, read_head}

module _ {N : Type 0} where
  -- the head is that of the file, and `r` is what is read of it
  pub record Describes (c : Codec N) (session : ℕ) (h : WriterHead) (f : LogFile)
      (r : LogRead (Value N)) : Type 0 where
    pub readable : read_file ⦃c = c⦄ session f.bytes ≡ ok r
    pub seq : h.seq ≡ length r.entries
    pub epoch : h.epoch ≡ last_epoch r.entries
    pub valid_bytes : h.valid_bytes ≡ r.valid_bytes
    pub hash : h.hash ≡ r.head_hash
    pub size : h.stamp.size ≡ length f.bytes

  -- a retained head whose stamp is the file's describes the file
  abbrev pub Trusted : Codec N → LogWriter → LogFile → Type 0
  Trusted c w f =
      (h : WriterHead)
      → w.head ≡ some h
      → same_stamp h.stamp (file_stamp f) ≡ true
      → (r : LogRead (Value N)) × Describes c w.session_id h f r

-- what the encoding of an entry promises: one line, which is read back as the entry
pub record CodecLaws {N : Type 0} (c : Codec N) : Type 0 where
  pub one_line : (e : LogEntry (Value N)) (text : List ℕ) → c.to_vec e ≡ some text → NoNewline text
  pub reads_back :
      (e : LogEntry (Value N)) (text : List ℕ) (v : Value N)
      → c.to_vec e ≡ some text
      → c.from_slice (text ++ newline ∷ []) ≡ some v
      → c.deserialize v ≡ some e

as_other-ok : {A : Type 0} (r : Result IoError A) {a : A} → as_other r ≡ ok a → r ≡ ok a
as_other-ok (err error) h = cc
as_other-ok (ok a) h = h

module _ {N : Type 0} ⦃c : Codec N⦄ where
  open c use {from_slice, deserialize, to_value, to_vec}

  read_head-Describes :
      (session : ℕ) (f : LogFile) (h : WriterHead)
      → read_head c session f ≡ ok h
      → (r : LogRead (Value N)) × Describes c session h f r
  unfolding read_head head_of_read file_stamp
  read_head-Describes session f h q =
      let (r, readable, made) = >>=-ok (read_file session f.bytes) _ q in
      let same : head_of_read f r ≡ h = ground arith in
      (
        r,
        subst (λ x. Describes c session x f r) same
            (record {
              readable = readable;
              seq = refl;
              epoch = refl;
              valid_bytes = refl;
              hash = refl;
              size = refl;
            }),
      )

  pub previous_head-Describes :
      (w : LogWriter) (f : LogFile) (h : WriterHead)
      → Trusted c w f
      → previous_head c w.session_id w.head f ≡ ok h
      → (r : LogRead (Value N)) × Describes c w.session_id h f r
  unfolding previous_head
  previous_head-Describes w f h trusted q = elim (Option-cases w.head) [
    | inl empty ↦
        read_head-Describes w.session_id f h
          (sym (ap (λ x. previous_head c w.session_id x f) empty) ∙ q)
    | inr (kept, present) ↦
        let q' : previous_head c w.session_id (some kept) f ≡ ok h =
          sym (ap (λ x. previous_head c w.session_id x f) present) ∙ q in
        elim (Bool-cases (same_stamp kept.stamp (file_stamp f))) [
          | inl same ↦
              let k : kept ≡ h = ground arith in
              subst (λ x. (r : LogRead (Value N)) × Describes c w.session_id x f r) k
                (trusted kept present same)
          | inr changed ↦ read_head-Describes w.session_id f h (ground arith)
        ]
  ]

  pub encode_entry_lem :
      (laws : CodecLaws c) (session : ℕ) (s : Reading N) (e : LogEntry (Value N)) (line : NewLine)
      → encode_entry e ≡ ok line
      → fault_of session s e ≡ none
      → (text : List ℕ) × NoNewline text
        × (line.bytes ≡ text ++ newline ∷ [])
        × (push_line session s line.bytes
            ≡ ok (record {
              entries = s.entries ++ e ∷ [];
              valid_bytes = s.valid_bytes + length line.bytes;
              head_hash = line.hash;
              epoch = e.epoch;
            }))
  unfolding encode_entry push_line
  encode_entry_lem laws session s e line h fine =
      let (value, _, h₁) = >>=-ok (ok_or (to_value e) other) _ h in
      let (_, _, h₂) = >>=-ok (validate_numbers value) _ h₁ in
      let (text, made, h₃) = >>=-ok (ok_or (to_vec e) other) _ h₂ in
      let (v, stored, h₄) = >>=-ok (ok_or (from_slice (text ++ newline ∷ [])) other) _ h₃ in
      let (hash, hashed', h₅) = >>=-ok (as_other (entry_hash v)) _ h₄ in
      let hashed : entry_hash v ≡ ok hash = as_other-ok (entry_hash v) hashed' in
      let made' : to_vec e ≡ some text = ground arith in
      let stored' : from_slice (text ++ newline ∷ []) ≡ some v = ground arith in
      let bytes : line.bytes ≡ text ++ newline ∷ [] = ground arith in
      let same : hash ≡ line.hash = ground arith in
      (
        text,
        laws.one_line e text made',
        bytes,
        rw (bytes, stored', laws.reads_back e text v made' stored', fine, hashed, same) refl,
      )

  pub prepare_lem :
      (w : LogWriter) (f : LogFile) (asked : Option ℕ) (event_type : String) (body : Value N)
      (o : Outcome) (p : Prepared N)
      → prepare w f asked event_type body o ≡ ok p
      → (previous_head c w.session_id w.head f ≡ ok p.previous)
        × (encode_entry p.entry ≡ ok p.line)
        × (p.entry.session_id ≡ w.session_id)
        × (p.entry.seq ≡ p.previous.seq + 1)
        × (p.entry.prev_hash ≡ p.previous.hash)
        × (p.previous.epoch ≤ p.entry.epoch)
  unfolding prepare new_entry
  prepare_lem w f asked event_type body o p h =
      let (previous, read, h₁) = >>=-ok (previous_head c w.session_id w.head f) _ h in
      let epoch : ℕ = unwrap_or asked previous.epoch in
      let (_, newer, h₂) = >>=-ok (guard (not (ltb epoch previous.epoch)) epoch_older) _ h₁ in
      let (now, _, h₃) = >>=-ok (ok_or o.now other) _ h₂ in
      let (line, encoded, h₄) =
        >>=-ok (encode_entry (new_entry w previous epoch event_type body o now)) _ h₃ in
      let made : record {
        previous = previous;
        entry = new_entry w previous epoch event_type body o now;
        line = line;
      }
          ≡ p =
        ground arith in
      subst
        (λ q.
          (previous_head c w.session_id w.head f ≡ ok q.previous)
          × (encode_entry q.entry ≡ ok q.line)
          × (q.entry.session_id ≡ w.session_id)
          × (q.entry.seq ≡ q.previous.seq + 1)
          × (q.entry.prev_hash ≡ q.previous.hash)
          × (q.previous.epoch ≤ q.entry.epoch))
        made
        (
          read,
          encoded,
          refl,
          refl,
          refl,
          ground (arith, guard-ok (not (ltb epoch previous.epoch)) epoch_older newer),
        )

  pub fault_of-next :
      (session : ℕ) (s : Reading N) (e : LogEntry (Value N))
      → e.session_id ≡ session
      → e.seq ≡ length s.entries + 1
      → e.prev_hash ≡ s.head_hash
      → s.epoch ≤ e.epoch
      → fault_of session s e ≡ none
  unfolding fault_of
  fault_of-next session s e owner seq hash epoch =
      rw
        (owner, seq, hash, ==_refl session, ==_refl (length s.entries + 1), str_eq_refl s.head_hash)
        (ground arith)
