-- ===== src/Log/Writer/Append.antt =====
-- `LogWriter::append` as a whole: what is read of the log before and after it.
use dotfile.Prelude.{
  ℕ, String, true, Option, none, some, [], ◌∷◌, ◌++◌, Result, ok, err, ok_unique, ◌≡◌, ◌≢◌, refl,
  sym, ap, ◌∙◌, subst, inl, inr, ◌⊎◌, Bool-cases, Result-cases, length, length-append, arith, ◌&&◌,
  if◌then◌else◌,
}
use dotfile.Entry.{LogEntry, LogRead}
use dotfile.Log.Values.{Value, Codec, IoError, failed}
use dotfile.Log.Read.{read_file}
use dotfile.Log.Writer.{last_epoch, LogFile, WriterHead, Outcome, LogWriter, Prepared}
use dotfile.Log.Writer.{file_stamp, write_line, prepare, head_after}
use dotfile.Log.Writer.{
  write_if_ready, write_prepared, append_locked, finish_append, append, is_none,
}
use dotfile.Log.Writer.Appended.{last_epoch-append}
use dotfile.Log.Writer.Heads.{Describes, Trusted, CodecLaws, previous_head-Describes, prepare_lem}
use dotfile.Log.Writer.Safety.{Extends, write_line_lem, appended}

module _ {N : Type 0} ⦃c : Codec N⦄ (w : LogWriter) (f : LogFile) (asked : Option ℕ)
    (event_type : String) (body : Value N) (o : Outcome) where
  append_locked-prepared :
      (p : Prepared N)
      → prepare w f asked event_type body o ≡ ok p
      → append_locked w f asked event_type body o ≡ write_prepared f p o
  unfolding append_locked write_if_ready
  append_locked-prepared p prepared = ap (write_if_ready f o) prepared

  append_locked-refused :
      (error : IoError)
      → prepare w f asked event_type body o ≡ err error
      → append_locked w f asked event_type body o ≡ (f, err error)
  unfolding append_locked write_if_ready
  append_locked-refused error refused = ap (write_if_ready f o) refused

  append-opened :
      (result : LogFile × Result IoError (LogEntry (Value N) × WriterHead))
      → o.opened ≡ true
      → append_locked w f asked event_type body o ≡ result
      → append w f asked event_type body o ≡ (result.0, finish_append w o.unlocked result.1)
  unfolding append
  append-opened result opened locked = rw (opened, locked) refl

  append-prepared :
      (p : Prepared N)
      → o.opened ≡ true
      → prepare w f asked event_type body o ≡ ok p
      → append w f asked event_type body o ≡ (
        write_line f p.previous p.line o,
        finish_append w o.unlocked (
            if is_none o.written && o.synced
            then ok (p.entry, head_after (write_line f p.previous p.line o) p)
            else err failed),
      )
  unfolding write_prepared
  append-prepared p opened prepared =
      append-opened (write_prepared f p o) opened (append_locked-prepared p prepared)

  -- An append that is refused before the file changes, that fails after, or that succeeds.
  append_cases :
      ((w' : LogWriter) × (error : IoError) × (append w f asked event_type body o
          ≡ (f, (w', err error)))
        × ((w' ≡ w) ⊎ (w'.head ≡ none)))
      ⊎ ((p : Prepared N) × (prepare w f asked event_type body o ≡ ok p)
          × ((append w f asked event_type body o
                ≡ (write_line f p.previous p.line o, (record w { head = none }, err failed)))
              ⊎ ((o.written ≡ none)
                  × (append w f asked event_type body o ≡ (
                    write_line f p.previous p.line o,
                    (
                      record w { head = some (head_after (write_line f p.previous p.line o) p) },
                      ok p.entry,
                    ),
                  )))))
  unfolding append finish_append
  append_cases = elim (Bool-cases o.opened) [
    | inr closed ↦ inl (w, failed, rw closed refl, inl refl)
    | inl opened ↦ elim (Result-cases (prepare w f asked event_type body o)) [
      | inr (error, refused) ↦ inl (
        record w { head = none },
        error,
        append-opened (f, err error) opened (append_locked-refused error refused),
        inr refl,
      )
      | inl (p, prepared) ↦ inr (
        p,
        prepared,
        elim (Bool-cases (is_none o.written && o.synced)) [
          | inr broken ↦ inl (append-prepared p opened prepared ∙ rw broken refl)
          | inl written ↦ elim (Bool-cases o.unlocked) [
            | inr held ↦ inl (append-prepared p opened prepared ∙ rw (written, held) refl)
            | inl unlocked ↦
                inr (ground arith, append-prepared p opened prepared ∙ rw (written, unlocked) refl)
          ]
        ],
      )
    ]
  ]

  prepared_write :
      (laws : CodecLaws c) (trusted : Trusted c w f) (p : Prepared N)
      → prepare w f asked event_type body o ≡ ok p
      → (r r' : LogRead (Value N)) × (read_file w.session_id f.bytes ≡ ok r)
        × (read_file w.session_id (write_line f p.previous p.line o).bytes ≡ ok r')
        × Extends r r'
        × (o.written ≡ none
            → (r'.entries ≡ r.entries ++ p.entry ∷ [])
              × (r'.truncated_line ≡ none)
              × Describes c w.session_id
                  (head_after (write_line f p.previous p.line o) p)
                  (write_line f p.previous p.line o)
                  r')
  unfolding head_after file_stamp
  prepared_write laws trusted p prepared =
      let (read, encoded, owner, seq, prev, epoch) =
        prepare_lem w f asked event_type body o p prepared in
      let (r, d) = previous_head-Describes w f p.previous trusted read in
      let (r', readable, extends, all) =
        write_line_lem laws w.session_id f p r d encoded owner seq prev epoch o in
      (
        r,
        r',
        d.readable,
        readable,
        extends,
        λ whole.
            let same : r' ≡ appended laws w.session_id f p r d encoded owner seq prev epoch =
              all whole in
            let entries : r'.entries ≡ r.entries ++ p.entry ∷ [] = ap (λ x. x.entries) same in
            let p_seq : p.entry.seq ≡ length r'.entries =
              omega
                (arith, seq, d.seq, length-append r.entries (p.entry ∷ []), ap length entries) in
            let p_epoch : p.entry.epoch ≡ last_epoch r'.entries =
              sym (ap last_epoch entries ∙ last_epoch-append r.entries p.entry) in
            (
              entries,
              ap (λ x. x.truncated_line) same,
              record {
                readable = readable;
                seq = p_seq;
                epoch = p_epoch;
                valid_bytes = ap (λ x. x.valid_bytes) (sym same);
                hash = ap (λ x. x.head_hash) (sym same);
                size = refl;
              },
            ),
      )

not_entry : {A : Type 0} {a : A} (error : IoError) → err error ≢ ok a
not_entry error = λ q. cc

module _ {N : Type 0} ⦃c : Codec N⦄ (laws : CodecLaws c) (w : LogWriter) (f : LogFile)
    (trusted : Trusted c w f) (asked : Option ℕ) (event_type : String) (body : Value N)
    (o : Outcome) where
  -- no retained head is trusted
  no_head-Trusted : (w' : LogWriter) (f' : LogFile) → w'.head ≡ none → Trusted c w' f'
  no_head-Trusted w' f' empty h present same = absurd (ground arith)

  new_head-Trusted :
      (f' : LogFile) (head : WriterHead) (r' : LogRead (Value N))
      → Describes c w.session_id head f' r'
      → Trusted c (record w { head = some head }) f'
  new_head-Trusted f' head r' d h present same =
      let q : head ≡ h = ground arith in (r', subst (λ x. Describes c w.session_id x f' r') q d)

  -- With a codec that keeps its laws and a head that is trusted where its stamp is the file's: after
  -- an append that returns an entry the log reads as before with that entry at its end, no
  -- line is cut short, and the writer may keep its new head.
  pub append-entry :
      (f' : LogFile) (w' : LogWriter) (e : LogEntry (Value N))
      → append w f asked event_type body o ≡ (f', (w', ok e))
      → (r r' : LogRead (Value N)) × (read_file w.session_id f.bytes ≡ ok r)
        × (read_file w.session_id f'.bytes ≡ ok r')
        × (r'.entries ≡ r.entries ++ e ∷ [])
        × (r'.truncated_line ≡ none)
        × Trusted c w' f'
  append-entry f' w' e h = elim (append_cases w f asked event_type body o) [
    | inl (_, error, q, _) ↦ absurd (not_entry error (ap (λ x. x.1.1) (sym q ∙ h)))
    | inr (p, prepared, inl q) ↦ absurd (not_entry failed (ap (λ x. x.1.1) (sym q ∙ h)))
    | inr (p, prepared, inr (written, q)) ↦
        let (r, r', before, after, _, whole) =
          prepared_write w f asked event_type body o laws trusted p prepared in
        let (entries, complete, head) = whole written in
        let file : write_line f p.previous p.line o ≡ f' = ap (λ x. x.0) (sym q ∙ h) in
        let last : p.entry ≡ e = ok_unique _ (ap (λ x. x.1.1) q) (ap (λ x. x.1.1) h) in
        (
          r,
          r',
          before,
          subst (λ x. read_file w.session_id x.bytes ≡ ok r') file after,
          entries ∙ ap (λ x. r.entries ++ x ∷ []) last,
          complete,
          subst (λ x. Trusted c x.1.0 x.0) (sym q ∙ h) (new_head-Trusted _ _ r' head),
        )
  ]

  -- With a codec that keeps its laws and a head that is trusted where its stamp is the file's:
  -- whatever an append does, the log stays readable if it was: its entries are those of before, or
  -- those and one more, also where a write stops in the middle of the line. What the writer
  -- keeps may be kept.
  pub append-Extends :
      (r : LogRead (Value N))
      → read_file w.session_id f.bytes ≡ ok r
      → (r' : LogRead (Value N)) × (read_file w.session_id
            (append w f asked event_type body o).0.bytes
          ≡ ok r')
        × Extends r r'
        × Trusted c (append w f asked event_type body o).1.0 (append w f asked event_type body o).0
  append-Extends r readable = elim (append_cases w f asked event_type body o) [
    | inl (w', error, q, inl same) ↦
        rw q (r, readable, inl refl, subst (λ x. Trusted c x f) (sym same) trusted)
    | inl (w', error, q, inr empty) ↦ rw q (r, readable, inl refl, no_head-Trusted w' f empty)
    | inr (p, prepared, done) ↦
        let (r₀, r', before, after, extends, whole) =
          prepared_write w f asked event_type body o laws trusted p prepared in
        let same : r₀ ≡ r = ground arith in
        elim done [
          | inl q ↦ rw q (
            r',
            after,
            subst (λ x. Extends x r') same extends,
            no_head-Trusted (record w { head = none }) _ refl,
          )
          | inr (written, q) ↦ rw q (
            r',
            after,
            subst (λ x. Extends x r') same extends,
            new_head-Trusted _ _ r' (whole written).2,
          )
        ]
  ]
