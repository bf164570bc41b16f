-- ===== src/Log/Read/Prefix.antt =====
-- The complete lines of a file are a prefix of it, and what is read of them does not depend on
-- what follows.
use dotfile.Prelude.{
  ℕ, ◌+◌, true, Option, none, List, [], ◌∷◌, ◌++◌, ok, ok_or, ◌>>=◌, >>=-ok, ◌≡◌, refl, sym, ap,
  ◌∙◌, inl, inr, Bool-cases, All, length, length-append, arith,
}
use dotfile.Entry.{LogEntry}
use dotfile.Log.Values.{Value, Codec, entry_hash, invalid_data, bad_json, bad_hash}
use dotfile.Log.Lines.{IsLine, MayBeLine, ends_with_newline, ends_with_newline-IsLine, concat}
use dotfile.Log.Read.{Reading, push_line, read_lines, fault_of, refuse, as_fault}

module _ {N : Type 0} ⦃c : Codec N⦄ where
  open c use {from_slice, deserialize}

  -- a complete line is pushed, and the loop goes on
  pub read_lines-line :
      (session : ℕ) (s : Reading N) (l : List ℕ) (ls : List (List ℕ))
      → ends_with_newline l ≡ true
      → read_lines session s (l ∷ ls) ≡ (push_line session s l >>= λ s'. read_lines session s' ls)
  unfolding read_lines
  read_lines-line session s l ls ends = rw ends refl

  -- the state after a line that is accepted
  pub push_line_lem :
      (session : ℕ) (s s' : Reading N) (l : List ℕ)
      → push_line session s l ≡ ok s'
      → (v : Value N) × (e : LogEntry (Value N)) × (s'.entries ≡ s.entries ++ e ∷ [])
        × (s'.valid_bytes ≡ s.valid_bytes + length l)
        × (s'.epoch ≡ e.epoch)
  unfolding push_line
  push_line_lem session s s' l h =
      let (v, _, h₁) = >>=-ok (ok_or (from_slice l) (invalid_data bad_json)) _ h in
      let (e, _, h₂) = >>=-ok (ok_or (deserialize v) (invalid_data bad_json)) _ h₁ in
      let (_, _, h₃) = >>=-ok (refuse (fault_of session s e)) _ h₂ in
      let (x, _, h₄) = >>=-ok (as_fault bad_hash (entry_hash v)) _ h₃ in
      (v, e, ground arith, ground arith, ground arith)

  -- the complete lines that were read
  pub read_lines-prefix :
      (session : ℕ) (s s' : Reading N) (ls : List (List ℕ)) (truncated : Option ℕ)
      → All MayBeLine ls
      → read_lines session s ls ≡ ok (s', truncated)
      → (cs rest : List (List ℕ)) × (ls ≡ cs ++ rest)
        × All IsLine cs
        × (read_lines session s cs ≡ ok (s', none))
        × (s'.valid_bytes ≡ s.valid_bytes + length (concat cs))
  unfolding read_lines
  read_lines-prefix session s s' [] truncated may h = ([], [], refl, tt, ground arith, ground arith)
  read_lines-prefix session s s' (l ∷ ls) truncated may h =
      elim (Bool-cases (ends_with_newline l)) [
        | inr part ↦ ([], l ∷ ls, refl, tt, ground arith, ground arith)
        | inl complete ↦
            let (mid, pushed, h') =
              >>=-ok (push_line session s l) _
                (sym (read_lines-line session s l ls complete) ∙ h) in
            let (_, _, _, grown, _) = push_line_lem session s mid l pushed in
            let (cs, rest, split, lines, same, bytes) =
              read_lines-prefix session mid s' ls truncated may.1 h' in
            (
              l ∷ cs,
              rest,
              ap (λ x. l ∷ x) split,
              (may.0 complete, lines),
              read_lines-line session s l cs complete ∙ rw pushed same,
              omega (arith, bytes, grown, length-append l (concat cs)),
            )
      ]

  -- lines that follow complete ones are read from the state that those leave
  pub read_lines-append :
      (session : ℕ) (s s' : Reading N) (cs ls : List (List ℕ))
      → All IsLine cs
      → read_lines session s cs ≡ ok (s', none)
      → read_lines session s (cs ++ ls) ≡ read_lines session s' ls
  unfolding read_lines
  read_lines-append session s s' [] ls lines h = ap (λ x. read_lines session x ls) (ground arith)
  read_lines-append session s s' (l ∷ cs) ls lines h =
      let complete = ends_with_newline-IsLine l lines.0 in
      let (mid, pushed, h') =
        >>=-ok (push_line session s l) _ (sym (read_lines-line session s l cs complete) ∙ h) in
      read_lines-line session s l (cs ++ ls) complete
      ∙ rw pushed (read_lines-append session mid s' cs ls lines.1 h')
