-- ===== src/Triggers/Template/Pieces.antt =====
-- A template is expanded piece by piece, and what is put in is not expanded again.
use dotfile.Prelude.{
  ℕ, zero, suc, ◌≤◌, false, ◌&&◌, List, [], ◌∷◌, ◌++◌, length, ◌≡◌, refl, ap, sym, Bool-cases, inl,
  inr, arith, Chars, starts_with, ◌==◌, ==_iff,
}
use dotfile.Triggers.Template.{id_mark, output_mark, at_brace, expand_from, expand}

-- a template is marks and text; an opening brace stands alone where it starts no mark
pub data Piece : Type 0 where
  id_piece output_piece : Piece
  plain : ℕ → Piece

abbrev pub written : Piece → Chars
written id_piece = id_mark
written output_piece = output_mark
written (plain c) = c ∷ []

abbrev pub replaced : Chars → Chars → Piece → Chars
replaced ids output id_piece = ids
replaced ids output output_piece = output
replaced ids output (plain c) = c ∷ []

abbrev pub template_of : List Piece → Chars
template_of [] = []
template_of (p ∷ ps) = written p ++ template_of ps

abbrev pub replace_all : Chars → Chars → List Piece → Chars
replace_all ids output [] = []
replace_all ids output (p ∷ ps) = replaced ids output p ++ replace_all ids output ps

-- plain text is no brace, or a brace that starts no mark in what follows
unfoldable pub IsPlain : List Piece → Type 0
IsPlain [] = Unit
IsPlain (id_piece ∷ ps) = IsPlain ps
IsPlain (output_piece ∷ ps) = IsPlain ps
IsPlain (plain c ∷ ps) =
    ((c == b'{' && starts_with id_mark (c ∷ template_of ps)) ≡ false)
    × ((c == b'{' && starts_with output_mark (c ∷ template_of ps)) ≡ false)
    × IsPlain ps

-- a brace that starts no mark is copied
at_brace-plain :
    (ids output : Chars) (c : ℕ) (rest : Chars)
    → c ≡ b'{'
    → starts_with id_mark (c ∷ rest) ≡ false
    → starts_with output_mark (c ∷ rest) ≡ false
    → at_brace ids output (c ∷ rest) ≡ (c ∷ [], rest)
unfolding at_brace
at_brace-plain ids output c rest brace no_id no_output =
    rw (no_id, no_output) (ap (λ d. (d ∷ [], rest)) (sym brace))

expand_from-pieces :
    (fuel : ℕ) (ids output : Chars) (ps : List Piece)
    → IsPlain ps
    → length (template_of ps) ≤ fuel
    → expand_from fuel ids output (template_of ps) ≡ replace_all ids output ps
unfolding expand_from IsPlain
expand_from-pieces zero ids output [] h short = refl
expand_from-pieces (suc fuel) ids output [] h short = refl
expand_from-pieces zero ids output (id_piece ∷ ps) h short = absurd (omega arith)
expand_from-pieces zero ids output (output_piece ∷ ps) h short = absurd (omega arith)
expand_from-pieces zero ids output (plain c ∷ ps) h short = absurd (omega arith)
expand_from-pieces (suc fuel) ids output (id_piece ∷ ps) h short =
    ap (◌++◌ ids) (expand_from-pieces fuel ids output ps h (omega arith))
expand_from-pieces (suc fuel) ids output (output_piece ∷ ps) h short =
    ap (◌++◌ output) (expand_from-pieces fuel ids output ps h (omega arith))
expand_from-pieces (suc fuel) ids output (plain c ∷ ps) (no_id, no_output, h) short =
    elim (Bool-cases (c == b'{')) [
      | inr other ↦
          rw other (ap (λ cs. c ∷ cs) (expand_from-pieces fuel ids output ps h (omega arith)))
      | inl brace ↦
          let plain_brace =
            at_brace-plain ids output c (template_of ps) ((==_iff c b'{').0 brace) (ground arith)
              (ground arith) in
          rw (brace, plain_brace)
            (ap (λ cs. c ∷ cs) (expand_from-pieces fuel ids output ps h (omega arith)))
    ]

-- `expand` replaces every mark of a template and copies the rest, whatever braces the texts that are
-- put in hold.
pub expand-pieces :
    (ids output : Chars) (ps : List Piece)
    → IsPlain ps
    → expand (template_of ps) ids output ≡ replace_all ids output ps
unfolding expand
expand-pieces ids output ps h =
    expand_from-pieces (length (template_of ps)) ids output ps h (omega arith)
