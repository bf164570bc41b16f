-- ===== src/Triggers/Template.antt =====
-- `expand`: the template of a trigger, where `{id}` and `{output}` stand for the ids of the sources and
-- for their outputs. A text is the list of its code points.
pub mod Pieces
use dotfile.Prelude.{
  ℕ, zero, suc, Bool, Option, none, some, List, [], ◌∷◌, ◌++◌, length, drop, Chars, codes,
  starts_with, if◌then◌else◌, ◌==◌,
}

abbrev pub id_mark : Chars
id_mark = codes "{id}"

abbrev pub output_mark : Chars
output_mark = codes "{output}"

-- what a round at an opening brace writes, and the rest of the template
unfoldable pub at_brace : Chars → Chars → Chars → Chars × Chars
at_brace ids output rest =
    if starts_with id_mark rest
    then (ids, drop 4 rest)
    else if starts_with output_mark rest
    then (output, drop 8 rest)
    else (b'{' ∷ [], drop 1 rest)

-- The loop: a round copies a character or replaces what starts at a brace. The fuel is the number of
-- characters.
unfoldable pub expand_from : ℕ → Chars → Chars → Chars → Chars
unfolding at_brace
expand_from zero ids output rest = rest
expand_from (suc fuel) ids output [] = []
expand_from (suc fuel) ids output (c ∷ rest) =
    let (written, left) = if c == b'{' then at_brace ids output (c ∷ rest) else (c ∷ [], rest) in
    written ++ expand_from fuel ids output left

unfoldable pub expand : Chars → Chars → Chars → Chars
unfolding expand_from
expand template ids output = expand_from (length template) ids output template
