-- ===== src/Log/Lines.antt =====
-- The lines of a file, as `BufRead::read_until` gives them one by one: each ends with a newline,
-- but for the last.
use mathlib.Core.List.{append_assoc, append-nil}
use dotfile.Prelude.{
  ℕ, Bool, true, false, List, [], ◌∷◌, ◌++◌, ◌≡◌, ◌≢◌, refl, sym, ap, ◌∙◌, ◌==◌, if◌then◌else◌, All,
  arith, take, zero, suc, inl, inr, ◌⊎◌, Bool-cases, ==_iff,
}

-- b'\n'
abbrev pub newline : ℕ
newline = 10

abbrev pub ends_with_newline : List ℕ → Bool
ends_with_newline [] = false
ends_with_newline (b ∷ []) = b == newline
ends_with_newline (b ∷ c ∷ bs) = ends_with_newline (c ∷ bs)

-- a byte before the first of the lines
abbrev pub prepend : ℕ → List (List ℕ) → List (List ℕ)
prepend b [] = (b ∷ []) ∷ []
prepend b (l ∷ ls) = (b ∷ l) ∷ ls

unfoldable pub split_lines : List ℕ → List (List ℕ)
split_lines [] = []
split_lines (b ∷ bs) =
    let rest = split_lines bs in if b == newline then (b ∷ []) ∷ rest else prepend b rest

abbrev pub concat : List (List ℕ) → List ℕ
concat [] = []
concat (l ∷ ls) = l ++ concat ls

-- bytes with one newline, at the end
pub data IsLine : List ℕ → Type 0 where
  line_end : IsLine (newline ∷ [])
  line_byte : {b : ℕ} {bs : List ℕ} → b ≢ newline → IsLine bs → IsLine (b ∷ bs)

abbrev pub NoNewline : List ℕ → Type 0
NoNewline = All (λ b. b ≢ newline)

==_false : {b : ℕ} → b ≢ newline → (b == newline) ≡ false
==_false n = ground arith

pub newline-IsLine : (bs : List ℕ) → NoNewline bs → IsLine (bs ++ newline ∷ [])
newline-IsLine [] h = line_end
newline-IsLine (b ∷ bs) h = line_byte h.0 (newline-IsLine bs h.1)

pub ends_with_newline-IsLine : (l : List ℕ) → IsLine l → ends_with_newline l ≡ true
ends_with_newline-IsLine _ line_end = refl
ends_with_newline-IsLine _ (line_byte n line_end) = refl
ends_with_newline-IsLine _ (line_byte n (line_byte m h)) =
    ends_with_newline-IsLine _ (line_byte m h)

pub split_lines-line : (l rest : List ℕ) → IsLine l → split_lines (l ++ rest) ≡ l ∷ split_lines rest
unfolding split_lines
split_lines-line _ rest line_end = refl
split_lines-line _ rest (line_byte {b} {bs} n h) = rw (==_false n, split_lines-line bs rest h) refl

pub split_lines-concat :
    (cs : List (List ℕ)) (rest : List ℕ)
    → All IsLine cs
    → split_lines (concat cs ++ rest) ≡ cs ++ split_lines rest
split_lines-concat [] rest h = refl
split_lines-concat (l ∷ ls) rest h =
    ap split_lines (append_assoc l (concat ls) rest)
    ∙ split_lines-line l (concat ls ++ rest) h.0
    ∙ ap (λ x. l ∷ x) (split_lines-concat ls rest h.1)

concat-prepend : (b : ℕ) (ls : List (List ℕ)) → concat (prepend b ls) ≡ b ∷ concat ls
concat-prepend b [] = refl
concat-prepend b (l ∷ ls) = refl

pub concat-split_lines : (bs : List ℕ) → concat (split_lines bs) ≡ bs
unfolding split_lines
concat-split_lines [] = refl
concat-split_lines (b ∷ bs) = elim (Bool-cases (b == newline)) [
  | inl hit ↦ rw hit (ap (λ x. b ∷ x) (concat-split_lines bs))
  | inr miss ↦ rw miss (concat-prepend b (split_lines bs) ∙ ap (λ x. b ∷ x) (concat-split_lines bs))
]

-- a line of `split_lines` that ends with a newline has no other
abbrev pub MayBeLine : List ℕ → Type 0
MayBeLine l = ends_with_newline l ≡ true → IsLine l

prepend-MayBeLine : (b : ℕ) (l : List ℕ) → (b == newline) ≡ false → MayBeLine l → MayBeLine (b ∷ l)
prepend-MayBeLine b [] miss h ends = cc
prepend-MayBeLine b (c ∷ l) miss h ends = line_byte (ground arith) (h ends)

prepend-IsLine :
    (b : ℕ) (ls : List (List ℕ))
    → (b == newline) ≡ false
    → All MayBeLine ls
    → All MayBeLine (prepend b ls)
prepend-IsLine b [] miss h = (prepend-MayBeLine b [] miss (λ ends. absurd (ground arith)), tt)
prepend-IsLine b (l ∷ ls) miss h = (prepend-MayBeLine b l miss h.0, h.1)

pub split_lines-IsLine : (bs : List ℕ) → All MayBeLine (split_lines bs)
unfolding split_lines
split_lines-IsLine [] = tt
split_lines-IsLine (b ∷ bs) = elim (Bool-cases (b == newline)) [
  | inl hit ↦ rw hit (λ _. rw ((==_iff b newline).0 hit) line_end, split_lines-IsLine bs)
  | inr miss ↦ rw miss (prepend-IsLine b (split_lines bs) miss (split_lines-IsLine bs))
]

pub concat-append : (cs rest : List (List ℕ)) → concat (cs ++ rest) ≡ concat cs ++ concat rest
concat-append [] rest = refl
concat-append (l ∷ ls) rest =
    ap (λ x. l ++ x) (concat-append ls rest) ∙ sym (append_assoc l (concat ls) (concat rest))

pub split_lines-one : (l : List ℕ) → IsLine l → split_lines l ≡ l ∷ []
unfolding split_lines
split_lines-one l h = ap split_lines (sym (append-nil l)) ∙ split_lines-line l [] h

pub ends_with_newline-part : (p : List ℕ) → NoNewline p → ends_with_newline p ≡ false
ends_with_newline-part [] h = refl
ends_with_newline-part (b ∷ []) h = ==_false h.0
ends_with_newline-part (b ∷ c ∷ bs) h = ends_with_newline-part (c ∷ bs) h.1

-- bytes without a newline are no line, or one that is incomplete
pub split_lines-part :
    (b : ℕ) (bs : List ℕ) → NoNewline (b ∷ bs) → split_lines (b ∷ bs) ≡ (b ∷ bs) ∷ []
unfolding split_lines
split_lines-part b [] h = rw (==_false h.0) refl
split_lines-part b (c ∷ bs) h = rw (==_false h.0) (ap (prepend b) (split_lines-part c bs h.1))

-- a part of a line that is cut short has no newline
pub take-line :
    (n : ℕ) (text : List ℕ)
    → NoNewline text
    → (take n (text ++ newline ∷ []) ≡ text ++ newline ∷ [])
      ⊎ NoNewline (take n (text ++ newline ∷ []))
take-line zero text h = inr tt
take-line (suc zero) [] h = inl refl
take-line (suc (suc n)) [] h = inl refl
take-line (suc n) (b ∷ bs) h = elim (take-line n bs h.1) [
  | inl whole ↦ inl (ap (λ x. b ∷ x) whole)
  | inr part ↦ inr (h.0, part)
]
