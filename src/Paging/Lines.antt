-- ===== src/Paging/Lines.antt =====
-- The lines that the table of `IndexLines` (src/paging/paging.cpp) cuts a text into are the lines that
-- a terminal shows.
use mathlib.Core.Path.{ap₂}
use pu_cli.Base.{
  ℕ, zero, suc, ◌+◌, ◌-◌, List, [], ◌∷◌, ◌++◌, ◌≡◌, ◌≢◌, refl, sym, ap, ◌∙◌, arith, Bytes, length,
  get_elem?, length-append, drop-length_append, take-length_append, ==_iff, append_assoc,
  append-nil, ◌==◌, if◌then◌else◌, inl, inr, Bool-cases,
}
use pu_cli.Paging.Data.{
  newline, starts_from, index_lines, chop_newline, slice, line_in, Buffer, line, lines,
}

-- The lines of a text: each ends at a newline, and the last may lack it. `cur` is the line so far.
unfoldable pub split_lines : Bytes → Bytes → List Bytes
split_lines cur [] = []
split_lines cur (c ∷ []) = (if c == newline then cur else cur ++ c ∷ []) ∷ []
split_lines cur (c ∷ d ∷ s) =
    let rest = split_lines [] (d ∷ s) in
    let longer = split_lines (cur ++ c ∷ []) (d ∷ s) in if c == newline then cur ∷ rest else longer

unfoldable pub lines_of : Bytes → List Bytes
unfolding split_lines
lines_of = split_lines []

-- The lines that a table of starts cuts.
cut_at : Bytes → List ℕ → List Bytes
cut_at text [] = []
cut_at text (a ∷ []) = chop_newline (slice text a (length text)) ∷ []
cut_at text (a ∷ b ∷ r) = chop_newline (slice text a b) ∷ cut_at text (b ∷ r)

get-cut_at :
    (text : Bytes) (starts : List ℕ) (i : ℕ)
    → get_elem? (cut_at text starts) i ≡ line_in text starts i
unfolding cut_at line_in
get-cut_at text [] i = refl
get-cut_at text (a ∷ []) zero = refl
get-cut_at text (a ∷ []) (suc i) = refl
get-cut_at text (a ∷ b ∷ r) zero = refl
get-cut_at text (a ∷ b ∷ r) (suc i) = get-cut_at text (b ∷ r) i

slice-append :
    (pre mid post : Bytes) (a b : ℕ)
    → length pre ≡ a
    → length pre + length mid ≡ b
    → slice ((pre ++ mid) ++ post) a b ≡ mid
slice-append pre mid post a b e f =
    let n : b - a ≡ length mid = omega arith in
    rw (n, ← e, append_assoc, drop-length_append pre (mid ++ post)) (take-length_append mid post)

chop_newline-newline : (s : Bytes) → chop_newline (s ++ newline ∷ []) ≡ s
unfolding chop_newline
chop_newline-newline [] = refl
chop_newline-newline (c ∷ []) = refl
chop_newline-newline (c ∷ d ∷ s) = ap (λ t. c ∷ t) (chop_newline-newline (d ∷ s))

chop_newline-other : (s : Bytes) (c : ℕ) → c ≢ newline → chop_newline (s ++ c ∷ []) ≡ s ++ c ∷ []
unfolding chop_newline
chop_newline-other [] c h = ground arith
chop_newline-other (x ∷ []) c h = ground arith
chop_newline-other (x ∷ d ∷ s) c h = ap (λ t. x ∷ t) (chop_newline-other (d ∷ s) c h)

chop_newline-append :
    (s : Bytes) (c : ℕ) → chop_newline (s ++ c ∷ []) ≡ (if c == newline then s else s ++ c ∷ [])
chop_newline-append s c = elim (Bool-cases (c == newline)) [
  | inl y ↦ rw (y, (==_iff c newline).0 y) (chop_newline-newline s)
  | inr n ↦ rw n (chop_newline-other s c (λ e. ground arith))
]

-- The byte before `t` passes to the line so far.
regroup :
    (pre cur : Bytes) (c : ℕ) (t : Bytes) → (pre ++ cur) ++ c ∷ t ≡ (pre ++ (cur ++ c ∷ [])) ++ t
regroup pre cur c t = simp append_assoc

-- The scan stands before `s`, and the line that starts at `a` has its bytes `cur` behind it.
cut-starts_from :
    (pre cur s : Bytes) (a p : ℕ)
    → s ≢ []
    → length pre ≡ a
    → length pre + length cur ≡ p
    → cut_at ((pre ++ cur) ++ s) (a ∷ starts_from p s) ≡ split_lines cur s
unfolding cut_at starts_from split_lines
cut-starts_from pre cur [] a p n e f = absurd (n refl)
cut-starts_from pre cur (c ∷ []) a p n e f = rw (regroup pre cur c []) (
    rw
      (slice-append pre (cur ++ c ∷ []) [] a (length ((pre ++ (cur ++ c ∷ [])) ++ [])) e (
        omega
          (arith, length-append (pre ++ (cur ++ c ∷ [])) [], length-append pre (cur ++ c ∷ []))))
      (ap (λ l. l ∷ []) (chop_newline-append cur c)))
cut-starts_from pre cur (c ∷ d ∷ s) a p n e f = elim (Bool-cases (c == newline)) [
  | inl y ↦ rw y (
      ap₂ (λ l ls. l ∷ ls)
        (ap (λ t. chop_newline (slice t a (p + 1))) (regroup pre cur c (d ∷ s))
          ∙ ap chop_newline (
              slice-append pre (cur ++ c ∷ []) (d ∷ s) a (p + 1) e
                (omega (arith, length-append cur (c ∷ []))))
          ∙ chop_newline-append cur c
          ∙ rw y)
        (ap (λ t. cut_at t ((p + 1) ∷ starts_from (p + 1) (d ∷ s)))
            (regroup pre cur c (d ∷ s)
              ∙ ap (λ t. t ++ d ∷ s) (sym (append-nil (pre ++ (cur ++ c ∷ [])))))
          ∙ cut-starts_from (pre ++ (cur ++ c ∷ [])) [] (d ∷ s) (p + 1) (p + 1) (λ z. cc)
              (omega (arith, length-append pre (cur ++ c ∷ []), length-append cur (c ∷ [])))
              (omega (arith, length-append pre (cur ++ c ∷ []), length-append cur (c ∷ [])))))
  | inr o ↦
      rw (o, regroup pre cur c (d ∷ s))
        (cut-starts_from pre (cur ++ c ∷ []) (d ∷ s) a (p + 1) (λ z. cc) e
          (omega (arith, length-append cur (c ∷ []))))
]

cut-index_lines : (text : Bytes) → cut_at text (index_lines text) ≡ lines_of text
unfolding index_lines lines_of
cut-index_lines [] = unfold cut_at in refl
cut-index_lines (c ∷ s) = cut-starts_from [] [] (c ∷ s) 0 0 (λ z. cc) refl refl

length-cut_at : (text : Bytes) (starts : List ℕ) → length (cut_at text starts) ≡ length starts
unfolding cut_at
length-cut_at text [] = refl
length-cut_at text (a ∷ []) = refl
length-cut_at text (a ∷ b ∷ r) = ap suc (length-cut_at text (b ∷ r))

-- A buffer whose table is that of `IndexLines`, as its constructor makes it.
abbrev pub IsIndexed : Buffer → Type 0
IsIndexed b = b.line_starts ≡ index_lines b.text

-- `Buffer::line` gives the lines of the text, in order, none of them out of bounds; and there are
-- `Buffer::lines` of them.
pub line-eq-get_elem? :
    (b : Buffer) (i : ℕ)
    → IsIndexed b
    → (line b i ≡ get_elem? (lines_of b.text) i) × (lines b ≡ length (lines_of b.text))
unfolding line
line-eq-get_elem? b i h = (
  rw (h, ← get-cut_at b.text (index_lines b.text) i, cut-index_lines b.text),
  rw (h, ← length-cut_at b.text (index_lines b.text), cut-index_lines b.text),
)
