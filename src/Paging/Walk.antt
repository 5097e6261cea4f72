-- ===== src/Paging/Walk.antt =====
-- Reading an output page by page along the `later` cursors of `Read` (src/paging/paging.cpp).
use Prim.Native.Nat.{min}
use native.Mathlib.Nat.{zero-add, suc-add}
use pu_cli.Base.{
  ℕ, zero, suc, ◌+◌, ◌-◌, ◌≤◌, ◌<◌, Option, none, some, List, [], ◌∷◌, ◌++◌, ◌≡◌, refl, sym, ap,
  ◌∙◌, arith, Bytes, length, take, drop, take-append-drop, length-drop, inl, inr, Bool-cases,
  size_mod, ltb, leb, leb→le,
}
use pu_cli.Paging.Data.{Buffer, lines, Cursor, Anchor, head, at, Page}
use pu_cli.Paging.Reading.{read, start_of}
use pu_cli.Paging.Lines.{lines_of, IsIndexed}
use pu_cli.Paging.Pages.{
  join_lines, complete, join-lines_of, join_lines-append, expected, read_lem, expected-text,
  expected-later, drop-past, lines_count,
}

abbrev pub before : Bytes → Option Bytes → Option Bytes
before text none = none
before text (some rest) = some (text ++ rest)

-- The text of a page, then of the pages that its `later` cursors lead to; none if the fuel runs out or
-- a read is out of bounds.
unfoldable pub walk : ℕ → Buffer → Anchor → ℕ → Option Bytes
walk zero b a count = none
walk (suc fuel) b a count = elim (read b a count) [
  | none ↦ none
  | some p ↦ elim p.later [ none ↦ some p.text | some c ↦ before p.text (walk fuel b (at c) count) ]
]

drop-nil : (n : ℕ) → ◌≡◌ {A = List Bytes} (drop n []) []
drop-nil zero = refl
drop-nil (suc n) = refl

drop-drop : (n m : ℕ) (ls : List Bytes) → drop m (drop n ls) ≡ drop (n + m) ls
drop-drop zero m ls = rw zero-add
drop-drop (suc n) m [] = drop-nil m ∙ sym (drop-nil (suc n + m))
drop-drop (suc n) m (l ∷ ls) = drop-drop n m ls ∙ rw suc-add

take-past : (n : ℕ) (ls : List Bytes) → length ls ≤ n → take n ls ≡ ls
take-past zero [] h = refl
take-past zero (l ∷ ls) h = absurd (omega arith)
take-past (suc n) [] h = refl
take-past (suc n) (l ∷ ls) h = ap (λ t. l ∷ t) (take-past n ls (omega arith))

module _ (b : Buffer) (count : ℕ) where
  walk-last :
      (fuel : ℕ) (a : Anchor) (p : Page)
      → read b a count ≡ some p
      → p.later ≡ none
      → walk (suc fuel) b a count ≡ some p.text
  unfolding walk
  walk-last fuel a p e l = rw (e, walk) (rw l)

  walk-more :
      (fuel : ℕ) (a : Anchor) (p : Page) (c : Cursor)
      → read b a count ≡ some p
      → p.later ≡ some c
      → walk (suc fuel) b a count ≡ before p.text (walk fuel b (at c) count)
  unfolding walk
  walk-more fuel a p c e l = rw (e, walk) (rw l)

module _ (b : Buffer) (count : ℕ) (indexed : IsIndexed b) (asked : 0 < count)
    (fits : lines b + count < size_mod) where
  read_at :
      (a : Anchor) (start : ℕ)
      → start_of a (lines b) count ≡ start
      → read b a count ≡ some (expected b indexed start count)
  read_at a start e = rw (← e) (read_lem b indexed a count fits)

  walk-expected :
      (fuel : ℕ) (a : Anchor) (start : ℕ)
      → start_of a (lines b) count ≡ start
      → lines b - start < fuel
      → walk fuel b a count ≡ some (join_lines (drop start (lines_of b.text)))
  walk-expected zero a start e h = absurd (omega arith)
  walk-expected (suc fuel) a start e h = elim (Bool-cases (leb (lines b) start)) [
    | inl past ↦
        walk-last b count fuel a (expected b indexed start count) (read_at a start e) (rw past)
        ∙ rw (
          past,
          drop-past start (lines_of b.text)
              (omega (arith, lines_count b indexed, leb→le (lines b) start past)),
        )
    | inr in_range ↦
        let within : start < lines b = ground arith in
        elim (Bool-cases (ltb (min (lines b) (start + count)) (lines b))) [
          | inr done ↦
              walk-last b count fuel a (expected b indexed start count) (read_at a start e)
                (expected-later b indexed start count within asked ∙ rw done)
              ∙ ap (λ t. some t)
                  (expected-text b indexed start count
                    ∙ ap join_lines (
                        take-past count (drop start (lines_of b.text)) (
                          ground
                            (arith, length-drop start (lines_of b.text), lines_count b indexed))))
          | inl more ↦
              let whole : min (lines b) (start + count) ≡ start + count = ground arith in
              walk-more b count fuel a (expected b indexed start count)
                (record { buffer = b.id; line = start + count }) (read_at a start e)
                (expected-later b indexed start count within asked ∙ rw (more, whole))
              ∙ ap (before (expected b indexed start count).text) (
                  walk-expected fuel (at (record { buffer = b.id; line = start + count }))
                    (start + count) (unfold start_of in refl) (omega arith))
              ∙ ap (λ t. some t)
                  (ap (λ t. t ++ join_lines (drop (start + count) (lines_of b.text)))
                      (expected-text b indexed start count)
                    ∙ sym (
                        join_lines-append (take count (drop start (lines_of b.text)))
                          (drop (start + count) (lines_of b.text)))
                    ∙ ap join_lines (
                        ap (λ t. take count (drop start (lines_of b.text)) ++ t)
                          (sym (drop-drop start count (lines_of b.text)))
                        ∙ take-append-drop count (drop start (lines_of b.text))))
        ]
  ]

-- Paging from the head along the `later` cursors, with at least one line a page, ends, and the pages
-- shown, one after the other, are the whole output, every line once and in order.
pub walk-head :
    (b : Buffer) (count : ℕ)
    → IsIndexed b
    → 0 < count
    → lines b + count < size_mod
    → walk (suc (lines b)) b head count ≡ some (complete b.text)
walk-head b count v p h =
    walk-expected b count v p h (suc (lines b)) head 0 (unfold start_of in refl) (omega arith)
    ∙ ap (λ t. some t) (join-lines_of b.text)
