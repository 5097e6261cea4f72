-- ===== src/Paging/Reading.antt =====
-- `Read` of src/paging/paging.cpp: one page of a stored buffer.
use Prim.Native.Nat.{min}
use pu_cli.Base.{
  ℕ, zero, suc, ◌-◌, ◌||◌, Option, none, some, [], ◌∷◌, ◌++◌, Bytes, size_add, ltb, leb, ◌==◌,
  if◌then◌else◌,
}
use pu_cli.Paging.Data.{
  skipped, Buffer, lines, line, newline, Cursor, Anchor, head, tail, at, Page, empty_page,
}

-- Where a read starts. A cursor's line is taken as it is.
unfoldable pub start_of : Anchor → ℕ → ℕ → ℕ
start_of (at c) retained count = c.line
start_of tail retained count = if ltb count retained then retained - count else 0
start_of head retained count = 0

abbrev pub join_line : Option Bytes → Option Bytes → Option Bytes
join_line none rest = none
join_line (some l) none = none
join_line (some l) (some rest) = some ((l ++ newline ∷ []) ++ rest)

-- The loop that appends lines to a page, `count` of them from `i` on; none where a line would be read
-- out of bounds.
unfoldable pub page_text : Buffer → ℕ → ℕ → Option Bytes
page_text b i zero = some []
page_text b i (suc count) = join_line (line b i) (page_text b (suc i) count)

abbrev pub earlier_of : Bytes → ℕ → ℕ → Option Cursor
earlier_of id start count =
    if ltb 0 start
    then some (record { buffer = id; line = if ltb count start then start - count else 0 })
    else none

abbrev pub later_of : Bytes → ℕ → ℕ → Option Cursor
later_of id end retained =
    if ltb end retained then some (record { buffer = id; line = end }) else none

abbrev pub page_of : Buffer → ℕ → ℕ → ℕ → Option Bytes → Option Page
page_of b start end count none = none
page_of b start end count (some text) = some (record {
  text = text;
  first = size_add (size_add start 1) (skipped b.extent);
  last = size_add end (skipped b.extent);
  earlier = earlier_of b.id start count;
  later = later_of b.id end (lines b);
})

-- The page from `start` up to `end`.
unfoldable pub read_between : Buffer → ℕ → ℕ → ℕ → Option Page
unfolding page_text
read_between b start end count = page_of b start end count (page_text b start (end - start))

unfoldable pub read_from : Buffer → ℕ → ℕ → Option Page
unfolding read_between
read_from b start count =
    if leb (lines b) start
    then some empty_page
    else read_between b start (min (lines b) (size_add start count)) count

-- `Read`; none would be a read out of bounds.
unfoldable pub read : Buffer → Anchor → ℕ → Option Page
unfolding read_from start_of
read b anchor count =
    if lines b == 0 || count == 0
    then some empty_page
    else read_from b (start_of anchor (lines b) count) count
