-- ===== src/Paging/Data.antt =====
-- What a page is made of: a command's extent, verdict and output (include/pu/exec/run.hpp), the
-- stored buffer, cursors, anchors and pages (include/pu/paging/paging.hpp, src/paging/paging.cpp).
use pu_cli.Base.{
  ℕ, suc, ◌+◌, ◌-◌, Bool, ◌&&◌, Option, none, some, List, [], ◌∷◌, ℤ, Bytes, length, take, drop,
  get_elem?, ltb, ◌==◌, if◌then◌else◌,
}

-- `exec::Extent`
pub record Extent : Type 0 where
  pub lines : ℕ
  pub bytes : ℕ
  pub retained : ℕ
  pub from_end : Bool

unfoldable pub truncated : Extent → Bool
truncated e = ltb e.retained e.lines

unfoldable pub skipped : Extent → ℕ
skipped e = if e.from_end && ltb e.retained e.lines then e.lines - e.retained else 0

-- `exec::Verdict`
pub record Verdict : Type 0 where
  pub command : Bytes
  pub ok : Bool
  pub exit_code : ℤ
  pub error : Bytes
  pub stopped : Bool

-- `exec::Captured`
pub record Captured : Type 0 where
  pub text : Bytes
  pub extent : Extent

abbrev pub newline : ℕ
newline = b'\n'

-- The loop of `IndexLines`: a newline that is not the last byte starts a line behind it.
unfoldable pub starts_from : ℕ → Bytes → List ℕ
starts_from i [] = []
starts_from i (c ∷ []) = []
starts_from i (c ∷ d ∷ s) =
    if c == newline then (i + 1) ∷ starts_from (i + 1) (d ∷ s) else starts_from (i + 1) (d ∷ s)

-- `IndexLines`
unfoldable pub index_lines : Bytes → List ℕ
index_lines [] = []
index_lines (c ∷ s) = 0 ∷ starts_from 0 (c ∷ s)

pub record Buffer : Type 0 where
  pub id : Bytes
  pub source : Bytes
  pub verdict : Verdict
  pub text : Bytes
  pub extent : Extent
  pub rank : ℕ
  pub line_starts : List ℕ

-- The constructor of `Buffer`.
abbrev pub make_buffer : Bytes → Bytes → Verdict → Bytes → Extent → ℕ → Buffer
make_buffer id source verdict text extent rank = record {
  id = id;
  source = source;
  verdict = verdict;
  text = text;
  extent = extent;
  rank = rank;
  line_starts = index_lines text;
}

-- `Buffer::lines` and `Buffer::bytes`
abbrev pub lines : Buffer → ℕ
lines b = length b.line_starts

abbrev pub bytes : Buffer → ℕ
bytes b = length b.text

-- `if (line.back() == '\n') line.remove_suffix(1);`
unfoldable pub chop_newline : Bytes → Bytes
chop_newline [] = []
chop_newline (c ∷ []) = if c == newline then [] else c ∷ []
chop_newline (c ∷ d ∷ s) = c ∷ chop_newline (d ∷ s)

-- The bytes from `begin` up to `end`.
abbrev pub slice : Bytes → ℕ → ℕ → Bytes
slice text begin end = take (end - begin) (drop begin text)

abbrev pub end_of : Bytes → Option ℕ → ℕ
end_of text none = length text
end_of text (some end) = end

abbrev pub line_between : Bytes → Option ℕ → Option ℕ → Option Bytes
line_between text none next = none
line_between text (some begin) next = some (chop_newline (slice text begin (end_of text next)))

-- A line of a text by the table of line starts; none where the read would be out of bounds.
unfoldable pub line_in : Bytes → List ℕ → ℕ → Option Bytes
line_in text starts index =
    line_between text (get_elem? starts index) (get_elem? starts (suc index))

-- `Buffer::line`
unfoldable pub line : Buffer → ℕ → Option Bytes
unfolding line_in
line b index = line_in b.text b.line_starts index

pub record Cursor : Type 0 where
  pub buffer : Bytes
  pub line : ℕ

pub data Anchor : Type 0 where
  head tail : Anchor
  at : Cursor → Anchor

pub record Page : Type 0 where
  pub text : Bytes
  pub first : ℕ
  pub last : ℕ
  pub earlier : Option Cursor
  pub later : Option Cursor

abbrev pub empty_page : Page
empty_page = record { text = []; first = 0; last = 0; earlier = none; later = none }
