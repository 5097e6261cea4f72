-- ===== src/Paging/Cursors.antt =====
-- `Cursor::ToString`, `Cursor::Parse` and `Anchor::Parse` of src/paging/paging.cpp.
use pu_cli.Base.{
  ℕ, ◌^◌, ◌≤◌, ◌<◌, ◌||◌, Option, none, some, [], ◌∷◌, ◌++◌, ◌≡◌, ◌≢◌, refl, arith, Bytes, codes,
  is_empty, length, All, ltb, ◌==◌, if◌then◌else◌,
}
use pu_cli.Sse.Fields.{bytes_eq}
use pu_cli.Paging.Data.{Cursor, Anchor, head, tail, at}
use pu_cli.Paging.Decimal.{
  to_string, read_digits, read-to_string, to_string-IsDigit, length-to_string, IsDigit,
}

abbrev pub colon : ℕ
colon = b':'

unfoldable pub cursor_to_string : Cursor → Bytes
cursor_to_string c = c.buffer ++ colon ∷ to_string c.line

-- The text around the last colon: `text.rfind(':')`.
unfoldable pub split_last_colon : Bytes → Option (Bytes × Bytes)
split_last_colon [] = none
split_last_colon (c ∷ s) = elim (split_last_colon s) [
  | some (a, b) ↦ some (c ∷ a, b)
  | none ↦ if c == colon then some ([], s) else none
]

abbrev pub cursor_at : Bytes → Option ℕ → Option Cursor
cursor_at buffer none = none
cursor_at buffer (some line) = some (record { buffer = buffer; line = line })

unfoldable pub cursor_parts : Option (Bytes × Bytes) → Option Cursor
cursor_parts none = none
cursor_parts (some (buffer, digits)) =
    if is_empty buffer || is_empty digits
    then none
    else if ltb 12 (length digits)
    then none
    else cursor_at buffer (read_digits 0 digits)

-- `Cursor::Parse`
unfoldable pub parse_cursor : Bytes → Option Cursor
unfolding cursor_parts
parse_cursor text = cursor_parts (split_last_colon text)

abbrev pub anchor_at : Option Cursor → Option Anchor
anchor_at none = none
anchor_at (some c) = some (at c)

-- `Anchor::Parse`
unfoldable pub parse_anchor : Bytes → Option Anchor
parse_anchor text =
    if bytes_eq text (codes "head")
    then some head
    else if bytes_eq text (codes "tail")
    then some tail
    else anchor_at (parse_cursor text)

split_last_colon-none : (s : Bytes) → All IsDigit s → split_last_colon s ≡ none
unfolding split_last_colon
split_last_colon-none [] a = refl
split_last_colon-none (c ∷ s) a = ground (arith, split_last_colon-none s a.1)

split_last_colon-append :
    (a s : Bytes) → All IsDigit s → split_last_colon (a ++ colon ∷ s) ≡ some (a, s)
unfolding split_last_colon
split_last_colon-append [] s h = ground (arith, split_last_colon-none s h)
split_last_colon-append (c ∷ a) s h = ground (arith, split_last_colon-append a s h)

cursor_parts-some :
    (buffer digits : Bytes) (line : ℕ)
    → buffer ≢ []
    → (length digits ≤ 12) × (0 < length digits)
    → read_digits 0 digits ≡ some line
    → cursor_parts (some (buffer, digits)) ≡ some (record { buffer = buffer; line = line })
unfolding cursor_parts
cursor_parts-some [] digits line n h r = absurd (n refl)
cursor_parts-some (b ∷ buffer) [] line n h r = absurd (omega arith)
cursor_parts-some (b ∷ buffer) (d ∷ digits) line n h r = ground arith

-- A cursor that names a buffer and a line below 10 ^ 12 is read back as itself from the text that it
-- is written as, also where the buffer's id holds colons.
pub parse-cursor_to_string :
    (c : Cursor) → c.buffer ≢ [] → c.line < 10 ^ 12 → parse_cursor (cursor_to_string c) ≡ some c
unfolding parse_cursor cursor_to_string
parse-cursor_to_string c n h =
    rw (split_last_colon-append c.buffer (to_string c.line) (to_string-IsDigit c.line)) (
      cursor_parts-some c.buffer (to_string c.line) c.line n (length-to_string c.line h)
        (read-to_string c.line (omega arith)))
