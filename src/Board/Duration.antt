-- ===== src/Board/Duration.antt =====
-- `ParseDuration` of src/serve/board.cpp: the token that a job's `due` accepts.
use pu_cli.Base.{
  ℕ, ◌+◌, ◌-◌, ◌*◌, ◌^◌, Bool, ◌&&◌, Option, none, some, [], ◌∷◌, Bytes, is_empty, leb, ltb, ◌==◌,
  if◌then◌else◌,
}

-- `count * scale` is a product of two `std::int64_t`, whose overflow is undefined.
pub data Span : Type 0 where
  seconds : ℕ → Span
  overflowed : Span

abbrev pub int64_max : ℕ
int64_max = 2 ^ 63 - 1

abbrev pub is_digit : ℕ → Bool
is_digit c = leb b'0' c && leb c b'9'

-- The digits in front, and what `text.substr(split)` leaves.
unfoldable pub split_digits : Bytes → Bytes × Bytes
split_digits [] = ([], [])
split_digits (c ∷ s) =
    let rest = split_digits s in if is_digit c then (c ∷ rest.0, rest.1) else ([], c ∷ s)

-- The number that a run of digits writes; `std::from_chars` refuses one that does not fit.
unfoldable pub digits_value : ℕ → Bytes → ℕ
digits_value n [] = n
digits_value n (c ∷ s) = digits_value (n * 10 + (c - b'0')) s

unfoldable pub unit_scale : Bytes → Option ℕ
unit_scale (c ∷ []) =
    if c == b's'
    then some 1
    else if c == b'm'
    then some 60
    else if c == b'h'
    then some 3600
    else if c == b'd'
    then some 86400
    else none
unit_scale _ = none

abbrev pub times : ℕ → ℕ → Span
times count scale = if ltb int64_max (count * scale) then overflowed else seconds (count * scale)

abbrev pub scaled : ℕ → Option ℕ → Option Span
scaled count none = none
scaled count (some scale) = some (times count scale)

unfoldable pub parse_duration : Bytes → Option Span
parse_duration text =
    let parts = split_digits text in
    let count = digits_value 0 parts.0 in
    if is_empty parts.0
    then none
    else if ltb int64_max count
    then none
    else if count == 0
    then none
    else scaled count (unit_scale parts.1)
