-- ===== src/Sse/Fields.antt =====
-- How src/core/sse.cpp reads one line: `SplitField`, `StartsAField`, and the number of a `retry` line.
use pu_cli.Base.{
  ℕ, ◌+◌, ◌-◌, ◌*◌, ◌^◌, Bool, true, false, ◌&&◌, ◌||◌, Option, none, some, [], ◌∷◌, Bytes, codes,
  ltb, leb, ◌==◌, if◌then◌else◌,
}

-- What follows a prefix.
unfoldable pub strip_prefix : Bytes → Bytes → Option Bytes
strip_prefix [] s = some s
strip_prefix (p ∷ ps) [] = none
strip_prefix (p ∷ ps) (c ∷ s) = if p == c then strip_prefix ps s else none

unfoldable pub bytes_eq : Bytes → Bytes → Bool
bytes_eq [] [] = true
bytes_eq [] (d ∷ t) = false
bytes_eq (c ∷ s) [] = false
bytes_eq (c ∷ s) (d ∷ t) = c == d && bytes_eq s t

abbrev pub colon : ℕ
colon = b':'

-- The text around the first colon; none where there is no colon.
unfoldable pub around_colon : Bytes → Option (Bytes × Bytes)
around_colon [] = none
around_colon (c ∷ s) =
    if c == colon
    then some ([], s)
    else elim (around_colon s) [ none ↦ none | some (f, v) ↦ some (c ∷ f, v) ]

unfoldable pub drop_space : Bytes → Bytes
drop_space [] = []
drop_space (c ∷ s) = if c == b' ' then s else c ∷ s

-- `SplitField`: the field's name and its value.
unfoldable pub split_field : Bytes → Bytes × Bytes
split_field line = elim (around_colon line) [
  | none ↦ (line, [])
  | some (field, value) ↦ (field, drop_space value)
]

unfoldable pub begins_with_colon : Option Bytes → Bool
begins_with_colon (some (c ∷ s)) = c == colon
begins_with_colon _ = false

-- `StartsAField`
unfoldable pub starts_a_field : Bytes → Bool
starts_a_field line =
    begins_with_colon (strip_prefix (codes "data") line)
    || begins_with_colon (strip_prefix (codes "event") line)
    || begins_with_colon (strip_prefix (codes "id") line)
    || begins_with_colon (strip_prefix (codes "retry") line)

-- `std::isspace` in the classic locale.
abbrev pub is_space : ℕ → Bool
is_space c = c == b' ' || (leb 9 c && leb c 13)

unfoldable pub skip_spaces : Bytes → Bytes
skip_spaces [] = []
skip_spaces (c ∷ s) = if is_space c then skip_spaces s else c ∷ s

-- The number in front, none if there is no digit; what follows the digits is not looked at.
unfoldable pub leading_number : Option ℕ → Bytes → Option ℕ
leading_number n [] = n
leading_number n (c ∷ s) =
    let value : ℕ = elim n [ none ↦ 0 | some v ↦ v ] in
    let next : Option ℕ = some (value * 10 + (c - b'0')) in
    let rest = leading_number next s in if leb b'0' c && leb c b'9' then rest else n

-- `std::stoi` refuses a number out of the range of `int`.
abbrev pub in_int : Option ℕ → Option ℕ
in_int none = none
in_int (some n) = if ltb n (2 ^ 31) then some n else none

-- A negative number is passed over, and minus nought is nought.
abbrev pub negated : Option ℕ → Option ℕ
negated none = none
negated (some n) = if n == 0 then some 0 else none

unfoldable pub signed_milliseconds : Bytes → Option ℕ
unfolding leading_number
signed_milliseconds [] = none
signed_milliseconds (c ∷ s) =
    if c == b'-'
    then negated (leading_number none s)
    else if c == b'+'
    then in_int (leading_number none s)
    else in_int (leading_number none (c ∷ s))

-- The milliseconds that a `retry` line hands on: `std::stoi`, kept where it is not negative.
unfoldable pub retry_milliseconds : Bytes → Option ℕ
unfolding signed_milliseconds skip_spaces
retry_milliseconds value = signed_milliseconds (skip_spaces value)
