-- ===== src/Text/Utf8.antt =====
-- UTF-8 sequences (include/pu/core/text.hpp, namespace detail, `IsValidUtf8`, `SanitizeUtf8` and
-- `EndsWithPartialSequence`). The loops take fuel, and the length of the text is enough.
use Prim.Native.Nat.{bit_and, bit_or}
use mathlib.Core.List.{foldl, reverse}
use pu_cli.Base.{
  ℕ, zero, suc, ◌+◌, ◌-◌, ◌*◌, Bool, true, false, ◌&&◌, ◌||◌, Option, none, some, [], ◌∷◌, ◌++◌,
  Bytes, length, take, drop, ltb, leb, ◌==◌, if◌then◌else◌,
}

unfoldable pub is_continuation_byte : ℕ → Bool
is_continuation_byte byte = bit_and byte 0xC0 == 0x80

-- The table of lead patterns, read from the top.
unfoldable pub sequence_length : ℕ → ℕ
sequence_length lead =
    if bit_and lead 0x80 == 0x00
    then 1
    else if bit_and lead 0xE0 == 0xC0
    then 2
    else if bit_and lead 0xF0 == 0xE0
    then 3
    else if bit_and lead 0xF8 == 0xF0
    then 4
    else 0

-- `kLeadPayloadMask[length - 1]`
abbrev pub lead_payload_mask : ℕ → ℕ
lead_payload_mask n =
    if n == 1 then 0x7F else if n == 2 then 0x1F else if n == 3 then 0x0F else 0x07

-- `(code_point << 6) | (byte & 0x3F)`
abbrev pub add_payload : ℕ → ℕ → ℕ
add_payload code_point byte = bit_or (code_point * 64) (bit_and byte 0x3F)

unfoldable pub decode_code_point : ℕ → Bytes → ℕ → ℕ
decode_code_point lead tail n = foldl add_payload (bit_and lead (lead_payload_mask n)) tail

abbrev pub is_overlong : ℕ → ℕ → Bool
is_overlong n code_point =
    (n == 2 && ltb code_point 0x80)
    || (n == 3 && ltb code_point 0x800)
    || (n == 4 && ltb code_point 0x10000)

abbrev pub is_surrogate : ℕ → Bool
is_surrogate code_point = leb 0xD800 code_point && leb code_point 0xDFFF

abbrev pub max_code_point : ℕ
max_code_point = 0x10FFFF

unfoldable pub all_continuation : Bytes → Bool
all_continuation [] = true
all_continuation (b ∷ s) = is_continuation_byte b && all_continuation s

-- The tests on a sequence of `n` bytes that is all there: its tail, then the code point.
unfoldable pub check_sequence : ℕ → ℕ → Bytes → Option ℕ
check_sequence n lead tail =
    let code_point = decode_code_point lead tail n in
    if all_continuation tail
    then (if is_overlong n code_point || is_surrogate code_point || ltb max_code_point code_point
        then none
        else some n)
    else none

unfoldable pub valid_sequence_length : Bytes → Option ℕ
valid_sequence_length [] = none
valid_sequence_length (lead ∷ s) =
    let n = sequence_length lead in
    if n == 0 || ltb (length (lead ∷ s)) n then none else check_sequence n lead (take (n - 1) s)

unfoldable pub valid_from : ℕ → Bytes → Bool
valid_from fuel [] = true
valid_from zero (b ∷ s) = false
valid_from (suc fuel) (b ∷ s) = elim (valid_sequence_length (b ∷ s)) [
  | none ↦ false
  | some n ↦ valid_from fuel (drop n (b ∷ s))
]

unfoldable pub is_valid_utf8 : Bytes → Bool
is_valid_utf8 text = valid_from (length text) text

-- U+FFFD
abbrev pub utf8_replacement_character : Bytes
utf8_replacement_character = 0xEF ∷ 0xBF ∷ 0xBD ∷ []

unfoldable pub sanitize_from : ℕ → Bytes → Bytes
sanitize_from fuel [] = []
sanitize_from zero (b ∷ s) = []
sanitize_from (suc fuel) (b ∷ s) = elim (valid_sequence_length (b ∷ s)) [
  | none ↦ utf8_replacement_character ++ sanitize_from fuel s
  | some n ↦ take n (b ∷ s) ++ sanitize_from fuel (drop n (b ∷ s))
]

unfoldable pub sanitize_utf8 : Bytes → Bytes
sanitize_utf8 text = sanitize_from (length text) text

-- The bytes behind `index`, from the last one back: `k` continuation bytes have been passed.
unfoldable pub partial_from_end : ℕ → Bytes → Bool
partial_from_end k [] = true
partial_from_end k (b ∷ s) =
    let n = sequence_length b in
    if is_continuation_byte b
    then partial_from_end (k + 1) s
    else if leb n 1
    then false
    else ltb (k + 1) n

unfoldable pub ends_with_partial_sequence : Bytes → Bool
ends_with_partial_sequence [] = false
ends_with_partial_sequence (b ∷ s) = partial_from_end 0 (reverse (b ∷ s))
