-- ===== src/Text/Tests.antt =====
-- `SanitizeUtf8` and its companions on concrete bytes.
use pu_cli.Base.{none, true, [], ◌∷◌, ◌≡◌, refl, Bytes}
use pu_cli.Text.Utf8.{
  is_valid_utf8, sanitize_utf8, ends_with_partial_sequence, sanitize_from, valid_sequence_length,
  check_sequence, all_continuation, is_continuation_byte, sequence_length, decode_code_point,
  partial_from_end,
}
use pu_cli.Text.Sanitize.{sanitize_utf8_lem}

-- "a", the first byte of a pair alone, "b".
abbrev broken : Bytes
broken = b'a' ∷ 0xC3 ∷ b'b' ∷ []

sanitize_utf8_lem_example :
    (is_valid_utf8 (sanitize_utf8 broken) ≡ true)
    × (is_valid_utf8 broken ≡ true → sanitize_utf8 broken ≡ broken)
sanitize_utf8_lem_example = sanitize_utf8_lem broken

sanitize_broken : sanitize_utf8 broken ≡ b'a' ∷ 0xEF ∷ 0xBF ∷ 0xBD ∷ b'b' ∷ []
unfolding sanitize_utf8 sanitize_from valid_sequence_length check_sequence all_continuation
    is_continuation_byte sequence_length decode_code_point
sanitize_broken = refl

-- An overlong pair, a surrogate and a code point past the last one are refused.
refused_sequences :
    (valid_sequence_length (0xC0 ∷ 0x80 ∷ []) ≡ none)
    × (valid_sequence_length (0xED ∷ 0xA0 ∷ 0x80 ∷ []) ≡ none)
    × (valid_sequence_length (0xF4 ∷ 0x90 ∷ 0x80 ∷ 0x80 ∷ []) ≡ none)
unfolding valid_sequence_length check_sequence all_continuation is_continuation_byte sequence_length
    decode_code_point
refused_sequences = (refl, refl, refl)

half_a_character : ends_with_partial_sequence (b'a' ∷ 0xE2 ∷ 0x82 ∷ []) ≡ true
unfolding ends_with_partial_sequence partial_from_end is_continuation_byte sequence_length
half_a_character = refl
