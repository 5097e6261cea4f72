-- ===== src/Exec/Tests.antt =====
-- Captures of concrete output.
use pu_cli.Base.{List, [], ◌∷◌, ◌≡◌, refl, Bytes, codes}
use pu_cli.Exec.Capture.{
  head, new_capture, take_captured, append_all, append, count_newlines, count_lines, trim_head,
  pop_partial, whole_lines,
}
use pu_cli.Text.Utf8.{
  ends_with_partial_sequence, partial_from_end, is_continuation_byte, sequence_length,
}

abbrev printed : List Bytes
printed = codes "one\ntw" ∷ codes "o\nthree" ∷ []

-- The budget ends in the third line.
head_lines : (take_captured (append_all printed (new_capture 10 head))).text ≡ codes "one\ntwo\n"
unfolding take_captured append_all append count_newlines count_lines trim_head pop_partial
    whole_lines ends_with_partial_sequence partial_from_end is_continuation_byte sequence_length
head_lines = refl
