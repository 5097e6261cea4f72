-- ===== src/Sse/Tests.antt =====
-- The event-stream parser on concrete bytes. `no_value` is a parser of JSON that accepts nothing.
use pu_cli.Base.{Bool, true, false, [], ◌∷◌, ◌++◌, ◌≡◌, refl, Bytes, codes, arith, All}
use pu_cli.Text.Utf8.{
  ends_with_partial_sequence, partial_from_end, is_continuation_byte, sequence_length,
}
use pu_cli.Sse.Fields.{bytes_eq}
use pu_cli.Sse.Parser.{event, SseParser, feed, split_line, chop_cr, parses_as_one_value}
use pu_cli.Sse.Chunks.{then_feed, feed-append, feed_stalls}
use pu_cli.Sse.Frames.{IsLine, frame_lines, fresh, feed-frame_lines}

abbrev no_value : Bytes → Bool
no_value s = false

abbrev start : SseParser
start = record { buffer = []; frame = fresh false true }

feed-append_example :
    feed no_value (codes "data: a\ndat" ++ codes "a: b\n\n") start
    ≡ then_feed no_value (feed no_value (codes "data: a\ndat") start) (codes "a: b\n\n")
feed-append_example = feed-append no_value (codes "data: a\ndat") (codes "a: b\n\n") start

-- A line that stops inside the two bytes of a character, and whatever a server sends after it.
abbrev stalled : SseParser
stalled = record start { buffer = codes "data: " ++ 0xC3 ∷ b'\n' ∷ [] }

feed_stalls_example :
    feed no_value (codes "\ndata: b\n\n") stalled
    ≡ ([], record stalled { buffer = stalled.buffer ++ codes "\ndata: b\n\n" })
feed_stalls_example =
    feed_stalls no_value stalled (codes "data: " ++ 0xC3 ∷ []) [] (codes "\ndata: b\n\n")
      (unfold split_line in refl)
      (unfold chop_cr ends_with_partial_sequence partial_from_end is_continuation_byte
          sequence_length in
        refl)

IsLine-facts : All IsLine (frame_lines (codes "tick") (codes "7") (codes "a") (codes "b" ∷ []))
unfolding chop_cr ends_with_partial_sequence partial_from_end is_continuation_byte sequence_length
IsLine-facts = (
  record { one_line = omega arith; no_cr = refl; whole = refl },
  (
    record { one_line = omega arith; no_cr = refl; whole = refl },
    (
      record { one_line = omega arith; no_cr = refl; whole = refl },
      (
        record { one_line = omega arith; no_cr = refl; whole = refl },
        (record { one_line = omega arith; no_cr = refl; whole = refl }, tt),
      ),
    ),
  ),
)

feed-frame_lines_example :
    feed no_value (codes "event: tick\nid: 7\ndata: a\ndata: b\n\n") start
    ≡ (event (record { event = codes "tick"; id = codes "7"; payload = codes "a\nb" }) ∷ [], start)
feed-frame_lines_example =
    feed-frame_lines no_value (codes "tick") (codes "7") (codes "a") (codes "b" ∷ []) false true
      IsLine-facts (unfold parses_as_one_value bytes_eq in (refl, tt))
