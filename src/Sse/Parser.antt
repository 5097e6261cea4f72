-- ===== src/Sse/Parser.antt =====
-- The parser's state and its operations: `HandleLine`, `Dispatch`, `Feed` and `Finish` of
-- src/core/sse.cpp. What the callbacks are called with is a list, in order.
use mathlib.Core.List.{reverse}
use pu_cli.Base.{
  ℕ, zero, suc, Bool, true, false, not, ◌&&◌, Option, none, some, List, [], ◌∷◌, ◌++◌, Bytes, codes,
  length, is_empty, ◌==◌, if◌then◌else◌,
}
use pu_cli.Text.Utf8.{ends_with_partial_sequence}
use pu_cli.Sse.Fields.{colon, bytes_eq, split_field, starts_a_field, retry_milliseconds}

-- `SseEvent`; `payload` is the source's `data`.
pub record SseEvent : Type 0 where
  pub event : Bytes
  pub id : Bytes
  pub payload : Bytes

abbrev pub no_event : SseEvent
no_event = record { event = []; id = []; payload = [] }

-- A call of `on_event_` or of `on_retry_`.
pub data Emission : Type 0 where
  event : SseEvent → Emission
  retry : ℕ → Emission

-- The fields of `SseParser` but for the buffer.
pub record Frame : Type 0 where
  pub bare_lines_are_events : Bool
  pub listens_to_retry : Bool
  pub pending : SseEvent
  pub has_data : Bool

pub record SseParser : Type 0 where
  pub buffer : Bytes
  pub frame : Frame

-- `SetBareLinesAreEvents`
abbrev set_bare_lines_are_events : Bool → SseParser → SseParser
set_bare_lines_are_events enabled p = record p {
  frame = record p.frame { bare_lines_are_events = enabled };
}

-- `OnRetry`, with a callback that is there.
abbrev on_retry : SseParser → SseParser
on_retry p = record p { frame = record p.frame { listens_to_retry = true } }

-- `Dispatch`
unfoldable pub dispatch : Frame → List Emission × Frame
dispatch f = (
  if f.has_data then event f.pending ∷ [] else [],
  record f { pending = no_event; has_data = false },
)

-- The text up to the first newline, and what follows the newline.
unfoldable pub split_line : Bytes → Option (Bytes × Bytes)
split_line [] = none
split_line (c ∷ s) =
    if c == b'\n'
    then some ([], s)
    else elim (split_line s) [ none ↦ none | some (l, r) ↦ some (c ∷ l, r) ]

abbrev pub drop_last_cr : Bytes → Bytes
drop_last_cr [] = []
drop_last_cr (c ∷ r) = if c == b'\r' then r else c ∷ r

-- `if (line.back() == '\r') line.pop_back();`
unfoldable pub chop_cr : Bytes → Bytes
chop_cr line = reverse (drop_last_cr (reverse line))

-- The line that the loop of `Feed` takes next, and the buffer that it leaves; none where it stops.
unfoldable pub next_line : Bytes → Option (Bytes × Bytes)
next_line buffer = elim (split_line buffer) [
  | none ↦ none
  | some (raw, rest) ↦
      if ends_with_partial_sequence (chop_cr raw) then none else some (chop_cr raw, rest)
]

-- One step, then what follows it from the frame that it left.
abbrev pub and_then :
    List Emission × Frame → (Frame → List Emission × SseParser) → List Emission × SseParser
and_then m k = (m.0 ++ (k m.1).0, (k m.1).1)

abbrev pub retry_emission : Option ℕ → List Emission
retry_emission none = []
retry_emission (some ms) = retry ms ∷ []

-- `boost::json::parse` decides whether a text is one value; `parses` says whether it did.
module _ (parses : Bytes → Bool) where
  -- `ParsesAsOneValue`
  unfoldable pub parses_as_one_value : Bytes → Bool
  parses_as_one_value s =
      if is_empty s then false else if bytes_eq s (codes "[DONE]") then true else parses s

  -- `pending_.data += ...`, with the newline that several `data:` lines were split at.
  unfoldable pub collect : Bytes → Frame → Frame
  collect value f = record f {
    pending = record f.pending {
      payload =
          (if f.has_data then f.pending.payload ++ b'\n' ∷ [] else f.pending.payload) ++ value;
    };
    has_data = true;
  }

  unfoldable pub handle_data : Bytes → Frame → List Emission × Frame
  unfolding dispatch collect
  handle_data value f =
      if f.has_data && parses_as_one_value f.pending.payload
      then ((dispatch f).0, collect value (dispatch f).1)
      else ([], collect value f)

  unfoldable pub handle_field : Bytes → Bytes → Frame → List Emission × Frame
  unfolding handle_data
  handle_field field value f =
      if bytes_eq field (codes "data")
      then handle_data value f
      else if bytes_eq field (codes "event")
      then ([], record f { pending = record f.pending { event = value } })
      else if bytes_eq field (codes "id")
      then ([], record f { pending = record f.pending { id = value } })
      else if bytes_eq field (codes "retry")
      then (if f.listens_to_retry then retry_emission (retry_milliseconds value) else [], f)
      else ([], f)

  -- `HandleLine`
  unfoldable pub handle_line : Bytes → Frame → List Emission × Frame
  unfolding handle_field
  handle_line [] f = dispatch f
  handle_line (c ∷ s) f =
      if c == colon
      then ([], f)
      else if f.bare_lines_are_events && not (starts_a_field (c ∷ s))
      then (event (record no_event { payload = c ∷ s }) ∷ [], f)
      else handle_field (split_field (c ∷ s)).0 (split_field (c ∷ s)).1 f

  -- The loop of `Feed`; every round takes a line out of the buffer.
  unfoldable pub drain : ℕ → Bytes → Frame → List Emission × SseParser
  drain zero buffer f = ([], record { buffer = buffer; frame = f })
  drain (suc fuel) buffer f = elim (next_line buffer) [
    | none ↦ ([], record { buffer = buffer; frame = f })
    | some (line, rest) ↦ and_then (handle_line line f) (drain fuel rest)
  ]

  -- `Feed`
  unfoldable pub feed : Bytes → SseParser → List Emission × SseParser
  unfolding drain
  feed bytes p = drain (length (p.buffer ++ bytes)) (p.buffer ++ bytes) p.frame

  abbrev pub last_line : Bytes → Frame → List Emission × Frame
  last_line [] f = ([], f)
  last_line (c ∷ s) f =
      if ends_with_partial_sequence (chop_cr (c ∷ s))
      then ([], f)
      else handle_line (chop_cr (c ∷ s)) f

  -- `Finish`
  unfoldable pub finish : SseParser → List Emission × SseParser
  finish p =
      and_then (last_line p.buffer p.frame)
        (λ f. ((dispatch f).0, record { buffer = []; frame = (dispatch f).1 }))
