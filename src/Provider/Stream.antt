-- ===== src/Provider/Stream.antt =====
-- The accumulators of a reply: `AppendContent`, `AppendReasoning`, `NoteUnreadFields` and
-- `NoteSeenField` of src/llm/streaming_provider.cpp, and the calls of tools that
-- src/llm/openai_protocol.cpp puts together.
use pu_cli.Base.{
  String, Bool, true, false, not, ◌||◌, Option, none, some, List, [], ◌∷◌, ◌++◌, codes, is_empty,
  if◌then◌else◌, str_eq,
}
use pu_cli.Session.Json.{member, text_or}
use pu_cli.Session.Message.{Reasoning}
use pu_cli.Runtime.Data.{ToolCall, append_text}
use pu_cli.Provider.Data.{WireValue, ToolCallAccumulator, Stream, Read, going, broken}

unfoldable pub contains : String → List String → Bool
contains key [] = false
contains key (k ∷ ks) = if str_eq k key then true else contains key ks

-- The members of an object whose keys nothing reads.
unfoldable pub unread_of : {J : Type 0} → List String → List (String × J) → List String
unfolding contains
unread_of keys [] = []
unread_of keys (m ∷ ms) = if contains m.0 keys then unread_of keys ms else m.0 ∷ unread_of keys ms

abbrev pub blank_call : ToolCallAccumulator
blank_call = record { id = ""; name = ""; arguments = "" }

-- A write to `back()`.
unfoldable pub change_last :
    (ToolCallAccumulator → ToolCallAccumulator)
    → List ToolCallAccumulator
    → List ToolCallAccumulator
change_last f [] = []
change_last f (a ∷ []) = f a ∷ []
change_last f (a ∷ b ∷ rest) = a ∷ change_last f (b ∷ rest)

module _ {J Amount : Type 0} (wire : WireValue J Amount) where
  -- `AppendContent`
  abbrev pub append_content : String → Stream J Amount → Stream J Amount
  append_content text s =
      if str_eq text ""
      then s
      else record s { content = append_text s.content text; tokens = s.tokens ++ text ∷ [] }

  unfoldable pub extend_last : String → List (Reasoning J) → List (Reasoning J)
  extend_last text [] = record { text = text; signature = ""; raw = wire.json.null } ∷ []
  extend_last text (b ∷ []) = record b { text = append_text b.text text } ∷ []
  extend_last text (b ∷ c ∷ bs) = b ∷ extend_last text (c ∷ bs)

  -- `AppendReasoning`, without a signature and a raw block.
  abbrev pub append_reasoning : String → Stream J Amount → Stream J Amount
  append_reasoning text s =
      if str_eq text "" then s else record s { reasoning = extend_last text s.reasoning }

  -- `NoteUnreadFields`
  abbrev pub note_unread_fields :
      List String → List (String × J) → Stream J Amount → Stream J Amount
  note_unread_fields keys ms s =
      if s.inspected_frame
      then s
      else record s { inspected_frame = true; unread_fields = s.unread_fields ++ unread_of keys ms }

  -- `NoteSeenField`
  abbrev pub note_seen_field : String → Stream J Amount → Stream J Amount
  note_seen_field key s =
      if contains key s.seen_fields then s else record s { seen_fields = s.seen_fields ++ key ∷ [] }

  unfoldable pub note_keys : List (String × J) → Stream J Amount → Stream J Amount
  unfolding contains
  note_keys [] s = s
  note_keys (m ∷ ms) s = note_keys ms (note_seen_field m.0 s)

  -- The name and the piece of the arguments that a call's function carries.
  abbrev pub fill_function : Option (List (String × J)) → ToolCallAccumulator → ToolCallAccumulator
  fill_function none a = a
  fill_function (some ms) a =
      let name = text_or wire.json "" (member "name" ms) in
      record a {
        name = if str_eq name "" then a.name else name;
        arguments = append_text a.arguments (text_or wire.json "" (member "arguments" ms));
      }

  abbrev pub object_of : Option J → Option (List (String × J))
  object_of none = none
  object_of (some j) = wire.json.as_object j

  abbrev pub fill_call : String → List (String × J) → ToolCallAccumulator → ToolCallAccumulator
  fill_call id ms a =
      fill_function (object_of (member "function" ms))
        (if str_eq id "" then a else record a { id = id })

  -- One piece of `tool_calls`: an id begins a call, and a piece without one goes on with the last.
  unfoldable pub take_call :
      Option (List (String × J)) → List ToolCallAccumulator → List ToolCallAccumulator
  unfolding change_last
  take_call none pending = pending
  take_call (some ms) pending =
      let id = text_or wire.json "" (member "id" ms) in
      let opened =
        if not (str_eq id "") || is_empty pending then pending ++ blank_call ∷ [] else pending in
      change_last (fill_call id ms) opened

  unfoldable pub take_calls : List J → List ToolCallAccumulator → List ToolCallAccumulator
  unfolding take_call
  take_calls [] pending = pending
  take_calls (j ∷ js) pending = take_calls js (take_call (wire.json.as_object j) pending)

  abbrev pub call_of : ToolCallAccumulator → J → ToolCall J
  call_of a arguments = record { id = a.id; name = a.name; arguments = arguments }

  abbrev pub cut_off : String → String
  cut_off name =
      append_text "tool call '" (append_text name "' was cut off by the output token cap")

  -- The call of an accumulator, none where the token cap cut it off.
  abbrev pub parsed_call : String → ToolCallAccumulator → Option J → Option (ToolCall J)
  parsed_call finish_reason a (some j) = some (call_of a j)
  parsed_call finish_reason a none =
      if str_eq finish_reason "length"
      then none
      else some (call_of a (wire.json.of_text a.arguments))

  abbrev pub finished_call : String → ToolCallAccumulator → Option (ToolCall J)
  finished_call finish_reason a =
      if str_eq a.arguments ""
      then some (call_of a wire.json.null)
      else parsed_call finish_reason a (wire.parse (codes a.arguments))

  abbrev pub after_finished :
      Option (ToolCall J)
      → String
      → Stream J Amount
      → (Stream J Amount → Read J Amount)
      → Read J Amount
  after_finished none name s next = broken (cut_off name) s
  after_finished (some call) name s next =
      next (record s { tool_calls = s.tool_calls ++ call ∷ [] })

  -- The loop of `FlushPendingToolCalls`
  unfoldable pub flush_from : List ToolCallAccumulator → Stream J Amount → Read J Amount
  flush_from [] s = going (record s { pending_tools = [] })
  flush_from (a ∷ rest) s =
      after_finished (finished_call s.finish_reason a) a.name s (λ t. flush_from rest t)

  -- `FlushPendingToolCalls`
  abbrev pub flush_pending_tool_calls : Stream J Amount → Read J Amount
  flush_pending_tool_calls s = flush_from s.pending_tools s
