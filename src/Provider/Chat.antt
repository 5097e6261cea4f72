-- ===== src/Provider/Chat.antt =====
-- A reply as it comes over the network: `ParseData` and `FinishStream` of src/llm/openai_protocol.cpp and
-- `Chat` of src/llm/streaming_provider.cpp. The chunks are what the HTTP library hands over; the cancel
-- token, which `write_cb` reads behind each chunk to break the request off, is not set.
use pu_cli.Base.{
  String, Bool, true, false, not, ◌&&◌, ◌||◌, Option, none, some, List, [], ◌∷◌, ◌++◌, Bytes, codes,
  is_empty, if◌then◌else◌, str_eq,
}
use pu_cli.Sse.Fields.{bytes_eq}
use pu_cli.Sse.Parser.{Emission, event, retry, SseParser, no_event, feed, finish}
use pu_cli.Runtime.Data.{ChatResult, Reply, answered, threw, append_text}
use pu_cli.Provider.Data.{
  WireValue, ResponseShape, Billing, Stream, reset_accumulators, Read, going, broken,
}
use pu_cli.Provider.Stream.{contains, flush_pending_tool_calls}
use pu_cli.Provider.Frames.{handle_json_token}

abbrev pub expected_field : List String → String → List String
expected_field seen field =
    if not (str_eq field "") && not (contains field seen) then field ∷ [] else []

-- `AbsentShapeFields`, of the fields that are required.
abbrev pub absent_shape_fields : ResponseShape → List String → List String
absent_shape_fields shape seen =
    let nested = shape.cached_tokens_nested_field in
    let top = shape.cached_tokens_top_level_field in
    expected_field seen shape.usage_field
    ++ (expected_field seen shape.prompt_tokens_field
        ++ (expected_field seen shape.completion_tokens_field
            ++ (expected_field seen shape.total_tokens_field
                ++ ((if not (str_eq nested "")
                        && (not (contains nested seen) && not (contains top seen))
                      then append_text nested (append_text " (nor " (append_text top ")")) ∷ []
                      else [])
                    ++ expected_field seen shape.finish_reason_field))))

abbrev pub fresh_parser : Bool → SseParser
fresh_parser bare = record {
  buffer = [];
  frame = record {
    bare_lines_are_events = bare;
    listens_to_retry = false;
    pending = no_event;
    has_data = false;
  };
}

abbrev pub parsed : {J : Type 0} → Option J → Bool
parsed none = false
parsed (some j) = true

module _ {J Amount : Type 0} (wire : WireValue J Amount) (shape : ResponseShape)
    (billing : Billing) where
  abbrev pub parses : Bytes → Bool
  parses s = parsed (wire.parse s)

  abbrev pub take_parsed : Option J → Stream J Amount → Read J Amount
  take_parsed none s = going s
  take_parsed (some j) s = handle_json_token wire shape billing (wire.json.as_object j) s

  -- `ParseData`
  unfoldable pub parse_data : Bytes → Stream J Amount → Read J Amount
  unfolding handle_json_token
  parse_data data_text s =
      if is_empty data_text then going s else take_parsed (wire.parse data_text) s

  -- What the parser is called with in `Chat`; an exception ends the reading.
  unfoldable pub take_emission : Emission → Read J Amount → Read J Amount
  unfolding parse_data
  take_emission e (broken what s) = broken what s
  take_emission (retry ms) (going s) = going s
  take_emission (event e) (going s) =
      if is_empty e.payload || bytes_eq e.payload (codes "[DONE]")
      then going s
      else parse_data e.payload s

  unfoldable pub take_emissions : List Emission → Read J Amount → Read J Amount
  unfolding take_emission
  take_emissions [] r = r
  take_emissions (e ∷ es) r = take_emissions es (take_emission e r)

  unfoldable pub feed_chunks : List Bytes → SseParser × Read J Amount → SseParser × Read J Amount
  unfolding take_emissions feed
  feed_chunks [] m = m
  feed_chunks (c ∷ cs) m =
      feed_chunks cs ((feed parses c m.0).1, take_emissions (feed parses c m.0).0 m.1)

  -- The end of `FinishStream`
  abbrev pub fold_refusal : Stream J Amount → Stream J Amount
  fold_refusal s =
      let named = record s { missing_fields = absent_shape_fields shape s.seen_fields } in
      if str_eq s.refusal "" then named else record named {
        content =
            append_text (if str_eq s.content "" then s.content else append_text s.content "\n")
              s.refusal;
        refusal = "";
      }

  abbrev pub fold_read : Read J Amount → Read J Amount
  fold_read (broken what s) = broken what s
  fold_read (going s) = going (fold_refusal s)

  -- `FinishStream`
  unfoldable pub finish_stream : Read J Amount → Read J Amount
  finish_stream (broken what s) = broken what s
  finish_stream (going s) = fold_read (flush_pending_tool_calls wire s)

  abbrev pub close : SseParser × Read J Amount → Read J Amount
  close m = finish_stream (take_emissions (finish parses m.0).0 m.1)

  -- `Chat`, of the chunks that the reply arrives in.
  unfoldable pub chat : Bool → List String → List Bytes → Read J Amount
  unfolding feed_chunks finish_stream finish
  chat bare seen chunks =
      close (feed_chunks chunks (fresh_parser bare, going (reset_accumulators seen)))

abbrev pub chat_result : {J Amount : Type 0} → Stream J Amount → ChatResult J Amount
chat_result s = record {
  content = s.content;
  reasoning = s.reasoning;
  tool_calls = s.tool_calls;
  usage = s.usage;
  missing_fields = s.missing_fields;
  finish_reason = s.finish_reason;
  model = s.response_model;
}

-- The reply that a turn sees.
abbrev pub reply_of : {J Amount : Type 0} → Read J Amount → Reply J Amount
reply_of (going s) = answered s.tokens (chat_result s)
reply_of (broken what s) = threw s.tokens what
