-- ===== src/Provider/Tests.antt =====
-- Replies of a concrete gateway.
use pu_cli.Base.{
  ℕ, true, false, Option, none, some, List, [], ◌∷◌, ◌++◌, ◌≡◌, refl, ℤ, pos, Bytes, codes,
  if◌then◌else◌,
}
use pu_cli.Session.Values.{Json, text, count, json}
use pu_cli.Sse.Fields.{bytes_eq}
use pu_cli.Exec.Pieces.{concat}
use pu_cli.Provider.Data.{
  WireValue, default_shape, no_billing, Billing, Stream, reset_accumulators, going,
}
use pu_cli.Provider.Deltas.{SentCall}
use pu_cli.Provider.Replies.{read_frames, words_frames, call_frames, finish_stream-read_frames}
use pu_cli.Provider.Chat.{chat, finish_stream}
use pu_cli.Provider.Cuts.{chat-concat}
use pu_cli.Session.Message.{ToolCallRecord, pending}
use pu_cli.Provider.Projection.{
  ProviderCapabilities, known_roles_only, as_text_field, json_string, tool_call_from_json,
  tool_call_to_json, project_call,
}
use pu_cli.Provider.Projected.{IsSent, project_call-read}

abbrev as_int : Json → Option ℤ
as_int (count n) = some (pos n)
as_int _ = none

-- A gateway that sends one frame only.
abbrev error_frame : Json
error_frame = json.of_object (("error", text "overloaded") ∷ [])

abbrev parse : Bytes → Option Json
parse s = if bytes_eq s (codes "{e}") then some error_frame else none

abbrev wire : WireValue Json ℕ
wire = record {
  json = json;
  as_int = as_int;
  as_flag = λ j. none;
  as_number = λ j. none;
  parse = parse;
  print = λ j. "";
  not_a_flag = "";
}

abbrev unpriced : Billing
unpriced = record { kind = no_billing; field = ""; unit = "" }

abbrev cut_reply : List Bytes
cut_reply = codes "data: {" ∷ codes "e}\n" ∷ codes "\n" ∷ []

chat-concat_example :
    chat wire default_shape unpriced false [] cut_reply
    ≡ chat wire default_shape unpriced false [] (concat cut_reply ∷ [])
chat-concat_example = chat-concat wire default_shape unpriced false [] cut_reply

-- A gateway that sends calls whose arguments are "12" and "7", the first of them in two pieces.
abbrev parse_number : Bytes → Option Json
parse_number s =
    if bytes_eq s (codes "12")
    then some (count 12)
    else if bytes_eq s (codes "7")
    then some (count 7)
    else none

abbrev calling : WireValue Json ℕ
calling = record wire { parse = parse_number }

abbrev twelve : SentCall Json
twelve = record { id = "c1"; name = "add"; first = "1"; more = "2" ∷ []; value = count 12 }

abbrev seven : SentCall Json
seven = record { id = "c2"; name = "show"; first = ""; more = "7" ∷ []; value = count 7 }

abbrev zero_index : Json
zero_index = count 0

finish_stream-read_frames_example :
    (s : Stream Json ℕ) × (finish_stream calling default_shape unpriced (
        read_frames calling unpriced
          (words_frames calling unpriced zero_index 0 refl ("Two" ∷ " calls" ∷ [])
            ++ call_frames calling unpriced zero_index 0 refl (twelve ∷ seven ∷ []))
          (going (reset_accumulators [])))
      ≡ going s)
    × (s.content ≡ "Two calls")
    × (s.tool_calls
        ≡ record { id = "c1"; name = "add"; arguments = count 12 }
          ∷ record { id = "c2"; name = "show"; arguments = count 7 }
          ∷ [])
unfolding bytes_eq
finish_stream-read_frames_example =
    finish_stream-read_frames calling unpriced zero_index 0 refl [] ("Two" ∷ " calls" ∷ [])
      (twelve ∷ seven ∷ [])
      (
        record { has_id = refl; has_name = refl; has_arguments = refl; parses = refl },
        (record { has_id = refl; has_name = refl; has_arguments = refl; parses = refl }, tt),
      )

abbrev strict : ProviderCapabilities
strict = record {
  role_naming = known_roles_only;
  echoes_reasoning = false;
  reasoning_field = "reasoning_content";
  reasoning_carriage = as_text_field;
  allows_content_with_tool_calls = true;
  tool_arguments = json_string;
  tool_calls_carry_type = true;
  sends_tool_name = false;
  omits_empty_tool_call_id = true;
}

abbrev list_files : Json
list_files = json.of_object (("command", text "ls") ∷ [])

abbrev stored_call : ToolCallRecord Json
stored_call = record { id = "call_1"; name = "bash"; arguments = list_files; status = pending }

project_call-read_example :
    IsSent json
      (λ j. "{}")
      (λ s. none)
      json_string
      stored_call
      (tool_call_from_json json
        (λ j. "{}")
        (λ s. none)
        (project_call json
          (λ j. "{}")
          (λ s. none)
          strict
          (tool_call_to_json json (λ j. "{}") (λ s. none) stored_call)))
project_call-read_example = project_call-read json (λ j. "{}") (λ s. none) strict stored_call
