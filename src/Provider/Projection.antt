-- ===== src/Provider/Projection.antt =====
-- How a history becomes the messages of a request (src/llm/projection.cpp, include/pu/llm/projection.hpp,
-- and the calls of tools of include/pu/session/message.hpp). `serialize` and `parse` are the JSON
-- library's; a parser that throws gives none.
use pu_cli.Base.{
  String, Bool, true, false, not, ◌&&◌, ◌||◌, Option, none, some, List, [], ◌∷◌, ◌++◌, map,
  if◌then◌else◌, str_eq, is_empty,
}
use pu_cli.Session.Json.{JsonValue, member, text_or, value_or_else, members}
use pu_cli.Session.Message.{Reasoning, ToolCallRecord, pending}
use pu_cli.Session.Request.{ChatMessage}
use pu_cli.Runtime.Loop.{reasoning_text}

pub data RoleNaming : Type 0 where
  as_stored known_roles_only : RoleNaming

pub data ToolArgumentsEncoding : Type 0 where
  json_object json_string : ToolArgumentsEncoding

pub data ReasoningCarriage : Type 0 where
  as_text_field as_blocks : ReasoningCarriage

pub record ProviderCapabilities : Type 0 where
  pub role_naming : RoleNaming
  pub echoes_reasoning : Bool
  pub reasoning_field : String
  pub reasoning_carriage : ReasoningCarriage
  pub allows_content_with_tool_calls : Bool
  pub tool_arguments : ToolArgumentsEncoding
  pub tool_calls_carry_type : Bool
  pub sends_tool_name : Bool
  pub omits_empty_tool_call_id : Bool

-- `ProjectRole`
unfoldable pub project_role : String → RoleNaming → String
project_role role as_stored = role
project_role role known_roles_only =
    if str_eq role "user" || str_eq role "assistant" || str_eq role "system" || str_eq role "tool"
    then role
    else "user"

module _ {J : Type 0} (json : JsonValue J) (serialize : J → String)
    (parse : String → Option J) where
  abbrev pub function_members : String → J → List (String × J)
  function_members name arguments = ("name", json.of_text name) ∷ ("arguments", arguments) ∷ []

  -- `ToolCallToJson`
  unfoldable pub tool_call_to_json : ToolCallRecord J → J
  tool_call_to_json c = json.of_object (
      ("id", json.of_text c.id)
      ∷ ("type", json.of_text "function")
      ∷ ("function", json.of_object (function_members c.name c.arguments))
      ∷ [])

  abbrev pub call_with : String → Option J → ToolCallRecord J
  call_with id none = record { id = id; name = ""; arguments = json.null; status = pending }
  call_with id (some function) = record {
    id = id;
    name = text_or json "" (member "name" (members json function));
    arguments = value_or_else json (json.of_object []) (member "arguments" (members json function));
    status = pending;
  }

  -- `ToolCallFromJson`
  unfoldable pub tool_call_from_json : J → ToolCallRecord J
  tool_call_from_json j =
      call_with (text_or json "" (member "id" (members json j)))
        (member "function" (members json j))

  abbrev pub is_there : {A : Type 0} → Option A → Bool
  is_there none = false
  is_there (some a) = true

  abbrev pub parsed_or : J → Option J → J
  parsed_or arguments none = arguments
  parsed_or arguments (some j) = j

  abbrev pub from_text : J → Option String → J
  from_text arguments none = arguments
  from_text arguments (some s) = parsed_or arguments (parse s)

  -- `ProjectArguments`
  unfoldable pub project_arguments : J → ToolArgumentsEncoding → J
  project_arguments a json_string =
      if is_there (json.as_object a) || is_there (json.as_array a)
      then json.of_text (serialize a)
      else a
  project_arguments a json_object = from_text a (json.as_text a)

  abbrev pub id_member : Option J → List (String × J)
  id_member none = []
  id_member (some id) = ("id", id) ∷ []

  abbrev pub type_member : Bool → List (String × J)
  type_member true = ("type", json.of_text "function") ∷ []
  type_member false = []

  abbrev pub has_function : Option J → Bool
  has_function none = false
  has_function (some f) = is_there (json.as_object f)

  abbrev pub projected_call : ProviderCapabilities → J → ToolCallRecord J → J
  projected_call caps call c = json.of_object (
      id_member (member "id" (members json call))
      ++ type_member caps.tool_calls_carry_type
      ++ (
        "function",
        json.of_object
            (function_members c.name (project_arguments c.arguments caps.tool_arguments)),
      )
        ∷ [])

  -- The loop of `ProjectToolCalls`.
  unfoldable pub project_call : ProviderCapabilities → J → J
  unfolding tool_call_from_json project_arguments
  project_call caps call =
      if has_function (member "function" (members json call))
      then projected_call caps call (tool_call_from_json call)
      else call

  -- `ProjectToolCalls`
  abbrev pub project_tool_calls : ProviderCapabilities → List J → J
  project_tool_calls caps calls = json.of_array (map (project_call caps) calls)

  abbrev pub signature_member : String → List (String × J)
  signature_member signature =
      if str_eq signature "" then [] else ("signature", json.of_text signature) ∷ []

  unfoldable pub project_block : Reasoning J → J
  project_block r =
      if json.is_null r.raw
      then json.of_object (("text", json.of_text r.text) ∷ signature_member r.signature)
      else r.raw

  -- `ProjectReasoning`
  abbrev pub project_reasoning : List (Reasoning J) → J
  project_reasoning blocks = json.of_array (map project_block blocks)

  abbrev pub reasoning_value : ReasoningCarriage → List (Reasoning J) → J
  reasoning_value as_text_field blocks = json.of_text (reasoning_text blocks)
  reasoning_value as_blocks blocks = project_reasoning blocks

  abbrev pub when : Bool → String × J → List (String × J)
  when true m = m ∷ []
  when false m = []

  -- `ProjectMessage`
  unfoldable pub project_message : ProviderCapabilities → ChatMessage J → J
  unfolding project_role tool_call_to_json project_call project_block
  project_message caps m =
      let role = project_role m.role caps.role_naming in
      let calls = not (is_empty m.tool_calls) in
      json.of_object (
        ("role", json.of_text role)
          ∷ (
            "content",
            if calls && not caps.allows_content_with_tool_calls
                then json.null
                else json.of_text m.content,
          )
          ∷ when (not (is_empty m.reasoning) && str_eq role "assistant" && caps.echoes_reasoning)
              (caps.reasoning_field, reasoning_value caps.reasoning_carriage m.reasoning)
        ++ when (str_eq role "tool" && caps.sends_tool_name) ("tool_name", json.of_text m.tool_name)
        ++ when
            (str_eq role "tool"
              && (not caps.omits_empty_tool_call_id || not (str_eq m.tool_call_id "")))
            ("tool_call_id", json.of_text m.tool_call_id)
        ++ when calls ("tool_calls", project_tool_calls caps (map tool_call_to_json m.tool_calls)))

  -- `ProjectMessages`
  abbrev pub project_messages : ProviderCapabilities → List (ChatMessage J) → List J
  project_messages caps history = map (project_message caps) history
