-- ===== src/Mcp/Client.antt =====
-- A client of one tool server (`McpClient` of src/mcp/client.cpp). What a request comes to is an
-- argument of the operation that makes it: a reply, or the text of the exception that `SendRequest`
-- throws. `not_array` is what the JSON library says of a value that is no array.
use Prim.Native.String.{◌++◌ as text_append}
use pu_cli.Base.{
  String, Bool, true, false, Option, none, some, List, [], ◌∷◌, is_empty, if◌then◌else◌, str_eq,
}
use pu_cli.Session.Json.{JsonValue, member, text_or, value_or_else, members}

pub record ToolDefinition (J : Type 0) : Type 0 where
  pub name : String
  pub description : String
  pub parameters : J

pub record McpClient (J : Type 0) : Type 0 where
  pub server_name : String
  pub connected : Bool
  pub cached_tools : List (ToolDefinition J)

-- What `SendRequest` comes to.
pub data Exchange (J : Type 0) : Type 0 where
  replied : J → Exchange J
  thrown : String → Exchange J

pub data Listing (J : Type 0) : Type 0 where
  gives : List (ToolDefinition J) → Listing J
  throws : String → Listing J

module _ {J : Type 0} where
  -- `Disconnect`
  unfoldable pub disconnect : McpClient J → McpClient J
  disconnect c = record c { connected = false; cached_tools = [] }

module _ {J : Type 0} (json : JsonValue J) (serialize : J → String) (not_array : String) where
  abbrev pub found_in : String → J → Option J
  found_in key j = member key (members json j)

  abbrev pub found_under : String → Option J → Option J
  found_under key none = none
  found_under key (some j) = found_in key j

  abbrev pub is_some : Option J → Bool
  is_some none = false
  is_some (some j) = true

  -- `Handshake`, as far as it answers.
  unfoldable pub handshake : Exchange J → Bool
  handshake (replied j) = is_some (found_in "result" j)
  handshake (thrown why) = false

  -- `Connect`; `started` is what `Start` of the transport says.
  unfoldable pub connect : Bool → Exchange J → McpClient J → Bool × McpClient J
  unfolding handshake disconnect
  connect started greeting c =
      if c.connected
      then (true, c)
      else if started
      then (if handshake greeting
          then (true, record c { connected = true })
          else (false, disconnect c))
      else (false, c)

  abbrev pub definition_from : J → ToolDefinition J
  definition_from j = record {
    name = text_or json "" (found_in "name" j);
    description = text_or json "" (found_in "description" j);
    parameters = value_or_else json (json.of_object []) (found_in "inputSchema" j);
  }

  unfoldable pub definitions_from : List J → List (ToolDefinition J)
  definitions_from [] = []
  definitions_from (j ∷ js) = definition_from j ∷ definitions_from js

  abbrev pub listed : McpClient J → Option (List J) → Listing J × McpClient J
  listed c none = (throws not_array, c)
  listed c (some js) =
      (gives (definitions_from js), record c { cached_tools = definitions_from js })

  abbrev pub no_list : McpClient J → String
  no_list c =
      text_append (text_append "MCP server '" c.server_name)
        "' answered tools/list without a tool list"

  abbrev pub listing_of : McpClient J → Option J → Listing J × McpClient J
  listing_of c none = (throws (no_list c), c)
  listing_of c (some tools) = listed c (json.as_array tools)

  abbrev pub ask_tools : McpClient J → Exchange J → Listing J × McpClient J
  ask_tools c (replied j) = listing_of c (found_under "tools" (found_in "result" j))
  ask_tools c (thrown why) = (throws why, c)

  -- `ListTools`
  unfoldable pub list_tools : Exchange J → McpClient J → Listing J × McpClient J
  unfolding definitions_from
  list_tools answer c =
      if c.connected
      then (if is_empty c.cached_tools then ask_tools c answer else (gives c.cached_tools, c))
      else (gives [], c)

  abbrev pub is_text : Option String → Bool
  is_text none = false
  is_text (some s) = str_eq s "text"

  abbrev pub text_of : Option J → Option String
  text_of none = none
  text_of (some j) = json.as_text j

  -- The texts of a result, each with a newline behind it.
  unfoldable pub texts_from : List J → String
  texts_from [] = ""
  texts_from (j ∷ js) =
      if is_text (text_of (found_in "type" j))
      then text_append (text_append (text_or json "" (found_in "text" j)) "\n") (texts_from js)
      else texts_from js

  abbrev pub text_or_result : J → String → String
  text_or_result result output = if str_eq output "" then serialize result else output

  abbrev pub call_error : String → String
  call_error why = text_append "MCP call error: " why

  abbrev pub shown_result : J → Option (List J) → String
  shown_result result none = call_error not_array
  shown_result result (some items) = text_or_result result (texts_from items)

  abbrev pub shown_content : J → Option J → String
  shown_content result none = ""
  shown_content result (some content) = shown_result result (json.as_array content)

  abbrev pub shown : J → Option J → String
  shown answer none = serialize answer
  shown answer (some result) =
      if is_some (found_in "content" result)
      then shown_content result (found_in "content" result)
      else serialize answer

  abbrev pub shown_exchange : Exchange J → String
  shown_exchange (replied answer) = shown answer (found_in "result" answer)
  shown_exchange (thrown why) = call_error why

  -- `CallTool`
  unfoldable pub call_tool : Exchange J → McpClient J → String
  unfolding texts_from
  call_tool answer c =
      if c.connected then shown_exchange answer else "Error: MCP client not connected"
