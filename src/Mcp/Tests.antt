-- ===== src/Mcp/Tests.antt =====
-- The client's theorems at concrete lines and messages.
use pu_cli.Base.{ℕ, String, true, none, some, List, [], ◌∷◌, ◌≡◌, refl, codes}
use pu_cli.Session.Values.{Json, nothing, text, json}
use pu_cli.Mcp.Reader.{reader_loop}
use pu_cli.Mcp.Cutting.{lines_of, flat, reader_loop-lines_of}
use pu_cli.Mcp.Rpc.{JsonRpcClient, find_settled, value, send_request, Traffic, sends, hears, pass}
use pu_cli.Mcp.Replies.{first_reply, send_request-first_reply}
use pu_cli.Mcp.Client.{McpClient, ToolDefinition, Exchange, replied, thrown, gives, list_tools}
use pu_cli.Mcp.Tools.{list_tools-again}

reader_loop-lines_of_example :
    reader_loop [] (codes "{}\n{" ∷ codes "}\n\n{" ∷ [])
    ≡ lines_of [] (flat (codes "{}\n{" ∷ codes "}\n\n{" ∷ []))
reader_loop-lines_of_example = reader_loop-lines_of [] (codes "{}\n{" ∷ codes "}\n\n{" ∷ [])

two_lines :
    reader_loop [] (codes "{}\n{" ∷ codes "}\n\n{" ∷ []) ≡ (codes "{}" ∷ codes "{}" ∷ [], codes "{")
unfolding reader_loop
two_lines = refl

abbrev new_client : JsonRpcClient Json
new_client = record { next_id = 1; pending = []; settled = []; written = [] }

abbrev reply_to : ℕ → String → Traffic Json
reply_to id result =
    hears (some (json.of_object (("id", json.of_count id) ∷ ("result", text result) ∷ [])))

-- The reply of the second request comes first, and the first is answered twice.
abbrev crossed : List (Traffic Json)
crossed =
    sends "tools/call" nothing true
    ∷ reply_to 2 "second"
    ∷ hears none
    ∷ reply_to 1 "first"
    ∷ reply_to 1 "late"
    ∷ []

abbrev no_text : Json → String
no_text j = ""

send_request-first_reply_example :
    find_settled 1
      (pass json json.as_count no_text crossed
        (send_request json json.as_count no_text "tools/list" nothing true new_client)).settled
    ≡ first_reply json json.as_count no_text 1 crossed
unfolding find_settled
send_request-first_reply_example =
    send_request-first_reply json json.as_count no_text "tools/list" nothing crossed new_client refl

first_of_crossed :
    first_reply json json.as_count no_text 1 crossed
    ≡ some (value (json.of_object (("id", json.of_count 1) ∷ ("result", text "first") ∷ [])))
unfolding first_reply
first_of_crossed = refl

abbrev connected_client : McpClient Json
connected_client = record { server_name = "files"; connected = true; cached_tools = [] }

abbrev one_tool : Exchange Json
one_tool = replied (
    json.of_object (
      (
        "result",
        json.of_object
            (("tools", json.of_array (json.of_object (("name", text "read") ∷ []) ∷ [])) ∷ []),
      )
      ∷ []))

abbrev read_tool : ToolDefinition Json
read_tool = record { name = "read"; description = ""; parameters = json.of_object [] }

tools_asked_once :
    list_tools json no_text "no array"
      (thrown "MCP request timeout")
      (list_tools json no_text "no array" one_tool connected_client).1
    ≡ (gives (read_tool ∷ []), (list_tools json no_text "no array" one_tool connected_client).1)
unfolding list_tools
tools_asked_once =
    list_tools-again json no_text "no array" connected_client one_tool
      (thrown "MCP request timeout") read_tool [] refl refl
