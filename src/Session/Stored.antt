-- ===== src/Session/Stored.antt =====
-- How a conversation is stored: `OriginToJson` and `OriginFromJson` (src/paging/paging.cpp),
-- `ReasoningToJson` and `ReasoningFromJson` (include/pu/session/message.hpp), and `SerializeNode`,
-- `DeserializeNode`, `Serialize` and `Deserialize` (src/session/graph.cpp).
use pu_cli.Base.{
  ℕ, String, ◌||◌, Option, none, some, List, [], ◌∷◌, ◌++◌, map, if◌then◌else◌, str_eq,
}
use pu_cli.Session.Message.{
  Origin, status_name, status_from, Reasoning, ToolCallRecord, MessagePayload, user, assistant,
  system, tool, MessageNode,
}
use pu_cli.Session.Json.{JsonValue, member, members, text_or, value_or_else}

abbrev pub count_found : Option ℕ → ℕ
count_found none = 0
count_found (some n) = n

abbrev pub items_found : {J : Type 0} → Option (List J) → List J
items_found none = []
items_found (some js) = js

-- The node that was read, unless its id is empty, its parent no text or its role unknown.
abbrev pub node_read :
    {J : Type 0}
    → String
    → String
    → Option String
    → Option (MessagePayload J)
    → Option (MessageNode J)
node_read id timestamp none payload = none
node_read id timestamp (some parent) none = none
node_read id timestamp (some parent) (some p) =
    if str_eq id ""
    then none
    else some (record { id = id; timestamp = timestamp; payload = p; parent = parent })

module _ {J : Type 0} (json : JsonValue J) where
  -- `RankIn`
  abbrev pub rank_of : Option J → ℕ
  rank_of none = 0
  rank_of (some j) = count_found (json.as_count j)

  -- `OriginToJson`
  unfoldable pub origin_to_json : Origin → J
  origin_to_json o = json.of_object (
      ("source", json.of_text o.source)
      ∷ ("buffer", json.of_text o.buffer)
      ∷ ("rank", json.of_count o.rank)
      ∷ [])

  -- `OriginFromJson`
  unfoldable pub origin_from_json : J → Option Origin
  origin_from_json j =
      let ms = members json j in
      let source = text_or json "" (member "source" ms) in
      let buffer = text_or json "" (member "buffer" ms) in
      if str_eq source "" || str_eq buffer ""
      then none
      else some (record { source = source; buffer = buffer; rank = rank_of (member "rank" ms) })

  -- `ReasoningToJson`
  unfoldable pub reasoning_to_json : Reasoning J → J
  reasoning_to_json r = json.of_object (
      ("text", json.of_text r.text)
      ∷ ((if str_eq r.signature "" then [] else ("signature", json.of_text r.signature) ∷ [])
          ++ (if json.is_null r.raw then [] else ("raw", r.raw) ∷ [])))

  -- `ReasoningFromJson`, by whether the value is a text.
  abbrev pub reasoning_of : List (String × J) → Option String → Reasoning J
  reasoning_of ms (some s) = record { text = s; signature = ""; raw = json.null }
  reasoning_of ms none = record {
    text = text_or json "" (member "text" ms);
    signature = text_or json "" (member "signature" ms);
    raw = value_or_else json json.null (member "raw" ms);
  }

  unfoldable pub reasoning_from_json : J → Reasoning J
  reasoning_from_json j = reasoning_of (members json j) (json.as_text j)

  unfoldable pub call_to_json : ToolCallRecord J → J
  call_to_json c = json.of_object (
      ("id", json.of_text c.id)
      ∷ ("name", json.of_text c.name)
      ∷ ("arguments", c.arguments)
      ∷ ("status", json.of_text (status_name c.status))
      ∷ [])

  unfoldable pub call_from_json : J → ToolCallRecord J
  unfolding status_from
  call_from_json j = record {
    id = text_or json "" (member "id" (members json j));
    name = text_or json "" (member "name" (members json j));
    arguments = value_or_else json (json.of_object []) (member "arguments" (members json j));
    status = status_from (text_or json "" (member "status" (members json j)));
  }

  abbrev pub unless_none : String → List J → List (String × J)
  unless_none key [] = []
  unless_none key (j ∷ js) = (key, json.of_array (j ∷ js)) ∷ []

  abbrev pub origin_member : Option Origin → List (String × J)
  origin_member none = []
  origin_member (some o) = ("origin", origin_to_json o) ∷ []

  unfoldable pub payload_members : MessagePayload J → List (String × J)
  unfolding reasoning_to_json call_to_json origin_to_json
  payload_members (user u) =
      ("role", json.of_text "user")
      ∷ ("content", json.of_text u.content)
      ∷ (if str_eq u.from_peer "" then [] else ("from_peer", json.of_text u.from_peer) ∷ [])
  payload_members (assistant a) =
      ("role", json.of_text "assistant")
      ∷ ("content", json.of_text a.content)
      ∷ (unless_none "reasoning" (map reasoning_to_json a.reasoning)
          ++ unless_none "tool_calls" (map call_to_json a.tool_calls))
  payload_members (system s) =
      ("role", json.of_text "system") ∷ ("content", json.of_text s.content) ∷ []
  payload_members (tool t) =
      ("role", json.of_text "tool")
      ∷ ("content", json.of_text t.content)
      ∷ ("tool_call_id", json.of_text t.tool_call_id)
      ∷ ("tool_name", json.of_text t.tool_name)
      ∷ origin_member t.origin

  -- `SerializeNode`
  unfoldable pub serialize_node : MessageNode J → J
  unfolding payload_members
  serialize_node n = json.of_object (
      ("id", json.of_text n.id)
      ∷ ("timestamp", json.of_text n.timestamp)
      ∷ ("parent", json.of_text n.parent)
      ∷ payload_members n.payload)

  -- The elements of an array, none of them where there is no array.
  abbrev pub elements : Option J → List J
  elements none = []
  elements (some j) = items_found (json.as_array j)

  abbrev pub origin_read : Option J → Option Origin
  origin_read none = none
  origin_read (some j) = origin_from_json j

  unfoldable pub payload_read : String → String → List (String × J) → Option (MessagePayload J)
  unfolding reasoning_from_json call_from_json origin_from_json
  payload_read role content ms =
      if str_eq role "user"
      then some
          (user (record { content = content; from_peer = text_or json "" (member "from_peer" ms) }))
      else if str_eq role "assistant"
      then some (
          assistant (record {
            content = content;
            reasoning = map reasoning_from_json (elements (member "reasoning" ms));
            tool_calls = map call_from_json (elements (member "tool_calls" ms));
          }))
      else if str_eq role "system"
      then some (system (record { content = content }))
      else if str_eq role "tool"
      then some (
          tool (record {
            tool_call_id = text_or json "" (member "tool_call_id" ms);
            tool_name = text_or json "" (member "tool_name" ms);
            content = content;
            origin = origin_read (member "origin" ms);
          }))
      else none

  -- The parent, none where it is there and no text.
  abbrev pub parent_read : Option J → Option String
  parent_read none = some ""
  parent_read (some j) = json.as_text j

  abbrev pub node_of : Option (List (String × J)) → Option (MessageNode J)
  node_of none = none
  node_of (some ms) =
      node_read (text_or json "" (member "id" ms)) (text_or json "" (member "timestamp" ms))
        (parent_read (member "parent" ms))
        (payload_read (text_or json "" (member "role" ms)) (text_or json "" (member "content" ms))
          ms)

  -- `DeserializeNode`
  unfoldable pub deserialize_node : J → Option (MessageNode J)
  unfolding payload_read
  deserialize_node j = node_of (json.as_object j)
