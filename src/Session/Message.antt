-- ===== src/Session/Message.antt =====
-- The messages of a conversation (include/pu/session/message.hpp, include/pu/paging/origin.hpp).
-- `J` is the type of JSON values, whose library is not part of the repository.
use pu_cli.Base.{ℕ, String, Bool, true, false, Option, List, [], ◌∷◌, if◌then◌else◌, str_eq}

-- `paging::Origin`
pub record Origin : Type 0 where
  pub source : String
  pub buffer : String
  pub rank : ℕ

pub data ToolCallStatus : Type 0 where
  pending completed interrupted : ToolCallStatus

abbrev pub status_name : ToolCallStatus → String
status_name pending = "pending"
status_name completed = "completed"
status_name interrupted = "interrupted"

-- `StatusFrom` of src/session/graph.cpp
unfoldable pub status_from : String → ToolCallStatus
status_from name =
    if str_eq name "completed"
    then completed
    else if str_eq name "interrupted"
    then interrupted
    else pending

pub record Reasoning (J : Type 0) : Type 0 where
  pub text : String
  pub signature : String
  pub raw : J

pub record ToolCallRecord (J : Type 0) : Type 0 where
  pub id : String
  pub name : String
  pub arguments : J
  pub status : ToolCallStatus

pub record UserPayload : Type 0 where
  pub content : String
  pub from_peer : String

pub record AssistantPayload (J : Type 0) : Type 0 where
  pub content : String
  pub reasoning : List (Reasoning J)
  pub tool_calls : List (ToolCallRecord J)

pub record SystemPayload : Type 0 where
  pub content : String

pub record ToolPayload : Type 0 where
  pub tool_call_id : String
  pub tool_name : String
  pub content : String
  pub origin : Option Origin

pub data MessagePayload (J : Type 0) : Type 0 where
  user : UserPayload → MessagePayload J
  assistant : AssistantPayload J → MessagePayload J
  system : SystemPayload → MessagePayload J
  tool : ToolPayload → MessagePayload J

pub record MessageNode (J : Type 0) : Type 0 where
  pub id : String
  pub timestamp : String
  pub payload : MessagePayload J
  pub parent : String

abbrev pub is_pending : ToolCallStatus → Bool
is_pending pending = true
is_pending _ = false

module _ {J : Type 0} where
  unfoldable pub any_pending : List (ToolCallRecord J) → Bool
  any_pending [] = false
  any_pending (c ∷ cs) = if is_pending c.status then true else any_pending cs

  abbrev pub payload_unfinished : MessagePayload J → Bool
  payload_unfinished (assistant a) = any_pending a.tool_calls
  payload_unfinished _ = false

  -- `HasUnfinishedToolCalls`
  abbrev pub has_unfinished_tool_calls : MessageNode J → Bool
  has_unfinished_tool_calls n = payload_unfinished n.payload

abbrev pub cancelled_receipt : String
cancelled_receipt =
    "The user cancelled the turn before this call ran, so it produced no result. Wait for the user's next message before deciding whether this call is still worth making"
