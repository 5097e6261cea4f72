-- ===== src/Provider/Data.antt =====
-- What the providers know of a reply: the names of its fields (include/pu/llm/openai_protocol.hpp), how
-- a call is priced (include/pu/config/gateway.hpp), and what is accumulated while it streams
-- (include/pu/llm/streaming_provider.hpp). Callbacks other than `on_content` are not part of the state.
use pu_cli.Base.{String, Bool, false, Option, none, List, [], Bytes, ℤ, negsuc}
use pu_cli.Session.Json.{JsonValue}
use pu_cli.Session.Message.{Reasoning}
use pu_cli.Runtime.Data.{ToolCall, TokenUsage}

-- What else is used of the JSON library: the conversions of a value, `parse` and `serialize`, and what
-- the exception of a conversion says.
pub record WireValue (J Amount : Type 0) : Type 0 where
  pub json : JsonValue J
  pub as_int : J → Option ℤ
  pub as_flag : J → Option Bool
  pub as_number : J → Option Amount
  pub parse : Bytes → Option J
  pub print : J → String
  pub not_a_flag : String

-- An empty name means that the field does not exist.
pub record ResponseShape : Type 0 where
  pub content_field : String
  pub reasoning_field : String
  pub refusal_field : String
  pub usage_field : String
  pub prompt_tokens_field : String
  pub completion_tokens_field : String
  pub total_tokens_field : String
  pub cached_tokens_parent : String
  pub cached_tokens_nested_field : String
  pub cached_tokens_top_level_field : String
  pub finish_reason_field : String

abbrev pub default_shape : ResponseShape
default_shape = record {
  content_field = "content";
  reasoning_field = "reasoning_content";
  refusal_field = "refusal";
  usage_field = "usage";
  prompt_tokens_field = "prompt_tokens";
  completion_tokens_field = "completion_tokens";
  total_tokens_field = "total_tokens";
  cached_tokens_parent = "prompt_tokens_details";
  cached_tokens_nested_field = "cached_tokens";
  cached_tokens_top_level_field = "prompt_cache_hit_tokens";
  finish_reason_field = "finish_reason";
}

pub data BillingKind : Type 0 where
  no_billing reported : BillingKind

pub record Billing : Type 0 where
  pub kind : BillingKind
  pub field : String
  pub unit : String

pub record ToolCallAccumulator : Type 0 where
  pub id : String
  pub name : String
  pub arguments : String

-- The accumulators; `tokens` is what `on_content` was called with.
pub record Stream (J Amount : Type 0) : Type 0 where
  pub tokens : List String
  pub content : String
  pub reasoning : List (Reasoning J)
  pub refusal : String
  pub tool_calls : List (ToolCall J)
  pub pending_tools : List ToolCallAccumulator
  pub finish_reason : String
  pub response_model : String
  pub usage : Option (TokenUsage Amount)
  pub unread_fields : List String
  pub seen_fields : List String
  pub missing_fields : List String
  pub inspected_frame : Bool
  pub reply_choice_index : ℤ

-- `ResetAccumulators`, which keeps the fields that were seen.
abbrev pub reset_accumulators : {J Amount : Type 0} → List String → Stream J Amount
reset_accumulators seen = record {
  tokens = [];
  content = "";
  reasoning = [];
  refusal = "";
  tool_calls = [];
  pending_tools = [];
  finish_reason = "";
  response_model = "";
  usage = none;
  unread_fields = [];
  seen_fields = seen;
  missing_fields = [];
  inspected_frame = false;
  reply_choice_index = negsuc 0;
}

-- Whether the stream was read so far, or an exception with a text left it.
pub data Read (J Amount : Type 0) : Type 0 where
  going : Stream J Amount → Read J Amount
  broken : String → Stream J Amount → Read J Amount
