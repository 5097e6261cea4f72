-- ===== src/Runtime/Data.antt =====
-- What a turn is made of (include/pu/llm/llm_provider.hpp, include/pu/tools/tool.hpp,
-- include/pu/runtime/executor.hpp), and the world that it runs in. A turn's callbacks are not part of
-- its state. Counts stay below the bounds of `int`.
use Prim.Native.String.{◌++◌ as text_append}
use pu_cli.Base.{ℕ, String, Bool, false, Option, none, List, []}
use pu_cli.Session.Message.{Reasoning}
use pu_cli.Session.Usage.{Cost}

pub record ToolCall (J : Type 0) : Type 0 where
  pub id : String
  pub name : String
  pub arguments : J

pub record TokenUsage (Amount : Type 0) : Type 0 where
  pub prompt_tokens : ℕ
  pub completion_tokens : ℕ
  pub total_tokens : ℕ
  pub cached_tokens : ℕ
  pub cost : Option (Cost Amount)

pub record ChatResult (J Amount : Type 0) : Type 0 where
  pub content : String
  pub reasoning : List (Reasoning J)
  pub tool_calls : List (ToolCall J)
  pub usage : Option (TokenUsage Amount)
  pub missing_fields : List String
  pub finish_reason : String
  pub model : String

pub data TurnOutcome : Type 0 where
  completed failed tool_budget_reached : TurnOutcome

pub record ExecutionResult (Amount : Type 0) : Type 0 where
  pub content : String
  pub was_streamed : Bool
  pub tool_call_count : ℕ
  pub usage : Option (TokenUsage Amount)
  pub rounds : ℕ
  pub notice : String
  pub shape_notes : List String
  pub model : String
  pub outcome : TurnOutcome
  pub has_error : Bool
  pub error_message : String
  pub blocked_tool_calls : ℕ
  pub unaskable_tool_calls : ℕ
  pub only_blocked_calls : Bool
  pub only_unaskable_calls : Bool

abbrev pub no_result : {Amount : Type 0} → ExecutionResult Amount
no_result = record {
  content = "";
  was_streamed = false;
  tool_call_count = 0;
  usage = none;
  rounds = 0;
  notice = "";
  shape_notes = [];
  model = "";
  outcome = completed;
  has_error = false;
  error_message = "";
  blocked_tool_calls = 0;
  unaskable_tool_calls = 0;
  only_blocked_calls = false;
  only_unaskable_calls = false;
}

pub data Refusal : Type 0 where
  no_refusal policy nobody_to_ask : Refusal

-- What `ParseToolResult` reads of a tool's result, as far as a turn looks at it.
pub record ToolResult : Type 0 where
  pub valid : Bool
  pub blocked : Bool
  pub refusal : Refusal

-- What a request to the provider comes to: the text that it streams, and then the reply or the
-- exception, whose text is `ReadableError` of what it says.
pub data Reply (J Amount : Type 0) : Type 0 where
  answered : List String → ChatResult J Amount → Reply J Amount
  threw : List String → String → Reply J Amount

-- What a turn appends to the conversation.
pub data Entry (J : Type 0) : Type 0 where
  user_message : String → Entry J
  assistant_message : String → List (Reasoning J) → List (ToolCall J) → Entry J
  tool_message : (content tool_name tool_call_id : String) → Entry J

-- The world of a turn. `reply round reads` is the provider's in a round, when the cancel token was
-- read so often; `cancel` is what the reads of the token give, in order. `tool` is the result of the
-- call of a number, that of `MakeToolResultJson` where the tool throws. `note` is what the user says
-- while the tools of a round run, and `call_id` the ids that the executor makes.
pub record World (J Amount : Type 0) : Type 0 where
  pub has_token : Bool
  pub cancel : ℕ → Bool
  pub reply : ℕ → ℕ → Reply J Amount
  pub shutdown : ℕ → Bool
  pub tool : ℕ → ToolCall J → String
  pub parse_tool_result : String → ToolResult
  pub note : ℕ → String
  pub call_id : ℕ → String

-- The conversation, as a turn uses it.
pub record Conversation (J C : Type 0) : Type 0 where
  pub append : Entry J → C → C
  pub seal : C → C

pub record Turn (Amount C : Type 0) : Type 0 where
  pub result : ExecutionResult Amount
  pub conversation : C
  pub reads : ℕ
  pub next_tool_call_id : ℕ

abbrev pub append_text : String → String → String
append_text s t = text_append s t
