-- ===== src/Runtime/Loop.antt =====
-- A turn: `CallProvider`, `RunToolLoop` and `Execute` of src/runtime/executor.cpp. The loop takes fuel,
-- one for each round that it begins; none is a turn that is not over.
use mathlib.Core.Option
use pu_cli.Base.{
  ℕ, zero, suc, ◌+◌, String, Bool, true, false, not, ◌&&◌, ◌||◌, Option, none, some, List, [], ◌∷◌,
  ◌++◌, is_empty, ltb, leb, ◌==◌, if◌then◌else◌, str_eq,
}
use pu_cli.Session.Message.{Reasoning}
use pu_cli.Runtime.Data.{
  ToolCall, ChatResult, tool_budget_reached, ExecutionResult, no_result, Reply, answered, threw,
  user_message, assistant_message, World, Conversation, Turn, append_text,
}
use pu_cli.Runtime.Spending.{spend}
use pu_cli.Runtime.Calls.{append_entry, seal_calls, is_cancelled, after_read, run_tool_calls}

-- `JoinQuoted`
unfoldable pub join_quoted_from : String → List String → String
join_quoted_from joined [] = joined
join_quoted_from joined (n ∷ ns) =
    join_quoted_from
      (append_text (if str_eq joined "" then joined else append_text joined ", ")
        (append_text "\"" (append_text n "\"")))
      ns

abbrev pub join_quoted : List String → String
join_quoted names = join_quoted_from "" names

-- `StopNotice`
unfoldable pub stop_notice : String → String
stop_notice reason =
    if str_eq reason "length"
    then "The reply stopped at a token limit, so it may be incomplete. Set max_tokens for this backend to lengthen it, or leave it unset to use the provider's own limit."
    else if str_eq reason "content_filter"
    then "The provider stopped the reply because its content filter matched."
    else ""

-- `ProjectReasoningText` of src/llm/projection.cpp
unfoldable pub reasoning_text_from : {J : Type 0} → String → List (Reasoning J) → String
reasoning_text_from text [] = text
reasoning_text_from text (b ∷ bs) =
    reasoning_text_from
      (append_text
        (if not (str_eq text "") && not (str_eq b.text "") then append_text text "\n" else text)
        b.text)
      bs

abbrev pub reasoning_text : {J : Type 0} → List (Reasoning J) → String
reasoning_text bs = reasoning_text_from "" bs

-- The tokens that `on_content` is called with.
unfoldable pub stream :
    {Amount : Type 0} → List String → ExecutionResult Amount → ExecutionResult Amount
stream [] r = r
stream (s ∷ ss) r =
    stream ss (
      if str_eq s ""
      then r
      else record r { was_streamed = true; content = append_text r.content s })

abbrev pub missing_note : List String → List String
missing_note [] = []
missing_note (f ∷ fs) =
    append_text "the reply never carried "
      (append_text (join_quoted (f ∷ fs)) "; this build reads a name the gateway no longer sends")
    ∷ []

-- How a request ended.
pub data Called (J Amount : Type 0) : Type 0 where
  replied : ChatResult J Amount → Called J Amount
  failed stopped abandoned : Called J Amount

abbrev pub wrap_up_text : String
wrap_up_text =
    "[system] The tool-call budget for this turn is exhausted. Do not call any more tools; answer now from what you have gathered so far."

-- A turn whose loop is over: it was left at once, or by `break`, which the tail of `RunToolLoop` follows.
pub data Ended (Amount C : Type 0) : Type 0 where
  left : Turn Amount C → Ended Amount C
  broke : (budget_reached : Bool) → Turn Amount C → Ended Amount C

module _ {J Amount C : Type 0} (plus : Amount → Amount → Amount) (world : World J Amount)
    (store : Conversation J C) where
  abbrev pub with_result : ExecutionResult Amount → Turn Amount C → Turn Amount C
  with_result r t = record t { result = r }

  abbrev pub take_reply : List String → ChatResult J Amount → Turn Amount C → Turn Amount C
  take_reply tokens chat t =
      let r = stream tokens t.result in
      with_result
        (record r {
          usage = spend plus chat.usage r.usage;
          shape_notes = r.shape_notes ++ missing_note chat.missing_fields;
        })
        t

  abbrev pub request_failed : String → ExecutionResult Amount → ExecutionResult Amount
  request_failed what r = record r {
    has_error = true;
    error_message = append_text "Request failed: " what;
  }

  -- What an exception of the provider means; the token is read once.
  abbrev pub explain : String → Turn Amount C → Called J Amount × Turn Amount C
  explain what t =
      if is_cancelled world store t
      then (stopped, after_read world store t)
      else if world.shutdown t.result.rounds
      then (abandoned, after_read world store t)
      else (failed, with_result (request_failed what t.result) (after_read world store t))

  abbrev pub take_answer : Reply J Amount → Turn Amount C → Called J Amount × Turn Amount C
  take_answer (answered tokens chat) t = (replied chat, take_reply tokens chat t)
  take_answer (threw tokens what) t = explain what (with_result (stream tokens t.result) t)

  -- `CallProvider`
  unfoldable pub call_provider : Turn Amount C → Called J Amount × Turn Amount C
  call_provider t = take_answer (world.reply t.result.rounds t.reads) t

  -- The final reply.
  unfoldable pub take_final : ChatResult J Amount → Turn Amount C → Turn Amount C
  take_final chat t =
      let reasoning = reasoning_text chat.reasoning in
      with_result
        (record t.result {
          content =
              if str_eq chat.content "" && not (str_eq reasoning "")
              then reasoning
              else chat.content;
          notice = stop_notice chat.finish_reason;
          model = if str_eq chat.model "" then t.result.model else chat.model;
        })
        t

  -- The calls with an id each, and how many ids were made.
  unfoldable pub name_calls : ℕ → List (ToolCall J) → List (ToolCall J) × ℕ
  name_calls n [] = ([], n)
  name_calls n (c ∷ cs) =
      let fresh = str_eq c.id "" in
      let rest = name_calls (if fresh then n + 1 else n) cs in
      ((if fresh then record c { id = world.call_id (n + 1) } else c) ∷ rest.0, rest.1)

  -- A reply with calls: it is appended, and its calls are run.
  unfoldable pub run_round : ChatResult J Amount → Turn Amount C → Turn Amount C
  unfolding name_calls
  run_round chat t =
      let named = name_calls t.next_tool_call_id chat.tool_calls in
      run_tool_calls world store named.0 (
        append_entry world store (assistant_message chat.content chat.reasoning named.0)
          (record t { next_tool_call_id = named.1 }))

  -- `++result.rounds`, behind the request to wrap up where the budget is reached.
  abbrev pub begin_round : Bool → Turn Amount C → Turn Amount C
  begin_round reached t =
      let asked = if reached then append_entry world store (user_message wrap_up_text) t else t in
      with_result (record asked.result { rounds = asked.result.rounds + 1 }) asked

  -- How a round goes on behind the request; `again` is the next round.
  abbrev pub after_call :
      Bool
      → (ChatResult J Amount → Turn Amount C → Option (Ended Amount C))
      → Called J Amount × Turn Amount C
      → Option (Ended Amount C)
  after_call now again (failed, t) = some (broke now t)
  after_call now again (stopped, t) = some (left (seal_calls world store t))
  after_call now again (abandoned, t) = some (left t)
  after_call now again (replied chat, t) =
      if is_empty chat.tool_calls then some (broke now (take_final chat t)) else again chat t

  -- The loop of `RunToolLoop`: whether the budget was reached, and the wrap-up asked for.
  unfoldable pub loop_rounds : ℕ → ℕ → Bool → Bool → Turn Amount C → Option (Ended Amount C)
  unfolding call_provider take_final run_round
  loop_rounds zero budget reached asked t = none
  loop_rounds (suc fuel) budget reached asked t =
      let now = reached || leb budget t.result.tool_call_count in
      let again = λ (chat : ChatResult J Amount) (t' : Turn Amount C).
        loop_rounds fuel budget now (asked || now) (run_round chat t') in
      let next : Option (Ended Amount C) =
        after_call now again (call_provider (begin_round now t)) in
      if now && asked then some (broke now t) else next

  abbrev pub budget_text : String
  budget_text =
      "The tool-call budget for this turn was reached without a final answer. Please rephrase your request or narrow the scope, or raise the budget with the tool_call_budget agent setting."

  abbrev pub blocked_text : Bool → String
  blocked_text true =
      "Every tool call this turn made needed approval, and nothing here can ask: give the agent a command that needs none, or take it off approval_patterns."
  blocked_text false = "Every tool call this turn made was refused by the sandbox; nothing ran."

  abbrev pub only_blocked : ExecutionResult Amount → ExecutionResult Amount
  only_blocked r =
      let unaskable = r.unaskable_tool_calls == r.blocked_tool_calls in
      let marked = record r { only_blocked_calls = true; only_unaskable_calls = unaskable } in
      if r.has_error
      then marked
      else record marked { has_error = true; error_message = blocked_text unaskable }

  unfoldable pub add_notes : List String → String → String
  add_notes [] notice = notice
  add_notes (n ∷ ns) notice =
      add_notes ns (append_text (if str_eq notice "" then notice else append_text notice "\n") n)

  -- What `RunToolLoop` does behind the loop.
  unfoldable pub conclude : Bool → ExecutionResult Amount → ExecutionResult Amount
  unfolding add_notes
  conclude reached r =
      let silent = str_eq r.content "" in
      if reached && silent
      then record r { outcome = tool_budget_reached; content = budget_text; has_error = true }
      else if silent && ltb 0 r.blocked_tool_calls && r.blocked_tool_calls == r.tool_call_count
      then only_blocked r
      else if not r.has_error && silent && r.tool_call_count == 0
      then record r {
        has_error = true;
        error_message =
            "Model returned an empty response without any tool calls. Please check the backend service or try again.";
      }
      else record r { notice = add_notes r.shape_notes r.notice }

  abbrev pub ended_turn : Ended Amount C → Turn Amount C
  ended_turn (left t) = t
  ended_turn (broke reached t) = with_result (conclude reached t.result) t

  abbrev pub new_turn : ℕ → C → Turn Amount C
  new_turn next_id conversation = record {
    result = no_result;
    conversation = conversation;
    reads = 0;
    next_tool_call_id = next_id;
  }

  -- `RunToolLoop`
  unfoldable pub run_tool_loop : ℕ → ℕ → Turn Amount C → Option (Turn Amount C)
  unfolding loop_rounds conclude
  run_tool_loop fuel budget t = Option.map ended_turn (loop_rounds fuel budget false false t)

  abbrev pub append_answer : Turn Amount C → Turn Amount C
  append_answer t =
      if t.result.has_error || str_eq t.result.content ""
      then t
      else append_entry world store (assistant_message t.result.content [] []) t

  -- `Execute`
  unfoldable pub execute : ℕ → ℕ → String → ℕ → C → Option (Turn Amount C)
  unfolding run_tool_loop
  execute fuel budget input next_id conversation = Option.map append_answer (
      run_tool_loop fuel budget
        (append_entry world store (user_message input) (new_turn next_id conversation)))
