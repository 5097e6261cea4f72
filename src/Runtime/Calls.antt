-- ===== src/Runtime/Calls.antt =====
-- The tool calls of a round: `RunToolCalls` of src/runtime/executor.cpp. A read of the cancel token is
-- one of the reads that the world answers; without a token none is made.
use pu_cli.Base.{◌+◌, Bool, true, false, not, ◌&&◌, List, [], ◌∷◌, if◌then◌else◌, str_eq}
use pu_cli.Runtime.Data.{
  ToolCall, ExecutionResult, Refusal, nobody_to_ask, ToolResult, Entry, user_message, tool_message,
  World, Conversation, Turn, append_text,
}

abbrev pub is_nobody : Refusal → Bool
is_nobody nobody_to_ask = true
is_nobody _ = false

module _ {J Amount C : Type 0} (world : World J Amount) (store : Conversation J C) where
  abbrev pub append_entry : Entry J → Turn Amount C → Turn Amount C
  append_entry e t = record t { conversation = store.append e t.conversation }

  abbrev pub seal_calls : Turn Amount C → Turn Amount C
  seal_calls t = record t { conversation = store.seal t.conversation }

  -- Whether a read of the token finds it set.
  abbrev pub is_cancelled : Turn Amount C → Bool
  is_cancelled t = world.has_token && world.cancel t.reads

  abbrev pub after_read : Turn Amount C → Turn Amount C
  after_read t = if world.has_token then record t { reads = t.reads + 1 } else t

  abbrev pub count_refusal : ToolResult → ExecutionResult Amount → ExecutionResult Amount
  count_refusal parsed r =
      if parsed.valid && parsed.blocked
      then record r {
        blocked_tool_calls = r.blocked_tool_calls + 1;
        unaskable_tool_calls =
            if is_nobody parsed.refusal then r.unaskable_tool_calls + 1 else r.unaskable_tool_calls;
      }
      else r

  abbrev pub counted_call : Turn Amount C → ExecutionResult Amount
  counted_call t = record t.result { tool_call_count = t.result.tool_call_count + 1 }

  -- One call: it is counted, run, and its receipt appended.
  unfoldable pub run_call : ToolCall J → Turn Amount C → Turn Amount C
  run_call c t =
      let text = world.tool t.result.tool_call_count c in
      append_entry (tool_message text c.name c.id)
        (record t { result = count_refusal (world.parse_tool_result text) (counted_call t) })

  -- The loop over the calls; a token that is set ends it.
  unfoldable pub run_each : List (ToolCall J) → Turn Amount C → Turn Amount C
  unfolding run_call
  run_each [] t = t
  run_each (c ∷ cs) t =
      let rest = run_each cs (run_call c (after_read t)) in
      if is_cancelled t then after_read t else rest

  abbrev pub append_note : Turn Amount C → Turn Amount C
  append_note t =
      let note = world.note t.result.rounds in
      if not (str_eq note "") && world.has_token
      then append_entry (user_message (append_text "[user note during the turn] " note)) t
      else t

  abbrev pub seal_if_cancelled : Turn Amount C → Turn Amount C
  seal_if_cancelled t = if is_cancelled t then seal_calls (after_read t) else after_read t

  -- `RunToolCalls`
  unfoldable pub run_tool_calls : List (ToolCall J) → Turn Amount C → Turn Amount C
  unfolding run_each
  run_tool_calls cs t = seal_if_cancelled (append_note (run_each cs t))
