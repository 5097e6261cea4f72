-- ===== src/Runtime/Tests.antt =====
-- Turns of concrete worlds.
use pu_cli.Base.{
  ℕ, ◌+◌, String, Bool, true, false, Option, none, some, List, [], ◌∷◌, ◌≡◌, refl, ltb,
}
use pu_cli.Session.Usage.{Cost}
use pu_cli.Session.Message.{MessageNode, ToolPayload, tool}
use pu_cli.Session.Graph.{MessageGraph, find_node, seal_interrupted_tool_calls}
use pu_cli.Runtime.Data.{
  ToolCall, TokenUsage, ChatResult, no_refusal, answered, assistant_message, World, Turn,
}
use pu_cli.Runtime.Calls.{run_tool_calls}
use pu_cli.Runtime.Loop.{new_turn, execute}
use pu_cli.Runtime.Http.{over_http}
use pu_cli.Runtime.Ends.{execute_total}
use pu_cli.Runtime.Log.{Event, wrote, log, owed_from, owed}
use pu_cli.Runtime.Receipts.{execute-owed}
use pu_cli.Runtime.Cancelled.{cancelled_call_is_owed}

abbrev call : String → ToolCall ℕ
call id = record { id = id; name = "bash"; arguments = 0 }

abbrev asking : ChatResult ℕ ℕ
asking = record {
  content = "";
  reasoning = [];
  tool_calls = call "a" ∷ call "" ∷ [];
  usage = none;
  missing_fields = [];
  finish_reason = "tool_calls";
  model = "m";
}

-- A provider that asks for two calls in every round, and a token that is set from a read on.
abbrev world_until : (ℕ → Bool) → World ℕ ℕ
world_until cancel = record {
  has_token = true;
  cancel = cancel;
  reply = λ round reads. answered [] asking;
  shutdown = λ n. false;
  tool = λ n c. "done";
  parse_tool_result = λ text. record { valid = true; blocked = false; refusal = no_refusal };
  note = λ round. "";
  call_id = λ n. "b";
}

abbrev calm : World ℕ ℕ
calm = world_until (λ n. false)

execute-owed_example :
    (t : Turn ℕ (List (Event ℕ))) × (execute (λ a b. a + b) calm log (3 + 2) 3 "hello" 0 []
      ≡ some t)
    × (owed t.conversation ≡ some [])
execute-owed_example = execute-owed (λ a b. a + b) calm (λ m. refl) 3 "hello" 0

abbrev cut : World ℕ ℕ
cut = world_until (λ n. ltb 0 n)

-- The token is set while the calls of the first round run.
execute_total_example :
    (t : Turn ℕ (List (Event ℕ))) × (execute
        (λ a b. a + b)
        (over_http cut)
        log
        (3 + 2)
        3
        "hello"
        0
        []
      ≡ some t)
execute_total_example = execute_total (λ a b. a + b) cut log 3 "hello" 0 []

abbrev asked : Turn ℕ (List (Event ℕ))
asked = record (new_turn (λ a b. a + b) cut log 0 []) {
  conversation = wrote (assistant_message "" [] (call "a" ∷ call "b" ∷ [])) ∷ [];
}

asked-owed : owed asked.conversation ≡ some ("a" ∷ "b" ∷ [])
unfolding owed owed_from
asked-owed = refl

abbrev receipt : ToolPayload
receipt = record { tool_call_id = "a"; tool_name = "bash"; content = "done"; origin = none }

abbrev receipt_node : MessageNode ℕ
receipt_node = record { id = "m"; timestamp = ""; payload = tool receipt; parent = "" }

abbrev after_receipt : MessageGraph ℕ
after_receipt = record { nodes = receipt_node ∷ []; leaf = "m" }

receipt_found : find_node "m" after_receipt.nodes ≡ some receipt_node
unfolding find_node
receipt_found = refl

cancelled_call_is_owed_example :
    (owed (run_tool_calls cut log (call "a" ∷ call "b" ∷ []) asked).conversation ≡ some ("b" ∷ []))
    × (seal_interrupted_tool_calls (λ n. "x") after_receipt ≡ after_receipt)
cancelled_call_is_owed_example =
    cancelled_call_is_owed (λ a b. a + b) cut (call "a") (call "b") [] asked
      (record { token = refl; first = refl; second = refl; behind = refl; quiet = refl }) asked-owed
      (λ n. "x") after_receipt receipt_node receipt receipt_found refl

abbrev usage : Option (Cost ℕ) → TokenUsage ℕ
usage cost = record {
  prompt_tokens = 1;
  completion_tokens = 2;
  total_tokens = 3;
  cached_tokens = 0;
  cost = cost;
}

abbrev five : Cost ℕ
five = record { amount = 5; unit = "USD" }
