-- ===== src/Session/Graph.antt =====
-- The graph of messages (include/pu/session/graph.hpp): the nodes under their ids, and the leaf. The
-- node of an id is the first in the list that has it; `emplace` adds a node whose id is new. The ids
-- that `NewMessageId` draws are arguments. The walks along the parents take the number of nodes as
-- fuel.
use mathlib.Core.List.{reverse}
use pu_cli.Base.{
  ℕ, zero, suc, String, Bool, true, false, not, ◌&&◌, Option, none, some, List, [], ◌∷◌, ◌++◌,
  length, if◌then◌else◌, str_eq,
}
use pu_cli.Session.Message.{
  completed, interrupted, ToolCallRecord, AssistantPayload, MessagePayload, assistant, tool,
  MessageNode, is_pending, has_unfinished_tool_calls, cancelled_receipt,
}

module _ {J : Type 0} where
  unfoldable pub find_node : String → List (MessageNode J) → Option (MessageNode J)
  find_node id [] = none
  find_node id (n ∷ ns) = if str_eq n.id id then some n else find_node id ns

  -- A write to the node of an id, in place.
  unfoldable pub put_node : String → MessageNode J → List (MessageNode J) → List (MessageNode J)
  put_node id m [] = []
  put_node id m (n ∷ ns) = if str_eq n.id id then m ∷ ns else n ∷ put_node id m ns

  -- The loop of `Chain`, from a node up.
  unfoldable pub climb : ℕ → List (MessageNode J) → Option (MessageNode J) → List (MessageNode J)
  climb zero ns o = []
  climb (suc fuel) ns none = []
  climb (suc fuel) ns (some n) =
      n ∷ (if str_eq n.parent "" then [] else climb fuel ns (find_node n.parent ns))

  -- The first call with an id, marked as completed if it was pending; none if no call has the id.
  unfoldable pub complete_call : String → List (ToolCallRecord J) → Option (List (ToolCallRecord J))
  complete_call id [] = none
  complete_call id (c ∷ cs) =
      if str_eq c.id id
      then some ((if is_pending c.status then record c { status = completed } else c) ∷ cs)
      else elim (complete_call id cs) [ none ↦ none | some ds ↦ some (c ∷ ds) ]

  abbrev pub with_calls :
      AssistantPayload J → MessageNode J → Option (List (ToolCallRecord J)) → Option (MessageNode J)
  with_calls a n none = none
  with_calls a n (some cs) = some (record n { payload = assistant (record a { tool_calls = cs }) })

  abbrev pub complete_payload : String → MessagePayload J → MessageNode J → Option (MessageNode J)
  complete_payload id (assistant a) n = with_calls a n (complete_call id a.tool_calls)
  complete_payload id _ n = none

  -- The loop of `CompleteFor`, from the node of an id up.
  unfoldable pub complete_from : ℕ → String → String → List (MessageNode J) → List (MessageNode J)
  complete_from zero call id ns = ns
  complete_from (suc fuel) call id ns = if str_eq id "" then ns else elim (find_node id ns) [
    | none ↦ ns
    | some n ↦ elim (complete_payload call n.payload n) [
      | some m ↦ put_node id m ns
      | none ↦ complete_from fuel call n.parent ns
    ]
  ]

  -- Whether an id is the id of one of the nodes.
  unfoldable pub among : String → List (MessageNode J) → Bool
  among id [] = false
  among id (n ∷ ns) = if str_eq n.id id then true else among id ns

  unfoldable pub keep_among : List (MessageNode J) → List (MessageNode J) → List (MessageNode J)
  keep_among chain [] = []
  keep_among chain (n ∷ ns) =
      if among n.id chain then n ∷ keep_among chain ns else keep_among chain ns

pub record MessageGraph (J : Type 0) : Type 0 where
  pub nodes : List (MessageNode J)
  pub leaf : String

module _ {J : Type 0} where
  unfoldable pub chain_up : MessageGraph J → List (MessageNode J)
  unfolding climb
  chain_up g = climb (suc (length g.nodes)) g.nodes (find_node g.leaf g.nodes)

  -- `Chain`
  unfoldable pub chain : MessageGraph J → List (MessageNode J)
  chain g = reverse (chain_up g)

  -- `CompleteFor`
  unfoldable pub complete_for : String → MessageGraph J → MessageGraph J
  unfolding complete_from
  complete_for call g =
      if str_eq call ""
      then g
      else record g { nodes = complete_from (suc (length g.nodes)) call g.leaf g.nodes }

  -- `CompleteAnsweredRecord`
  unfoldable pub complete_answered_record : MessagePayload J → MessageGraph J → MessageGraph J
  unfolding complete_for
  complete_answered_record (tool t) g = complete_for t.tool_call_id g
  complete_answered_record _ g = g

  -- `Add`; the payload that is looked at is that of the node that is stored.
  unfoldable pub add : MessageNode J → MessageGraph J → MessageGraph J
  unfolding complete_answered_record
  add n g = elim (find_node n.id g.nodes) [
    | none ↦ complete_answered_record n.payload (record g { nodes = g.nodes ++ n ∷ [] })
    | some m ↦ complete_answered_record m.payload g
  ]

  -- `DropUnreachable`
  unfoldable pub drop_unreachable : MessageGraph J → MessageGraph J
  unfolding chain_up keep_among
  drop_unreachable g = record g { nodes = keep_among (chain_up g) g.nodes }

  -- `AppendAfterLeaf`; `id` is what `NewMessageId` draws.
  unfoldable pub append_after_leaf :
      String → MessagePayload J → String → MessageGraph J → MessageGraph J
  append_after_leaf id payload timestamp g =
      let node : MessageNode J = record {
        id = id;
        timestamp = timestamp;
        payload = payload;
        parent = g.leaf;
      } in
      drop_unreachable (record (add node g) { leaf = id })

  -- `RewindTo`
  unfoldable pub rewind_to : String → MessageGraph J → Bool × MessageGraph J
  rewind_to id g =
      let there : Bool = elim (find_node id g.nodes) [ none ↦ false | some n ↦ true ] in
      if not (str_eq id "") && not there then (false, g) else (true, record g { leaf = id })

  abbrev pub node_unfinished : Option (MessageNode J) → Bool
  node_unfinished none = false
  node_unfinished (some n) = has_unfinished_tool_calls n

  -- `LeafHasUnfinishedToolCalls`
  unfoldable pub leaf_has_unfinished_tool_calls : MessageGraph J → Bool
  leaf_has_unfinished_tool_calls g = node_unfinished (find_node g.leaf g.nodes)

  unfoldable pub interrupt : List (ToolCallRecord J) → List (ToolCallRecord J)
  interrupt [] = []
  interrupt (c ∷ cs) =
      (if is_pending c.status then record c { status = interrupted } else c) ∷ interrupt cs

  -- The calls that were pending, as they are once they are marked.
  unfoldable pub unrun : List (ToolCallRecord J) → List (ToolCallRecord J)
  unrun [] = []
  unrun (c ∷ cs) =
      if is_pending c.status then record c { status = interrupted } ∷ unrun cs else unrun cs

  abbrev pub receipt_for : ToolCallRecord J → MessagePayload J
  receipt_for c = tool (record {
    tool_call_id = c.id;
    tool_name = c.name;
    content = cancelled_receipt;
    origin = none;
  })

  -- One receipt for each call, one below the other; `ids` says what `NewMessageId` draws.
  unfoldable pub append_receipts :
      (ℕ → String) → ℕ → List (ToolCallRecord J) → MessageGraph J → MessageGraph J
  append_receipts ids i [] g = g
  append_receipts ids i (c ∷ cs) g =
      append_receipts ids (suc i) cs (append_after_leaf (ids i) (receipt_for c) "" g)

  abbrev pub sealed : AssistantPayload J → MessageNode J → MessageNode J
  sealed a n = record n { payload = assistant (record a { tool_calls = interrupt a.tool_calls }) }

  unfoldable pub seal_payload :
      (ℕ → String) → MessagePayload J → MessageNode J → MessageGraph J → MessageGraph J
  unfolding append_receipts
  seal_payload ids (assistant a) n g =
      append_receipts ids 0 (unrun a.tool_calls)
        (record g { nodes = put_node g.leaf (sealed a n) g.nodes })
  seal_payload ids _ n g = g

  abbrev pub seal_node : (ℕ → String) → Option (MessageNode J) → MessageGraph J → MessageGraph J
  seal_node ids none g = g
  seal_node ids (some n) g = seal_payload ids n.payload n g

  -- `SealInterruptedToolCalls`
  unfoldable pub seal_interrupted_tool_calls : (ℕ → String) → MessageGraph J → MessageGraph J
  unfolding seal_payload
  seal_interrupted_tool_calls ids g = seal_node ids (find_node g.leaf g.nodes) g
