-- ===== src/Session/Conversation.antt =====
-- Taking a turn back: `TurnCameFromPeer`, `RewindBefore` and `HasPendingToolCalls` of
-- src/session/session.cpp.
use pu_cli.Base.{
  ℕ, ◌-◌, String, Bool, false, not, ◌||◌, Option, none, some, length, get_elem?, ltb, ◌==◌,
  if◌then◌else◌, str_eq,
}
use pu_cli.Session.Message.{MessageNode, MessagePayload, user}
use pu_cli.Session.Graph.{MessageGraph, chain, rewind_to, leaf_has_unfinished_tool_calls}

abbrev pub peer_turn_refusal : String
peer_turn_refusal =
    "This turn arrived from a peer, so it is not yours to rewind. Only a turn you asked can be taken back"

abbrev pub pending_refusal : String
pending_refusal =
    "Cannot rewind while tool calls are pending. Please let the current tool finish or /clear."

-- What a call of `RewindBefore` comes to: it throws, or answers with a graph behind it.
pub data Rewound (J : Type 0) : Type 0 where
  refused : String → Rewound J
  answered : Bool → MessageGraph J → Rewound J

module _ {J : Type 0} where
  abbrev pub payload_from_peer : MessagePayload J → Bool
  payload_from_peer (user u) = not (str_eq u.from_peer "")
  payload_from_peer _ = false

  abbrev pub node_from_peer : Option (MessageNode J) → Bool
  node_from_peer none = false
  node_from_peer (some n) = payload_from_peer n.payload

  -- Whether the chain has no such turn; turns count from 1.
  abbrev pub is_no_turn : ℕ → MessageGraph J → Bool
  is_no_turn turn g = ltb turn 1 || ltb (length (chain g)) turn

  -- `TurnCameFromPeer`
  unfoldable pub turn_came_from_peer : ℕ → MessageGraph J → Bool
  unfolding chain
  turn_came_from_peer turn g =
      if is_no_turn turn g then false else node_from_peer (get_elem? (chain g) (turn - 1))

  abbrev pub id_of : Option (MessageNode J) → String
  id_of none = ""
  id_of (some n) = n.id

  abbrev pub rewound : Bool × MessageGraph J → Rewound J
  rewound p = answered p.0 p.1

  -- `RewindBefore`
  unfoldable pub rewind_before : ℕ → MessageGraph J → Rewound J
  unfolding turn_came_from_peer rewind_to leaf_has_unfinished_tool_calls
  rewind_before turn g =
      if turn_came_from_peer turn g
      then refused peer_turn_refusal
      else if leaf_has_unfinished_tool_calls g
      then refused pending_refusal
      else if is_no_turn turn g
      then answered false g
      else rewound (rewind_to (if turn == 1 then "" else id_of (get_elem? (chain g) (turn - 2))) g)
