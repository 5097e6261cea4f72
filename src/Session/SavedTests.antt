-- ===== src/Session/SavedTests.antt =====
-- A conversation that is saved with a concrete type of JSON values.
use pu_cli.Base.{some, [], ◌∷◌, ◌≡◌, refl}
use pu_cli.Session.Message.{completed, user, assistant, tool, MessageNode}
use pu_cli.Session.Graph.{MessageGraph, find_node, among}
use pu_cli.Session.Values.{Json, nothing, text, json}
use pu_cli.Session.Saved.{
  listed, trace, resolve_from, links_resolve, serialize, deserialize, deserialize-serialize,
}

abbrev question : MessageNode Json
question = record {
  id = "m1";
  timestamp = "t1";
  payload = user (record { content = "list it"; from_peer = "" });
  parent = "";
}

abbrev reply : MessageNode Json
reply = record {
  id = "m2";
  timestamp = "";
  payload = assistant (record {
    content = "";
    reasoning = record { text = "look"; signature = "s"; raw = nothing } ∷ [];
    tool_calls = record { id = "c1"; name = "run"; arguments = text "ls"; status = completed } ∷ [];
  });
  parent = "m1";
}

abbrev receipt : MessageNode Json
receipt = record {
  id = "m3";
  timestamp = "";
  payload = tool (record {
    tool_call_id = "c1";
    tool_name = "run";
    content = "a b";
    origin = some (record { source = "s1"; buffer = "o1"; rank = 4 });
  });
  parent = "m2";
}

abbrev talk : MessageGraph Json
talk = record { nodes = question ∷ reply ∷ receipt ∷ []; leaf = "m3" }

deserialize-serialize_example : deserialize json (serialize json talk) ≡ some talk
deserialize-serialize_example =
    deserialize-serialize json talk
      (unfold among in (refl, tt, refl, (refl, tt, refl, (refl, (refl, refl), refl, tt))))
      (unfold among in refl) (unfold links_resolve resolve_from trace find_node listed in refl)
