-- ===== src/Session/Saved.antt =====
-- A graph as it is saved: `Serialize`, `Deserialize` (src/session/graph.cpp) and `LinksResolve`
-- (include/pu/session/graph.hpp). The walk of `LinksResolve` takes one more than the number of nodes as
-- fuel: each round but the last marks a node that was not marked.
use pu_cli.Base.{
  ℕ, zero, suc, String, Bool, true, false, not, ◌&&◌, Option, none, some, List, [], ◌∷◌, ◌++◌, ◌≡◌,
  sym, ap, ◌∙◌, arith, length, map, append_assoc, append-nil, if◌then◌else◌, str_eq,
}
use pu_cli.Session.Message.{MessageNode}
use pu_cli.Session.Graph.{MessageGraph, find_node, among}
use pu_cli.Session.Json.{JsonValue, member, members}
use pu_cli.Session.Stored.{serialize_node, deserialize_node}
use pu_cli.Session.Reload.{IsStorable, deserialize-serialize_node}

unfoldable pub listed : String → List String → Bool
listed id [] = false
listed id (x ∷ xs) = if str_eq x id then true else listed id xs

module _ {J : Type 0} where
  -- The walk from one node: the ids on its path, none if it is cut or closes on itself.
  unfoldable pub trace :
      ℕ → List (MessageNode J) → String → List String → List String → Option (List String)
  unfolding listed
  trace zero ns id sound path = none
  trace (suc fuel) ns id sound path = if str_eq id "" then some path else elim (find_node id ns) [
    | none ↦ none
    | some n ↦
        if listed id sound
        then some path
        else if listed id path
        then none
        else trace fuel ns n.parent sound (id ∷ path)
  ]

  unfoldable pub resolve_from : List (MessageNode J) → List (MessageNode J) → List String → Bool
  unfolding trace
  resolve_from ns [] sound = true
  resolve_from ns (n ∷ rest) sound = elim (trace (suc (length ns)) ns n.id sound []) [
    | none ↦ false
    | some path ↦ resolve_from ns rest (path ++ sound)
  ]

  -- `LinksResolve`
  unfoldable pub links_resolve : List (MessageNode J) → Bool
  unfolding resolve_from
  links_resolve ns = resolve_from ns ns []

  -- The graph that `Deserialize` hands out, if its leaf and its links resolve.
  unfoldable pub graph_read : String → List (MessageNode J) → Option (MessageGraph J)
  unfolding links_resolve
  graph_read leaf ns =
      if not (str_eq leaf "") && not (among leaf ns)
      then none
      else if links_resolve ns
      then some (record { nodes = ns; leaf = leaf })
      else none

  abbrev pub place_node :
      Option (MessageNode J) → List (MessageNode J) → Option (List (MessageNode J))
  place_node none ns = none
  place_node (some n) ns = if among n.id ns then none else some (ns ++ n ∷ [])

  -- Ids that are there, each once, beside those of the nodes before them.
  abbrev pub IsFresh : List (MessageNode J) → List (MessageNode J) → Type 0
  IsFresh before [] = Unit
  IsFresh before (n ∷ ns) =
      (str_eq n.id "" ≡ false)
      × IsStorable n.payload
      × (among n.id before ≡ false)
      × IsFresh (before ++ n ∷ []) ns

module _ {J : Type 0} (json : JsonValue J) where
  -- The loop of `Deserialize`.
  unfoldable pub read_nodes : List J → List (MessageNode J) → Option (List (MessageNode J))
  read_nodes [] ns = some ns
  read_nodes (j ∷ js) ns = elim (place_node (deserialize_node json j) ns) [
    | none ↦ none
    | some more ↦ read_nodes js more
  ]

  -- `Serialize`
  unfoldable pub serialize : MessageGraph J → J
  serialize g = json.of_object (
      ("nodes", json.of_array (map (serialize_node json) g.nodes))
      ∷ ("leaf", json.of_text g.leaf)
      ∷ [])

  unfoldable pub finish_read :
      Option String → Option (List (MessageNode J)) → Option (MessageGraph J)
  unfolding graph_read
  finish_read none ns = none
  finish_read (some leaf) none = none
  finish_read (some leaf) (some ns) = graph_read leaf ns

  abbrev pub array_of : Option J → Option (List J)
  array_of none = none
  array_of (some j) = json.as_array j

  abbrev pub text_of : Option J → Option String
  text_of none = none
  text_of (some j) = json.as_text j

  abbrev pub nodes_of : Option (List J) → Option (List (MessageNode J))
  nodes_of none = none
  nodes_of (some js) = read_nodes js []

  -- `Deserialize`
  unfoldable pub deserialize : J → Option (MessageGraph J)
  unfolding read_nodes finish_read
  deserialize j =
      finish_read (text_of (member "leaf" (members json j)))
        (nodes_of (array_of (member "nodes" (members json j))))

  read_nodes-cons :
      (j : J) (js : List J) (ns more : List (MessageNode J))
      → place_node (deserialize_node json j) ns ≡ some more
      → read_nodes (j ∷ js) ns ≡ read_nodes js more
  unfolding read_nodes
  read_nodes-cons j js ns more e = ground (arith, e)

  read_nodes-map :
      (ns before : List (MessageNode J))
      → IsFresh before ns
      → read_nodes (map (serialize_node json) ns) before ≡ some (before ++ ns)
  unfolding read_nodes
  read_nodes-map [] before f = ap some (sym (append-nil before))
  read_nodes-map (n ∷ ns) before f =
      read_nodes-cons (serialize_node json n) (map (serialize_node json) ns) before
        (before ++ n ∷ []) (rw (deserialize-serialize_node json n f.0 f.1, f.2))
      ∙ read_nodes-map ns (before ++ n ∷ []) f.3
      ∙ ap some (append_assoc before (n ∷ []) ns)

  -- A graph whose nodes have ids, each its own, and storable payloads, whose leaf is empty or one of the
  -- nodes and whose links resolve, is read back from what it is saved as: every node and the leaf.
  pub deserialize-serialize :
      (g : MessageGraph J)
      → IsFresh [] g.nodes
      → not (str_eq g.leaf "") && not (among g.leaf g.nodes) ≡ false
      → links_resolve g.nodes ≡ true
      → deserialize (serialize g) ≡ some g
  unfolding deserialize serialize finish_read graph_read
  deserialize-serialize g f l r = rw (
    json.object_read (
        ("nodes", json.of_array (map (serialize_node json) g.nodes))
        ∷ ("leaf", json.of_text g.leaf)
        ∷ []),
    json.text_read g.leaf,
    json.array_read (map (serialize_node json) g.nodes),
    read_nodes-map g.nodes [] f,
    l,
    r,
  )
