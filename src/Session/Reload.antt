-- ===== src/Session/Reload.antt =====
-- What is stored of a message is read back (src/session/graph.cpp, src/paging/paging.cpp).
use pu_cli.Base.{
  String, true, false, Option, none, some, List, [], ◌∷◌, ◌++◌, ◌≡◌, refl, sym, ◌∙◌, map,
  Bool-cases, inl, inr, if◌then◌else◌, str_eq, eq_iff,
}
use pu_cli.Session.Message.{
  Origin, ToolCallStatus, pending, completed, interrupted, status_name, status_from, Reasoning,
  ToolCallRecord, MessagePayload, user, assistant, system, tool, MessageNode,
}
use pu_cli.Session.Json.{JsonValue, member, members, text_or}
use pu_cli.Session.Stored.{
  origin_to_json, origin_from_json, reasoning_to_json, reasoning_from_json, reasoning_of,
  call_to_json, call_from_json, unless_none, origin_member, payload_members, serialize_node,
  elements, origin_read, payload_read, deserialize_node,
}

-- An origin as a page has it, which names its source and its buffer.
abbrev pub IsNamed : Option Origin → Type 0
IsNamed none = Unit
IsNamed (some o) = (str_eq o.source "" ≡ false) × (str_eq o.buffer "" ≡ false)

abbrev pub IsStorable : {J : Type 0} → MessagePayload J → Type 0
IsStorable (tool t) = IsNamed t.origin
IsStorable _ = Unit

status_from-name : (s : ToolCallStatus) → status_from (status_name s) ≡ s
unfolding status_from
status_from-name pending = refl
status_from-name completed = refl
status_from-name interrupted = refl

empty_text : (s : String) → str_eq s "" ≡ true → "" ≡ s
empty_text s e = sym ((eq_iff s "").0 e)

module _ {J : Type 0} (json : JsonValue J) where
  text_read : (fallback s : String) → text_or json fallback (some (json.of_text s)) ≡ s
  text_read fallback s = rw (json.text_read s)

  members_read : (ms : List (String × J)) → members json (json.of_object ms) ≡ ms
  members_read ms = rw (json.object_read ms)

  map-read :
      {A : Type 0} (write : A → J) (read : J → A) (xs : List A)
      → ((x : A) → read (write x) ≡ x)
      → map read (map write xs) ≡ xs
  map-read write read [] h = refl
  map-read write read (x ∷ xs) h = rw (h x, map-read write read xs h)

  -- An origin that names its source and its buffer is read back from what it is written as.
  origin_from_json-to :
      (o : Origin) → IsNamed (some o) → origin_from_json json (origin_to_json json o) ≡ some o
  unfolding origin_from_json origin_to_json
  origin_from_json-to o n = rw (
    members_read (
        ("source", json.of_text o.source)
        ∷ ("buffer", json.of_text o.buffer)
        ∷ ("rank", json.of_count o.rank)
        ∷ []),
    json.text_read o.source,
    json.text_read o.buffer,
    json.count_read o.rank,
    n.0,
    n.1,
  )

  call_from_json-to : (c : ToolCallRecord J) → call_from_json json (call_to_json json c) ≡ c
  unfolding call_from_json call_to_json
  call_from_json-to c = rw (
    members_read (
        ("id", json.of_text c.id)
        ∷ ("name", json.of_text c.name)
        ∷ ("arguments", c.arguments)
        ∷ ("status", json.of_text (status_name c.status))
        ∷ []),
    json.text_read c.id,
    json.text_read c.name,
    json.text_read (status_name c.status),
    status_from-name c.status,
  )

  reasoning_from_json-object :
      (ms : List (String × J))
      → reasoning_from_json json (json.of_object ms) ≡ reasoning_of json ms none
  unfolding reasoning_from_json
  reasoning_from_json-object ms = rw (members_read ms, json.object_no_text ms)

  reasoning_from_json-to :
      (r : Reasoning J) → reasoning_from_json json (reasoning_to_json json r) ≡ r
  unfolding reasoning_to_json
  reasoning_from_json-to r =
      reasoning_from_json-object (
        ("text", json.of_text r.text)
        ∷ ((if str_eq r.signature "" then [] else ("signature", json.of_text r.signature) ∷ [])
            ++ (if json.is_null r.raw then [] else ("raw", r.raw) ∷ [])))
      ∙ elim (Bool-cases (str_eq r.signature "")) [
        | inl e ↦ elim (Bool-cases (json.is_null r.raw)) [
          | inl z ↦
              rw (e, z, json.text_read r.text)
                (λ i. record {
                  text = r.text;
                  signature = empty_text r.signature e i;
                  raw = sym (json.null_only r.raw z) i;
                })
          | inr z ↦
              rw (e, z, json.text_read r.text)
                (λ i. record { text = r.text; signature = empty_text r.signature e i; raw = r.raw })
        ]
        | inr e ↦ elim (Bool-cases (json.is_null r.raw)) [
          | inl z ↦
              rw (e, z, json.text_read r.text, json.text_read r.signature)
                (λ i. record {
                  text = r.text;
                  signature = r.signature;
                  raw = sym (json.null_only r.raw z) i;
                })
          | inr z ↦ rw (e, z, json.text_read r.text, json.text_read r.signature)
        ]
      ]

  items-read :
      {A : Type 0} (write : A → J) (read : J → A) (xs : List A)
      → ((x : A) → read (write x) ≡ x)
      → map read (elements json (some (json.of_array (map write xs)))) ≡ xs
  items-read write read xs h = rw (json.array_read (map write xs)) (map-read write read xs h)

  abbrev kept_lists : List (Reasoning J) → List (ToolCallRecord J) → List (String × J)
  kept_lists rs cs =
      unless_none json "reasoning" (map (reasoning_to_json json) rs)
      ++ unless_none json "tool_calls" (map (call_to_json json) cs)

  reasoning-read :
      (rs : List (Reasoning J)) (cs : List (ToolCallRecord J))
      → map (reasoning_from_json json) (elements json (member "reasoning" (kept_lists rs cs))) ≡ rs
  reasoning-read [] [] = refl
  reasoning-read [] (c ∷ cs) = refl
  reasoning-read (r ∷ rs) cs =
      items-read (reasoning_to_json json) (reasoning_from_json json) (r ∷ rs) reasoning_from_json-to

  calls-read :
      (rs : List (Reasoning J)) (cs : List (ToolCallRecord J))
      → map (call_from_json json) (elements json (member "tool_calls" (kept_lists rs cs))) ≡ cs
  calls-read [] [] = refl
  calls-read (r ∷ rs) [] = refl
  calls-read [] (c ∷ cs) =
      items-read (call_to_json json) (call_from_json json) (c ∷ cs) call_from_json-to
  calls-read (r ∷ rs) (c ∷ cs) =
      items-read (call_to_json json) (call_from_json json) (c ∷ cs) call_from_json-to

  origin-read :
      (o : Option Origin)
      → IsNamed o
      → origin_read json (member "origin" (origin_member json o)) ≡ o
  origin-read none w = refl
  origin-read (some o) w = origin_from_json-to o w

  abbrev stored : String → String → String → MessagePayload J → List (String × J)
  stored id timestamp parent p =
      ("id", json.of_text id)
      ∷ ("timestamp", json.of_text timestamp)
      ∷ ("parent", json.of_text parent)
      ∷ payload_members json p

  payload_read-members :
      (id timestamp parent : String) (p : MessagePayload J)
      → IsStorable p
      → let ms = stored id timestamp parent p in
        payload_read json
          (text_or json "" (member "role" ms))
          (text_or json "" (member "content" ms))
          ms
        ≡ some p
  unfolding payload_read payload_members
  payload_read-members id timestamp parent (user u) w = elim (Bool-cases (str_eq u.from_peer "")) [
    | inl e ↦
        rw (e, json.text_read "user", json.text_read u.content)
          (λ i.
            some (user (record { content = u.content; from_peer = empty_text u.from_peer e i })))
    | inr e ↦ rw (e, json.text_read "user", json.text_read u.content, json.text_read u.from_peer)
  ]
  payload_read-members id timestamp parent (assistant a) w =
      rw (json.text_read "assistant", json.text_read a.content)
        (λ i. some (
          assistant (record {
            content = a.content;
            reasoning = reasoning-read a.reasoning a.tool_calls i;
            tool_calls = calls-read a.reasoning a.tool_calls i;
          })))
  payload_read-members id timestamp parent (system s) w =
      rw (json.text_read "system", json.text_read s.content)
  payload_read-members id timestamp parent (tool t) w =
      rw
        (
          json.text_read "tool",
          json.text_read t.content,
          json.text_read t.tool_call_id,
          json.text_read t.tool_name,
        )
        (λ i. some (tool (record t { origin = origin-read t.origin w i })))

  -- A message with an id is read back from what it is stored as, whoever wrote it: its payload, every
  -- call with its status and every block of reasoning. The origin of a receipt, where it has one, names
  -- its source and its buffer.
  pub deserialize-serialize_node :
      (n : MessageNode J)
      → str_eq n.id "" ≡ false
      → IsStorable n.payload
      → deserialize_node json (serialize_node json n) ≡ some n
  unfolding deserialize_node serialize_node
  deserialize-serialize_node n h w = rw (
    json.object_read (stored n.id n.timestamp n.parent n.payload),
    json.text_read n.id,
    json.text_read n.timestamp,
    json.text_read n.parent,
    payload_read-members n.id n.timestamp n.parent n.payload w,
    h,
  )
