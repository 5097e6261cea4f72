-- ===== src/Provider/Projected.antt =====
-- What a projected call of a tool says (src/llm/projection.cpp).
use pu_cli.Base.{
  String, Bool, true, false, ◌||◌, Option, none, some, List, [], ◌∷◌, ◌++◌, ◌≡◌, inl, inr, refl,
  sym, ap, ◌∙◌, Bool-cases, Option-cases, if_true, if_false,
}
use pu_cli.Session.Json.{JsonValue, members, member}
use pu_cli.Session.Message.{ToolCallRecord, pending}
use pu_cli.Provider.Projection.{
  ToolArgumentsEncoding, json_object, json_string, ProviderCapabilities, tool_call_to_json,
  tool_call_from_json, has_function, function_members, id_member, projected_call, is_there,
  from_text, parsed_or, project_arguments, type_member, project_call,
}

module _ {J : Type 0} (json : JsonValue J) (serialize : J → String)
    (parse : String → Option J) where
  -- How a provider takes arguments. One that wants a text gets objects and arrays written out, and any
  -- other value as it is; one that wants a value gets what a text parses to, a text that does not parse
  -- as it is, and any other value as it is.
  pub data IsEncoded (a : J) : ToolArgumentsEncoding → J → Type 0 where
    object_as_text :
        (ms : List (String × J)) {b : J}
        → json.as_object a ≡ some ms
        → b ≡ json.of_text (serialize a)
        → IsEncoded a json_string b
    array_as_text :
        (js : List J) {b : J}
        → json.as_array a ≡ some js
        → b ≡ json.of_text (serialize a)
        → IsEncoded a json_string b
    plain_kept :
        {b : J}
        → json.as_object a ≡ none
        → json.as_array a ≡ none
        → b ≡ a
        → IsEncoded a json_string b
    text_parsed :
        (s : String) {b : J}
        → json.as_text a ≡ some s
        → parse s ≡ some b
        → IsEncoded a json_object b
    text_kept :
        (s : String) {b : J}
        → json.as_text a ≡ some s
        → parse s ≡ none
        → b ≡ a
        → IsEncoded a json_object b
    value_kept : {b : J} → json.as_text a ≡ none → b ≡ a → IsEncoded a json_object b

  -- The two encodings, each by what the value is.
  project_arguments-string :
      (a : J) → IsEncoded a json_string (project_arguments json serialize parse a json_string)
  unfolding project_arguments
  project_arguments-string a = elim (Option-cases (json.as_object a)) [
    | inr (ms, e) ↦ object_as_text ms e (rw e refl)
    | inl e ↦ elim (Option-cases (json.as_array a)) [
      | inr (js, f) ↦ array_as_text js f (rw (e, f) refl)
      | inl f ↦ plain_kept e f (rw (e, f) refl)
    ]
  ]

  project_arguments-object :
      (a : J) → IsEncoded a json_object (project_arguments json serialize parse a json_object)
  unfolding project_arguments
  project_arguments-object a = elim (Option-cases (json.as_text a)) [
    | inl e ↦ value_kept e (rw e refl)
    | inr (s, e) ↦ elim (Option-cases (parse s)) [
      | inl f ↦ text_kept s e f (rw (e, f) refl)
      | inr (b, f) ↦
          let kept : from_text json serialize parse a (json.as_text a) ≡ b = rw (e, f) refl in
          text_parsed s e (f ∙ ap some (sym kept))
    ]
  ]

  project_arguments-IsEncoded :
      (a : J) (encoding : ToolArgumentsEncoding)
      → IsEncoded a encoding (project_arguments json serialize parse a encoding)
  project_arguments-IsEncoded a json_string = project_arguments-string a
  project_arguments-IsEncoded a json_object = project_arguments-object a

  abbrev with_arguments : J → ToolCallRecord J → ToolCallRecord J
  with_arguments b c = record { id = c.id; name = c.name; arguments = b; status = pending }

  -- A call was read with the id and the name of another, and its arguments encoded.
  abbrev pub IsSent : ToolArgumentsEncoding → ToolCallRecord J → ToolCallRecord J → Type 0
  IsSent encoding c read = (b : J) × (read ≡ with_arguments b c) × IsEncoded c.arguments encoding b

  read_call :
      (c : ToolCallRecord J)
      → tool_call_from_json json serialize parse (tool_call_to_json json serialize parse c)
        ≡ record c { status = pending }
  unfolding tool_call_from_json tool_call_to_json
  read_call c =
      rw (json.object_read _, json.object_read _, json.text_read c.id, json.text_read c.name) refl

  has_call :
      (c : ToolCallRecord J)
      → has_function json serialize parse
          (member "function" (members json (tool_call_to_json json serialize parse c)))
        ≡ true
  unfolding tool_call_to_json
  has_call c = rw (json.object_read _, json.object_read _) refl

  sent_call :
      (carries_type : Bool) (id name : String) (arguments : J)
      → tool_call_from_json json serialize parse (
          json.of_object (
            ("id", json.of_text id) ∷ type_member json serialize parse carries_type
            ++ ("function", json.of_object (function_members json serialize parse name arguments))
              ∷ []))
        ≡ record { id = id; name = name; arguments = arguments; status = pending }
  unfolding tool_call_from_json
  sent_call true id name arguments =
      rw (json.object_read _, json.object_read _, json.text_read id, json.text_read name) refl
  sent_call false id name arguments =
      rw (json.object_read _, json.object_read _, json.text_read id, json.text_read name) refl

  id_kept :
      (c : ToolCallRecord J)
      → id_member json serialize parse
          (member "id" (members json (tool_call_to_json json serialize parse c)))
        ≡ ("id", json.of_text c.id) ∷ []
  unfolding tool_call_to_json
  id_kept c = rw (json.object_read _) refl

  -- A call that is stored is read off its projection, for whichever provider, with its id and its name,
  -- and with its arguments as `IsEncoded` says of that provider: for one that wants a text, objects and
  -- arrays are written out and anything else stays; for one that wants a value, a text that parses is
  -- what it parses to and anything else stays.
  pub project_call-read :
      (caps : ProviderCapabilities) (c : ToolCallRecord J)
      → IsSent caps.tool_arguments c (
          tool_call_from_json json serialize parse
            (project_call json serialize parse caps (tool_call_to_json json serialize parse c)))
  unfolding project_call
  project_call-read caps c =
      let call = tool_call_to_json json serialize parse c in
      let read = tool_call_from_json json serialize parse in
      let kept = project_arguments json serialize parse c.arguments caps.tool_arguments in
      (
        kept,
        ap read (
              if_true (has_function json serialize parse (member "function" (members json call))) _
                call (has_call c))
            ∙ ap (λ d. read (projected_call json serialize parse caps call d)) (read_call c)
            ∙ ap
                (λ (ms : List (String × J)). read (
                  json.of_object (
                    ms
                    ++ type_member json serialize parse caps.tool_calls_carry_type
                    ++ (
                      "function",
                      json.of_object (function_members json serialize parse c.name kept),
                    )
                      ∷ [])))
                (id_kept c)
            ∙ sent_call caps.tool_calls_carry_type c.id c.name kept,
        project_arguments-IsEncoded c.arguments caps.tool_arguments,
      )

  -- Arguments that are sent as a text come back as they were where they are wanted as a value: they are
  -- no text, and the parser reads what the library writes of them.
  pub project_arguments-back :
      (a : J)
      → json.as_text a ≡ none
      → parse (serialize a) ≡ some a
      → project_arguments json serialize parse
          (project_arguments json serialize parse a json_string)
          json_object
        ≡ a
  unfolding project_arguments
  project_arguments-back a no_text reads =
      let nested =
        is_there json serialize parse (json.as_object a)
        || is_there json serialize parse (json.as_array a) in
      let wanted = λ (j : J). from_text json serialize parse j (json.as_text j) in
      elim (Bool-cases nested) [
        | inl h ↦
            ap wanted (if_true nested (json.of_text (serialize a)) a h)
            ∙ ap (from_text json serialize parse (json.of_text (serialize a)))
                (json.text_read (serialize a))
            ∙ ap (parsed_or json serialize parse (json.of_text (serialize a))) reads
        | inr h ↦
            ap wanted (if_false nested (json.of_text (serialize a)) a h)
            ∙ ap (from_text json serialize parse a) no_text
      ]
