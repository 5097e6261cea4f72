-- ===== src/Provider/Frames.antt =====
-- One frame of the stream: `HandleJsonToken` of src/llm/openai_protocol.cpp. A count that a gateway
-- reports is not negative.
use pu_cli.Base.{
  ℕ, String, Bool, true, false, Option, none, some, List, [], ◌∷◌, ℤ, pos, negsuc, ◌==◌,
  if◌then◌else◌, str_eq,
}
use pu_cli.Session.Json.{member, members_found, text_or}
use pu_cli.Session.Usage.{Cost}
use pu_cli.Runtime.Data.{append_text}
use pu_cli.Provider.Data.{
  WireValue, ResponseShape, BillingKind, no_billing, reported, Billing, Stream, Read, going, broken,
}
use pu_cli.Provider.Stream.{
  append_content, append_reasoning, note_unread_fields, note_keys, take_calls, object_of,
  flush_pending_tool_calls,
}

abbrev pub is_negative : ℤ → Bool
is_negative (pos n) = false
is_negative (negsuc n) = true

abbrev pub int_eq : ℤ → ℤ → Bool
int_eq (pos m) (pos n) = m == n
int_eq (negsuc m) (negsuc n) = m == n
int_eq _ _ = false

abbrev pub is_reported : BillingKind → Bool
is_reported no_billing = false
is_reported reported = true

abbrev pub read_keys : List String
read_keys = "error" ∷ "choices" ∷ "usage" ∷ "model" ∷ "done" ∷ []

abbrev pub list_found : {J : Type 0} → Option (List J) → List J
list_found none = []
list_found (some js) = js

module _ {J Amount : Type 0} (wire : WireValue J Amount) where
  abbrev pub array_of : Option J → List J
  array_of none = []
  array_of (some j) = list_found (wire.json.as_array j)

  abbrev pub text_of : Option J → Option String
  text_of none = none
  text_of (some j) = wire.json.as_text j

  abbrev pub int_or : ℤ → Option J → ℤ
  int_or n none = n
  int_or n (some j) = elim (wire.as_int j) [ none ↦ n | some i ↦ i ]

  -- `ValueOrDefault<int>(usage, field, 0)`
  abbrev pub count_of : Option J → ℕ
  count_of none = 0
  count_of (some j) = elim (wire.json.as_count j) [ none ↦ 0 | some n ↦ n ]

  abbrev pub first_of : List J → Option J
  first_of [] = none
  first_of (j ∷ js) = some j

  abbrev pub note_object : Option J → Stream J Amount → Stream J Amount
  note_object o s = note_keys wire (members_found (object_of wire o)) s

  unfoldable pub note_nested : List (String × J) → Stream J Amount → Stream J Amount
  unfolding note_keys
  note_nested [] s = s
  note_nested (m ∷ ms) s =
      note_nested ms (note_object (some m.1) (note_keys wire ((m.0, m.1) ∷ []) s))

  -- The names that a frame carries: its own, its first choice's, that choice's delta's, its usage's and
  -- those inside of it.
  unfoldable pub note_frame : List (String × J) → Stream J Amount → Stream J Amount
  unfolding note_keys note_nested
  note_frame ms s =
      let choice = first_of (array_of (member "choices" ms)) in
      let chosen = members_found (object_of wire choice) in
      note_nested (members_found (object_of wire (member "usage" ms)))
        (note_object (member "delta" chosen) (note_keys wire chosen (note_keys wire ms s)))

  -- `json::ErrorMessage` of include/pu/core/json.hpp
  abbrev pub inner_message : Option J → Option String
  inner_message none = none
  inner_message (some j) = elim (wire.json.as_text j) [
    | some text ↦ some text
    | none ↦
        let inner =
          text_or wire.json "" (member "message" (members_found (wire.json.as_object j))) in
        if str_eq inner "" then none else some inner
  ]

  unfoldable pub error_message : J → String
  error_message j =
      let ms = members_found (wire.json.as_object j) in
      let message = text_or wire.json "" (member "message" ms) in
      elim (inner_message (member "error" ms)) [
        | some inner ↦ inner
        | none ↦ if str_eq message "" then text_or wire.json "" (member "msg" ms) else message
      ]

  -- `StreamErrorDetail`
  abbrev pub stream_error_detail : J → String
  stream_error_detail j = elim (wire.json.as_text j) [
    | some text ↦ text
    | none ↦ if str_eq (error_message j) "" then wire.print j else error_message j
  ]

  module _ (shape : ResponseShape) where
    abbrev pub named : String → List (String × J) → Option J
    named field ms = if str_eq field "" then none else member field ms

    abbrev pub take_refusal : List (String × J) → Stream J Amount → Stream J Amount
    take_refusal ms s = record s {
      refusal = append_text s.refusal (text_or wire.json "" (member shape.refusal_field ms));
    }

    abbrev pub take_reasoning : Option String → Stream J Amount → Stream J Amount
    take_reasoning none s = s
    take_reasoning (some text) s = append_reasoning wire text s

    abbrev pub take_tools : List (String × J) → Stream J Amount → Stream J Amount
    take_tools ms s = record s {
      pending_tools = take_calls wire (array_of (member "tool_calls" ms)) s.pending_tools;
    }

    -- The delta or the message of a choice.
    unfoldable pub take_piece : Option (List (String × J)) → Stream J Amount → Stream J Amount
    take_piece none s = s
    take_piece (some ms) s = take_tools ms (
        take_reasoning (text_of (named shape.reasoning_field ms)) (
          take_refusal ms
            (append_content wire (text_or wire.json "" (member shape.content_field ms)) s)))

    abbrev pub take_finish : Option String → Stream J Amount → Stream J Amount
    take_finish none s = s
    take_finish (some reason) s = record s { finish_reason = reason }

    abbrev pub piece_of : List (String × J) → Option J
    piece_of ms = elim (member "delta" ms) [ none ↦ member "message" ms | some d ↦ some d ]

    -- One of the choices; only those of the index that came first are read.
    unfoldable pub take_choice : Option (List (String × J)) → Stream J Amount → Stream J Amount
    unfolding take_piece
    take_choice none s = s
    take_choice (some ms) s =
        let index = int_or (pos 0) (member "index" ms) in
        let chosen = if is_negative s.reply_choice_index then index else s.reply_choice_index in
        let known = record s { reply_choice_index = chosen } in
        if int_eq index chosen
        then take_finish (text_of (named shape.finish_reason_field ms))
            (take_piece (object_of wire (piece_of ms)) known)
        else known

    unfoldable pub take_choices : List J → Stream J Amount → Stream J Amount
    unfolding take_choice
    take_choices [] s = s
    take_choices (j ∷ js) s = take_choices js (take_choice (wire.json.as_object j) s)

    -- The count of the cached prompt: the nested field, and else the one at the top level.
    abbrev pub cached_tokens : List (String × J) → ℕ
    cached_tokens ms =
        let parent = members_found (object_of wire (named shape.cached_tokens_parent ms)) in
        let nested = count_of (member shape.cached_tokens_nested_field parent) in
        if nested == 0 then count_of (named shape.cached_tokens_top_level_field ms) else nested

    abbrev pub priced : String → Option J → Option (Cost Amount)
    priced unit none = none
    priced unit (some j) = elim (wire.as_number j) [
      | none ↦ none
      | some amount ↦ some (record { amount = amount; unit = unit })
    ]

    abbrev pub reported_cost : Billing → List (String × J) → Option (Cost Amount)
    reported_cost billing ms =
        if is_reported billing.kind then priced billing.unit (named billing.field ms) else none

    abbrev pub take_usage : Billing → Option (List (String × J)) → Stream J Amount → Stream J Amount
    take_usage billing none s = s
    take_usage billing (some ms) s = record s {
      usage = some (record {
        prompt_tokens = count_of (member shape.prompt_tokens_field ms);
        completion_tokens = count_of (member shape.completion_tokens_field ms);
        total_tokens = count_of (named shape.total_tokens_field ms);
        cached_tokens = cached_tokens ms;
        cost = reported_cost billing ms;
      });
    }

    abbrev pub take_model : Option String → Stream J Amount → Stream J Amount
    take_model none s = s
    take_model (some model) s = record s { response_model = model }

    -- A frame that says nothing of an error, and whether it is the last.
    unfoldable pub take_frame : Billing → Bool → List (String × J) → Stream J Amount → Read J Amount
    unfolding take_choices
    take_frame billing is_final ms s =
        let taken = take_model (text_of (member "model" ms)) (
          take_usage billing (object_of wire (named shape.usage_field ms))
            (take_choices (array_of (member "choices" ms)) s)) in
        if is_final then flush_pending_tool_calls wire taken else going taken

    abbrev pub take_done : Billing → Option J → List (String × J) → Stream J Amount → Read J Amount
    take_done billing none ms s = take_frame billing false ms s
    take_done billing (some j) ms s = elim (wire.as_flag j) [
      | none ↦ broken wire.not_a_flag s
      | some done ↦ take_frame billing done ms s
    ]

    abbrev pub take_checked :
        Billing → Option J → List (String × J) → Stream J Amount → Read J Amount
    take_checked billing none ms s = take_done billing (member "done" ms) ms s
    take_checked billing (some error) ms s =
        broken (append_text "provider error: " (stream_error_detail error)) s

    -- `HandleJsonToken`
    unfoldable pub handle_json_token :
        Billing → Option (List (String × J)) → Stream J Amount → Read J Amount
    unfolding note_frame take_frame
    handle_json_token billing none s = going s
    handle_json_token billing (some ms) s =
        take_checked billing (member "error" ms) ms
          (note_frame ms (note_unread_fields wire read_keys ms s))
