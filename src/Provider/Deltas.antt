-- ===== src/Provider/Deltas.antt =====
-- A reply in pieces, as a gateway streams it, and what is read of one frame of it
-- (src/llm/openai_protocol.cpp).
use pu_cli.Base.{
  ℕ, String, Bool, true, false, some, List, [], ◌∷◌, ◌++◌, ◌≡◌, ◌⊎◌, inl, inr, refl, ap, ◌∙◌, pos,
  negsuc, if◌then◌else◌, arith, Bool-cases,
}
use pu_cli.Session.Json.{member, members_found}
use pu_cli.Runtime.Data.{append_text}
use pu_cli.Provider.Data.{WireValue, default_shape, Billing, Stream, going}
use pu_cli.Provider.Stream.{
  contains, note_seen_field, note_keys, note_unread_fields, unread_of, object_of,
}
use pu_cli.Provider.Frames.{
  int_eq, note_object, first_of, list_found, array_of, read_keys, note_nested, note_frame,
  take_piece, take_choice, take_choices, take_frame, handle_json_token,
}
use pu_cli.Provider.Chat.{take_parsed}

-- A call as the gateway streams it: its arguments are a text in pieces, of a value.
pub record SentCall (J : Type 0) : Type 0 where
  pub id : String
  pub name : String
  pub first : String
  pub more : List String
  pub value : J

abbrev pub joined : String → List String → String
joined t [] = t
joined t (p ∷ ps) = joined (append_text t p) ps

module _ {J Amount : Type 0} (wire : WireValue J Amount) where
  abbrev pub words_members : String → List (String × J)
  words_members w = ("content", wire.json.of_text w) ∷ []

  abbrev pub calls_members : List (String × J) → List (String × J)
  calls_members ms = ("tool_calls", wire.json.of_array (wire.json.of_object ms ∷ [])) ∷ []

  abbrev pub function_members : String → String → List (String × J)
  function_members name p =
      ("name", wire.json.of_text name) ∷ ("arguments", wire.json.of_text p) ∷ []

  abbrev pub opening_members : SentCall J → List (String × J)
  opening_members c =
      ("id", wire.json.of_text c.id)
      ∷ ("function", wire.json.of_object (function_members c.name c.first))
      ∷ []

  abbrev pub rest_members : String → List (String × J)
  rest_members p = ("function", wire.json.of_object (("arguments", wire.json.of_text p) ∷ [])) ∷ []

  abbrev pub choice_members : J → List (String × J) → List (String × J)
  choice_members index ms = ("index", index) ∷ ("delta", wire.json.of_object ms) ∷ []

  abbrev pub choice_of : J → List (String × J) → J
  choice_of index ms = wire.json.of_object (choice_members index ms)

  abbrev pub choices_of : J → List (String × J) → J
  choices_of index ms = wire.json.of_array (choice_of index ms ∷ [])

  abbrev pub frame_members : J → List (String × J) → List (String × J)
  frame_members index ms = ("choices", choices_of index ms) ∷ []

  -- A frame with one choice, whose delta has these members.
  abbrev pub frame_of : J → List (String × J) → J
  frame_of index ms = wire.json.of_object (frame_members index ms)

  -- What the notes on a frame leave of the state.
  pub record IsNoted (s t : Stream J Amount) : Type 0 where
    pub seen : List String
    pub unread : List String
    pub inspected : Bool
    pub state :
        t ≡ record s { seen_fields = seen; unread_fields = unread; inspected_frame = inspected }

  IsNoted-trans : (s t u : Stream J Amount) → IsNoted s t → IsNoted t u → IsNoted s u
  IsNoted-trans s t u p q = record {
    seen = q.seen;
    unread = q.unread;
    inspected = q.inspected;
    state =
        q.state
        ∙ ap
            (λ (x : Stream J Amount). record x {
              seen_fields = q.seen;
              unread_fields = q.unread;
              inspected_frame = q.inspected;
            })
            p.state;
  }

  note_seen_field-IsNoted :
      (key : String) (s : Stream J Amount) → IsNoted s (note_seen_field wire key s)
  note_seen_field-IsNoted key s = record {
    seen = if contains key s.seen_fields then s.seen_fields else s.seen_fields ++ key ∷ [];
    unread = s.unread_fields;
    inspected = s.inspected_frame;
    state = elim (Bool-cases (contains key s.seen_fields)) [
      | inl e ↦ rw e refl
      | inr e ↦ rw e refl
    ];
  }

  note_keys-IsNoted :
      (ms : List (String × J)) (s : Stream J Amount) → IsNoted s (note_keys wire ms s)
  unfolding note_keys
  note_keys-IsNoted [] s = record {
    seen = s.seen_fields;
    unread = s.unread_fields;
    inspected = s.inspected_frame;
    state = refl;
  }
  note_keys-IsNoted (m ∷ ms) s =
      let next = note_seen_field wire m.0 s in
      IsNoted-trans s next (note_keys wire ms next) (note_seen_field-IsNoted m.0 s)
        (note_keys-IsNoted ms next)

  note_nested-IsNoted :
      (ms : List (String × J)) (s : Stream J Amount) → IsNoted s (note_nested wire ms s)
  unfolding note_nested
  note_nested-IsNoted [] s = note_keys-IsNoted [] s
  note_nested-IsNoted (m ∷ ms) s =
      let key = note_keys wire ((m.0, m.1) ∷ []) s in
      let inside = note_object wire (some m.1) key in
      IsNoted-trans s key (note_nested wire ms inside) (note_keys-IsNoted ((m.0, m.1) ∷ []) s) (
        IsNoted-trans key inside (note_nested wire ms inside)
          (note_keys-IsNoted (members_found (wire.json.as_object m.1)) key)
          (note_nested-IsNoted ms inside))

  note_frame-IsNoted :
      (ms : List (String × J)) (s : Stream J Amount) → IsNoted s (note_frame wire ms s)
  unfolding note_frame
  note_frame-IsNoted ms s =
      let chosen =
        members_found (object_of wire (first_of wire (array_of wire (member "choices" ms)))) in
      let own = note_keys wire ms s in
      let choice = note_keys wire chosen own in
      let delta = note_object wire (member "delta" chosen) choice in
      let usage = members_found (object_of wire (member "usage" ms)) in
      IsNoted-trans s own (note_nested wire usage delta) (note_keys-IsNoted ms s) (
        IsNoted-trans own choice (note_nested wire usage delta) (note_keys-IsNoted chosen own) (
          IsNoted-trans choice delta (note_nested wire usage delta)
            (note_keys-IsNoted (members_found (object_of wire (member "delta" chosen))) choice)
            (note_nested-IsNoted usage delta)))

  IsNoted-if : (b : Bool) (s t : Stream J Amount) → IsNoted s t → IsNoted s (if b then s else t)
  IsNoted-if true s t h = record {
    seen = s.seen_fields;
    unread = s.unread_fields;
    inspected = s.inspected_frame;
    state = refl;
  }
  IsNoted-if false s t h = h

  note_unread_fields-IsNoted :
      (keys : List String) (ms : List (String × J)) (s : Stream J Amount)
      → IsNoted s (note_unread_fields wire keys ms s)
  note_unread_fields-IsNoted keys ms s =
      IsNoted-if s.inspected_frame s
        (record s { inspected_frame = true; unread_fields = s.unread_fields ++ unread_of keys ms })
        (record {
          seen = s.seen_fields;
          unread = s.unread_fields ++ unread_of keys ms;
          inspected = true;
          state = refl;
        })

  -- No choice has been read yet, or the one of the index.
  abbrev pub IsChosen : ℕ → Stream J Amount → Type 0
  IsChosen k s = (s.reply_choice_index ≡ negsuc 0) ⊎ (s.reply_choice_index ≡ pos k)

  token_step :
      (billing : Billing) (index : J) (ms : List (String × J)) (s : Stream J Amount)
      → let fms = frame_members index ms in
        handle_json_token wire default_shape billing (some fms) s
        ≡ take_frame wire default_shape billing false fms
            (note_frame wire fms (note_unread_fields wire read_keys fms s))
  unfolding handle_json_token
  token_step billing index ms s = refl

  frame_taken :
      (billing : Billing) (index : J) (ms : List (String × J)) (t : Stream J Amount)
      → take_frame wire default_shape billing false (frame_members index ms) t
        ≡ going (take_choices wire default_shape (array_of wire (some (choices_of index ms))) t)
  unfolding take_frame
  frame_taken billing index ms t = refl

  int_eq_refl : (k : ℕ) → int_eq (pos k) (pos k) ≡ true
  int_eq_refl k = ground arith

  module _ (index : J) (k : ℕ) (is_index : wire.as_int index ≡ some (pos k)) where
    choice_step :
        (ms : List (String × J)) (s : Stream J Amount)
        → IsChosen k s
        → take_choice wire default_shape
            (some (("index", index) ∷ ("delta", wire.json.of_object ms) ∷ []))
            s
          ≡ take_piece wire default_shape (some ms) (record s { reply_choice_index = pos k })
    unfolding take_choice
    choice_step ms s (inl e) = rw (is_index, e, int_eq_refl k, wire.json.object_read ms) refl
    choice_step ms s (inr e) = rw (is_index, e, int_eq_refl k, wire.json.object_read ms) refl

    choices_step :
        (ms : List (String × J)) (s : Stream J Amount)
        → IsChosen k s
        → take_choices wire default_shape (array_of wire (some (choices_of index ms))) s
          ≡ take_piece wire default_shape (some ms) (record s { reply_choice_index = pos k })
    unfolding take_choices
    choices_step ms s chosen =
        let members = choice_members index ms in
        ap (λ o. take_choices wire default_shape (list_found o) s)
          (wire.json.array_read (choice_of index ms ∷ []))
        ∙ ap (λ o. take_choice wire default_shape o s) (wire.json.object_read members)
        ∙ choice_step ms s chosen

    pub frame_step :
        (billing : Billing) (ms : List (String × J)) (s : Stream J Amount)
        → IsChosen k s
        → (t : Stream J Amount) × (IsNoted s t)
          × (take_parsed wire default_shape billing (some (frame_of index ms)) s
              ≡ going (
                  take_piece wire default_shape
                    (some ms)
                    (record t { reply_choice_index = pos k })))
    frame_step billing ms s chosen =
        let fms = frame_members index ms in
        let unread = note_unread_fields wire read_keys fms s in
        let t = note_frame wire fms unread in
        let noted =
          IsNoted-trans s unread t (note_unread_fields-IsNoted read_keys fms s)
            (note_frame-IsNoted fms unread) in
        let same : t.reply_choice_index ≡ s.reply_choice_index =
          ap (λ (x : Stream J Amount). x.reply_choice_index) noted.state in
        let still : IsChosen k t = elim chosen [
          | inl e ↦ inl (same ∙ e)
          | inr e ↦ inr (same ∙ e)
        ] in
        (
          t,
          noted,
          ap (λ o. handle_json_token wire default_shape billing o s) (wire.json.object_read fms)
              ∙ token_step billing index ms s
              ∙ frame_taken billing index ms t
              ∙ ap (λ (x : Stream J Amount). going x) (choices_step ms t still),
        )
