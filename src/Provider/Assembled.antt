-- ===== src/Provider/Assembled.antt =====
-- What is put together of a reply that was streamed in pieces (src/llm/openai_protocol.cpp).
use text.Mathlib.TextLemmas.{append-nil as text_append-nil, nil-append as text_nil-append}
use pu_cli.Base.{
  ℕ, String, false, some, List, [], ◌∷◌, ◌++◌, ◌≡◌, inl, inr, refl, sym, ap, ◌∙◌, pos, codes,
  str_eq, eq_iff, is_empty, Bool-cases,
}
use pu_cli.Runtime.Data.{append_text}
use pu_cli.Provider.Data.{WireValue, default_shape, ToolCallAccumulator, Stream}
use pu_cli.Provider.Stream.{change_last, blank_call, take_call, take_calls, fill_call}
use pu_cli.Provider.Frames.{list_found, take_piece}
use pu_cli.Provider.Deltas.{
  SentCall, joined, words_members, calls_members, function_members, opening_members, rest_members,
  IsNoted, IsChosen,
}

change_last-append :
    (f : ToolCallAccumulator → ToolCallAccumulator) (p : List ToolCallAccumulator)
    (a : ToolCallAccumulator)
    → change_last f (p ++ a ∷ []) ≡ p ++ f a ∷ []
unfolding change_last
change_last-append f [] a = refl
change_last-append f (x ∷ []) a = refl
change_last-append f (x ∷ y ∷ p) a = ap (λ l. x ∷ l) (change_last-append f (y ∷ p) a)

is_empty-append :
    (p : List ToolCallAccumulator) (a : ToolCallAccumulator) → is_empty (p ++ a ∷ []) ≡ false
is_empty-append [] a = refl
is_empty-append (x ∷ p) a = refl

abbrev pub extended : String → ToolCallAccumulator → ToolCallAccumulator
extended p a = record a { arguments = append_text a.arguments p }

module _ {J Amount : Type 0} (wire : WireValue J Amount) where
  abbrev pub begun : SentCall J → ToolCallAccumulator
  begun c = record { id = c.id; name = c.name; arguments = c.first }

  -- A call whose id and arguments are not empty, and whose arguments are the text of its value.
  pub record IsSendable (c : SentCall J) : Type 0 where
    pub has_id : str_eq c.id "" ≡ false
    pub has_name : str_eq c.name "" ≡ false
    pub has_arguments : str_eq (joined c.first c.more) "" ≡ false
    pub parses : wire.parse (codes (joined c.first c.more)) ≡ some c.value

  filled_begun :
      (c : SentCall J)
      → IsSendable c
      → fill_call wire c.id (opening_members wire c) blank_call ≡ begun c
  filled_begun c h =
      rw
        (
          h.has_id,
          wire.json.object_read (function_members wire c.name c.first),
          wire.json.text_read c.name,
          h.has_name,
          wire.json.text_read c.first,
        )
        (ap (λ t. record (begun c) { arguments = t }) (text_nil-append c.first))

  filled_rest :
      (piece : String) (a : ToolCallAccumulator)
      → fill_call wire "" (rest_members wire piece) a ≡ extended piece a
  filled_rest piece a =
      rw
        (
          wire.json.object_read (("arguments", wire.json.of_text piece) ∷ []),
          wire.json.text_read piece,
        )
        refl

  pub opening_call :
      (c : SentCall J) (p : List ToolCallAccumulator)
      → IsSendable c
      → take_call wire (some (opening_members wire c)) p ≡ p ++ begun c ∷ []
  unfolding take_call
  opening_call c p h =
      rw (wire.json.text_read c.id, h.has_id)
        (change_last-append (fill_call wire c.id (opening_members wire c)) p blank_call
          ∙ ap (λ a. p ++ a ∷ []) (filled_begun c h))

  pub rest_call :
      (piece : String) (p : List ToolCallAccumulator) (a : ToolCallAccumulator)
      → take_call wire (some (rest_members wire piece)) (p ++ a ∷ []) ≡ p ++ extended piece a ∷ []
  unfolding take_call
  rest_call piece p a = rw (is_empty-append p a) (
      change_last-append (fill_call wire "" (rest_members wire piece)) p a
      ∙ ap (λ x. p ++ x ∷ []) (filled_rest piece a))

  -- What has been put together so far.
  pub record Holds (k : ℕ) (content : String) (pending : List ToolCallAccumulator)
      (s : Stream J Amount) : Type 0 where
    pub content_is : s.content ≡ content
    pub pending_is : s.pending_tools ≡ pending
    pub no_refusal : s.refusal ≡ ""
    pub unfinished : s.finish_reason ≡ ""
    pub no_calls : s.tool_calls ≡ []
    pub chosen : IsChosen wire k s

  pub noted-Holds :
      (k : ℕ) (content : String) (pending : List ToolCallAccumulator) (s t : Stream J Amount)
      → IsNoted wire s t
      → Holds k content pending s
      → Holds k content pending (record t { reply_choice_index = pos k })
  noted-Holds k content pending s t n h = record {
    content_is = ap (λ (x : Stream J Amount). x.content) n.state ∙ h.content_is;
    pending_is = ap (λ (x : Stream J Amount). x.pending_tools) n.state ∙ h.pending_is;
    no_refusal = ap (λ (x : Stream J Amount). x.refusal) n.state ∙ h.no_refusal;
    unfinished = ap (λ (x : Stream J Amount). x.finish_reason) n.state ∙ h.unfinished;
    no_calls = ap (λ (x : Stream J Amount). x.tool_calls) n.state ∙ h.no_calls;
    chosen = inr refl;
  }

  pub words_piece-Holds :
      (k : ℕ) (content w : String) (pending : List ToolCallAccumulator) (s : Stream J Amount)
      → Holds k content pending s
      → Holds k
          (append_text content w)
          pending
          (take_piece wire default_shape (some (words_members wire w)) s)
  unfolding take_piece take_calls
  words_piece-Holds k content w pending s h =
      let unread : (t : String) → t ≡ "" → append_text t "" ≡ "" = λ t e. text_append-nil t ∙ e in
      elim (Bool-cases (str_eq w "")) [
        | inl e ↦
            rw (wire.json.text_read w, e)
              (record {
                content_is =
                    h.content_is
                    ∙ sym (ap (append_text content) ((eq_iff w "").0 e) ∙ text_append-nil content);
                pending_is = h.pending_is;
                no_refusal = unread s.refusal h.no_refusal;
                unfinished = h.unfinished;
                no_calls = h.no_calls;
                chosen = h.chosen;
              })
        | inr e ↦
            rw (wire.json.text_read w, e)
              (record {
                content_is = ap (λ t. append_text t w) h.content_is;
                pending_is = h.pending_is;
                no_refusal = unread s.refusal h.no_refusal;
                unfinished = h.unfinished;
                no_calls = h.no_calls;
                chosen = h.chosen;
              })
      ]

  pub calls_piece-Holds :
      (k : ℕ) (content : String) (pending after : List ToolCallAccumulator) (ms : List (String × J))
      (s : Stream J Amount)
      → take_call wire (some ms) pending ≡ after
      → Holds k content pending s
      → Holds k content after (take_piece wire default_shape (some (calls_members wire ms)) s)
  unfolding take_piece take_calls
  calls_piece-Holds k content pending after ms s e h = record {
    content_is = h.content_is;
    pending_is =
        ap (λ o. take_calls wire (list_found o) s.pending_tools)
          (wire.json.array_read (wire.json.of_object ms ∷ []))
        ∙ ap (λ o. take_call wire o s.pending_tools) (wire.json.object_read ms)
        ∙ ap (take_call wire (some ms)) h.pending_is
        ∙ e;
    no_refusal = text_append-nil s.refusal ∙ h.no_refusal;
    unfinished = h.unfinished;
    no_calls = h.no_calls;
    chosen = h.chosen;
  }
