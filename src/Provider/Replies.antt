-- ===== src/Provider/Replies.antt =====
-- A whole reply, streamed in pieces and read (src/llm/openai_protocol.cpp).
use pu_cli.Base.{
  ℕ, String, some, List, [], ◌∷◌, ◌++◌, ◌≡◌, inl, refl, sym, ap, subst, ◌∙◌, pos, append_assoc,
  append-nil, eq_iff, map, All,
}
use pu_cli.Runtime.Data.{ToolCall, append_text}
use pu_cli.Provider.Data.{
  WireValue, default_shape, Billing, ToolCallAccumulator, Stream, reset_accumulators, Read, going,
  broken,
}
use pu_cli.Provider.Stream.{take_call, finished_call, after_finished, flush_from}
use pu_cli.Provider.Frames.{take_piece}
use pu_cli.Provider.Chat.{take_parsed, fold_refusal, fold_read, finish_stream}
use pu_cli.Provider.Deltas.{
  SentCall, joined, words_members, calls_members, opening_members, rest_members, frame_of,
  frame_step,
}
use pu_cli.Provider.Assembled.{
  extended, begun, IsSendable, opening_call, rest_call, Holds, noted-Holds, words_piece-Holds,
  calls_piece-Holds,
}

-- The frames of a stream, one after the other.
unfoldable pub read_frames :
    {J Amount : Type 0} → WireValue J Amount → Billing → List J → Read J Amount → Read J Amount
read_frames wire billing [] r = r
read_frames wire billing (j ∷ js) (broken what s) = broken what s
read_frames wire billing (j ∷ js) (going s) =
    read_frames wire billing js (take_parsed wire default_shape billing (some j) s)

module _ {J Amount : Type 0} (wire : WireValue J Amount) (billing : Billing) where
  read_frames-append :
      (js ks : List J) (r : Read J Amount)
      → read_frames wire billing (js ++ ks) r
        ≡ read_frames wire billing ks (read_frames wire billing js r)
  unfolding read_frames
  read_frames-append [] ks r = refl
  read_frames-append (j ∷ js) ks (going s) =
      read_frames-append js ks (take_parsed wire default_shape billing (some j) s)
  read_frames-append (j ∷ js) [] (broken what s) = refl
  read_frames-append (j ∷ js) (k ∷ ks) (broken what s) = refl

  module _ (index : J) (k : ℕ) (is_index : wire.as_int index ≡ some (pos k)) where
    abbrev pub words_frames : List String → List J
    words_frames [] = []
    words_frames (w ∷ ws) = frame_of wire index (words_members wire w) ∷ words_frames ws

    abbrev pub rest_frames : List String → List J
    rest_frames [] = []
    rest_frames (p ∷ ps) =
        frame_of wire index (calls_members wire (rest_members wire p)) ∷ rest_frames ps

    abbrev pub call_frames : List (SentCall J) → List J
    call_frames [] = []
    call_frames (c ∷ cs) =
        frame_of wire index (calls_members wire (opening_members wire c))
        ∷ (rest_frames c.more ++ call_frames cs)

    -- The stream is read so far, and holds this.
    abbrev Reads : String → List ToolCallAccumulator → Read J Amount → Type 0
    Reads content pending (broken what s) = ⊥
    Reads content pending (going s) = Holds wire k content pending s

    piece-Reads :
        (content after_content : String) (pending after : List ToolCallAccumulator)
        (ms : List (String × J)) (s : Stream J Amount)
        → ((t : Stream J Amount)
            → Holds wire k content pending t
            → Holds wire k after_content after (take_piece wire default_shape (some ms) t))
        → Holds wire k content pending s
        → Reads after_content after
            (take_parsed wire default_shape billing (some (frame_of wire index ms)) s)
    piece-Reads content after_content pending after ms s step h =
        let (t, noted, e) = frame_step wire index k is_index billing ms s h.chosen in
        subst (Reads after_content after) (sym e) (
          step (record t { reply_choice_index = pos k })
            (noted-Holds wire k content pending s t noted h))

    words-Reads :
        (ws : List String) (content : String) (pending : List ToolCallAccumulator)
        (r : Read J Amount)
        → Reads content pending r
        → Reads (joined content ws) pending (read_frames wire billing (words_frames ws) r)
    unfolding read_frames
    words-Reads [] content pending r h = h
    words-Reads (w ∷ ws) content pending (broken what s) h = absurd h
    words-Reads (w ∷ ws) content pending (going s) h =
        words-Reads ws (append_text content w) pending
          (take_parsed wire default_shape billing
            (some (frame_of wire index (words_members wire w))) s)
          (piece-Reads content (append_text content w) pending pending (words_members wire w) s
            (λ t. words_piece-Holds wire k content w pending t) h)

    call_piece-Reads :
        (content : String) (pending after : List ToolCallAccumulator) (ms : List (String × J))
        (s : Stream J Amount)
        → take_call wire (some ms) pending ≡ after
        → Holds wire k content pending s
        → Reads content after (
            take_parsed wire default_shape billing
              (some (frame_of wire index (calls_members wire ms)))
              s)
    call_piece-Reads content pending after ms s e h =
        piece-Reads content content pending after (calls_members wire ms) s
          (λ t. calls_piece-Holds wire k content pending after ms t e) h

    abbrev grown : ToolCallAccumulator → List String → ToolCallAccumulator
    grown a ps = record a { arguments = joined a.arguments ps }

    rest-Reads :
        (ps : List String) (content : String) (pending : List ToolCallAccumulator)
        (a : ToolCallAccumulator) (r : Read J Amount)
        → Reads content (pending ++ a ∷ []) r
        → Reads content (pending ++ grown a ps ∷ []) (read_frames wire billing (rest_frames ps) r)
    unfolding read_frames
    rest-Reads [] content pending a r h = h
    rest-Reads (p ∷ ps) content pending a (broken what s) h = absurd h
    rest-Reads (p ∷ ps) content pending a (going s) h =
        rest-Reads ps content pending (extended p a)
          (take_parsed wire default_shape billing
            (some (frame_of wire index (calls_members wire (rest_members wire p)))) s)
          (call_piece-Reads content (pending ++ a ∷ []) (pending ++ extended p a ∷ [])
            (rest_members wire p) s (rest_call wire p pending a) h)

    abbrev sent : SentCall J → ToolCallAccumulator
    sent c = grown (begun wire c) c.more

    calls-Reads :
        (cs : List (SentCall J)) (content : String) (pending : List ToolCallAccumulator)
        (r : Read J Amount)
        → All (IsSendable wire) cs
        → Reads content pending r
        → Reads content (pending ++ map sent cs) (read_frames wire billing (call_frames cs) r)
    unfolding read_frames
    calls-Reads [] content pending r all h =
        subst (λ l. Reads content l r) (sym (append-nil pending)) h
    calls-Reads (c ∷ cs) content pending (broken what s) all h = absurd h
    calls-Reads (c ∷ cs) content pending (going s) all h =
        let first =
          take_parsed wire default_shape billing
            (some (frame_of wire index (calls_members wire (opening_members wire c)))) s in
        let opened =
          call_piece-Reads content pending (pending ++ begun wire c ∷ []) (opening_members wire c) s
            (opening_call wire c pending all.0) h in
        let whole = rest-Reads c.more content pending (begun wire c) first opened in
        let later =
          calls-Reads cs content (pending ++ sent c ∷ [])
            (read_frames wire billing (rest_frames c.more) first) all.1 whole in
        rw (read_frames-append (rest_frames c.more) (call_frames cs) first) (
          subst
            (λ l. Reads content l (
              read_frames wire billing (call_frames cs)
                (read_frames wire billing (rest_frames c.more) first)))
            (append_assoc pending (sent c ∷ []) (map sent cs)) later)

    abbrev pub delivered : SentCall J → ToolCall J
    delivered c = record { id = c.id; name = c.name; arguments = c.value }

    finished_call-sent :
        (reason : String) (c : SentCall J)
        → IsSendable wire c
        → finished_call wire reason (sent c) ≡ some (delivered c)
    finished_call-sent reason c h = rw (h.has_arguments, h.parses) refl

    flush_from-sent :
        (cs : List (SentCall J)) (s : Stream J Amount)
        → All (IsSendable wire) cs
        → flush_from wire (map sent cs) s
          ≡ going (record s { pending_tools = []; tool_calls = s.tool_calls ++ map delivered cs })
    unfolding flush_from
    flush_from-sent [] s all = rw (append-nil s.tool_calls) refl
    flush_from-sent (c ∷ cs) s all =
        let next = record s { tool_calls = s.tool_calls ++ delivered c ∷ [] } in
        ap (λ o. after_finished wire o c.name s (λ t. flush_from wire (map sent cs) t))
          (finished_call-sent s.finish_reason c all.0)
        ∙ flush_from-sent cs next all.1
        ∙ ap (λ l. going (record s { pending_tools = []; tool_calls = l }))
            (append_assoc s.tool_calls (delivered c ∷ []) (map delivered cs))

    fold_refusal-quiet :
        (s : Stream J Amount)
        → s.refusal ≡ ""
        → ((fold_refusal wire default_shape billing s).content ≡ s.content)
          × ((fold_refusal wire default_shape billing s).tool_calls ≡ s.tool_calls)
    fold_refusal-quiet s e = let quiet = (eq_iff s.refusal "").1 e in (rw quiet refl, rw quiet refl)

    finish-Reads :
        (cs : List (SentCall J)) (content : String) (r : Read J Amount)
        → All (IsSendable wire) cs
        → Reads content (map sent cs) r
        → (s : Stream J Amount) × (finish_stream wire default_shape billing r ≡ going s)
          × (s.content ≡ content)
          × (s.tool_calls ≡ map delivered cs)
    unfolding finish_stream
    finish-Reads cs content (broken what s) all h = absurd h
    finish-Reads cs content (going s) all h =
        let flushed = record s {
          pending_tools = [];
          tool_calls = s.tool_calls ++ map delivered cs;
        } in
        let quiet = fold_refusal-quiet flushed h.no_refusal in
        (
          fold_refusal wire default_shape billing flushed,
          ap (fold_read wire default_shape billing)
              (ap (λ l. flush_from wire l s) h.pending_is ∙ flush_from-sent cs s all),
          quiet.0 ∙ h.content_is,
          quiet.1 ∙ ap (λ l. l ++ map delivered cs) h.no_calls,
        )

    -- A reply that a gateway streams in pieces of the OpenAI protocol is put together as it was meant:
    -- the text is that of all its pieces, and the calls of tools are those that were sent, in order,
    -- each with its id, its name and the value whose text its arguments were, wherever the gateway cut
    -- them. The ids and names are not empty, the arguments are the texts of JSON values, all frames are
    -- of one choice, and the calls come one after the other, behind the text.
    pub finish_stream-read_frames :
        (seen : List String) (ws : List String) (cs : List (SentCall J))
        → All (IsSendable wire) cs
        → (s : Stream J Amount) × (finish_stream wire default_shape billing (
              read_frames wire billing
                (words_frames ws ++ call_frames cs)
                (going (reset_accumulators seen)))
            ≡ going s)
          × (s.content ≡ joined "" ws)
          × (s.tool_calls ≡ map delivered cs)
    finish_stream-read_frames seen ws cs all =
        let start : Read J Amount = going (reset_accumulators seen) in
        let none_yet : Reads "" [] start = record {
          content_is = refl;
          pending_is = refl;
          no_refusal = refl;
          unfinished = refl;
          no_calls = refl;
          chosen = inl refl;
        } in
        let spoken = read_frames wire billing (words_frames ws) start in
        let called =
          calls-Reads cs (joined "" ws) [] spoken all (words-Reads ws "" [] start none_yet) in
        finish-Reads cs (joined "" ws)
          (read_frames wire billing (words_frames ws ++ call_frames cs) start) all
          (subst (Reads (joined "" ws) (map sent cs))
            (sym (read_frames-append (words_frames ws) (call_frames cs) start)) called)
