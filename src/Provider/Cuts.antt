-- ===== src/Provider/Cuts.antt =====
-- Where the network cuts a reply (src/llm/streaming_provider.cpp).
use pu_cli.Base.{String, Bool, List, [], ◌∷◌, ◌++◌, ◌≡◌, refl, sym, ap, ◌∙◌, append-nil, Bytes}
use pu_cli.Exec.Pieces.{concat}
use pu_cli.Sse.Parser.{Emission, SseParser, feed, drain}
use pu_cli.Sse.Chunks.{feed-append}
use pu_cli.Provider.Data.{WireValue, ResponseShape, Billing, reset_accumulators, Read, going}
use pu_cli.Provider.Chat.{
  fresh_parser, parses, take_emission, take_emissions, feed_chunks, close, chat,
}

module _ {J Amount : Type 0} (wire : WireValue J Amount) (shape : ResponseShape)
    (billing : Billing) where
  take_emissions-append :
      (es fs : List Emission) (r : Read J Amount)
      → take_emissions wire shape billing (es ++ fs) r
        ≡ take_emissions wire shape billing fs (take_emissions wire shape billing es r)
  unfolding take_emissions
  take_emissions-append [] fs r = refl
  take_emissions-append (e ∷ es) fs r =
      take_emissions-append es fs (take_emission wire shape billing e r)

  -- What has been read once some bytes are fed in one piece.
  abbrev fed : Bytes → SseParser × Read J Amount → SseParser × Read J Amount
  fed bytes m =
      let out = feed (parses wire shape billing) bytes m.0 in
      (out.1, take_emissions wire shape billing out.0 m.1)

  fed-append :
      (xs ys : Bytes) (m : SseParser × Read J Amount) → fed (xs ++ ys) m ≡ fed ys (fed xs m)
  fed-append xs ys m =
      let first = feed (parses wire shape billing) xs m.0 in
      let second = feed (parses wire shape billing) ys first.1 in
      ap (λ (out : List Emission × SseParser). (out.1, take_emissions wire shape billing out.0 m.1))
        (feed-append (parses wire shape billing) xs ys m.0)
      ∙ ap (λ (r : Read J Amount). (second.1, r)) (take_emissions-append first.0 second.0 m.1)

  feed_chunks-fed :
      (c : Bytes) (cs : List Bytes) (m : SseParser × Read J Amount)
      → feed_chunks wire shape billing (c ∷ cs) m ≡ fed (c ++ concat cs) m
  unfolding feed_chunks
  feed_chunks-fed c [] m = sym (ap (λ b. fed b m) (append-nil c))
  feed_chunks-fed c (d ∷ cs) m =
      feed_chunks-fed d cs (fed c m) ∙ sym (fed-append c (d ++ concat cs) m)

  feed_chunks-one :
      (c : Bytes) (m : SseParser × Read J Amount)
      → feed_chunks wire shape billing (c ∷ []) m ≡ fed c m
  unfolding feed_chunks
  feed_chunks-one c m = refl

  feed_chunks-none :
      (bare : Bool) (seen : List String)
      → feed_chunks wire shape billing [] (fresh_parser bare, going (reset_accumulators seen))
        ≡ fed [] (fresh_parser bare, going (reset_accumulators seen))
  unfolding feed_chunks feed drain take_emissions
  feed_chunks-none bare seen = refl

  -- However the network cuts the bytes of a reply, inside of a line, a character or a frame, the reply
  -- that `Chat` reads is that of all of them in one piece, and so is an exception that it throws.
  pub chat-concat :
      (bare : Bool) (seen : List String) (chunks : List Bytes)
      → chat wire shape billing bare seen chunks
        ≡ chat wire shape billing bare seen (concat chunks ∷ [])
  unfolding chat
  chat-concat bare seen [] =
      let start : SseParser × Read J Amount =
        (fresh_parser bare, going (reset_accumulators seen)) in
      ap (close wire shape billing) (feed_chunks-none bare seen ∙ sym (feed_chunks-one [] start))
  chat-concat bare seen (c ∷ cs) =
      let start : SseParser × Read J Amount =
        (fresh_parser bare, going (reset_accumulators seen)) in
      ap (close wire shape billing)
        (feed_chunks-fed c cs start ∙ sym (feed_chunks-one (c ++ concat cs) start))
