-- ===== src/Sse/Chunks.antt =====
-- `Feed` of src/core/sse.cpp is a function of the bytes, not of how they were cut, and it stops for
-- good at a line that ends inside a character.
use pu_cli.Base.{
  ℕ, zero, suc, ◌+◌, ◌≤◌, Bool, true, none, some, List, [], ◌∷◌, ◌++◌, ◌≡◌, refl, sym, ap, ◌∙◌,
  arith, Bytes, length, length-append, append_assoc, inl, inr, Option-cases,
}
use pu_cli.Text.Utf8.{ends_with_partial_sequence}
use pu_cli.Sse.Parser.{
  Emission, Frame, SseParser, split_line, chop_cr, next_line, and_then, handle_line, drain, feed,
}

pub split_line-append :
    (b ys l r : Bytes) → split_line b ≡ some (l, r) → split_line (b ++ ys) ≡ some (l, r ++ ys)
unfolding split_line
split_line-append [] ys l r h = ground arith
split_line-append (c ∷ b) ys l r h = elim (Option-cases (split_line b)) [
  | inl e ↦ ground arith
  | inr ((l', r'), e) ↦ ground (arith, split_line-append b ys l' r' e)
]

length-split_line : (b l r : Bytes) → split_line b ≡ some (l, r) → length r + 1 ≤ length b
unfolding split_line
length-split_line [] l r h = ground arith
length-split_line (c ∷ b) l r h = elim (Option-cases (split_line b)) [
  | inl e ↦ ground arith
  | inr ((l', r'), e) ↦ ground (arith, length-split_line b l' r' e)
]

next_line-append :
    (b ys l r : Bytes) → next_line b ≡ some (l, r) → next_line (b ++ ys) ≡ some (l, r ++ ys)
unfolding next_line
next_line-append b ys l r h = elim (Option-cases (split_line b)) [
  | inl e ↦ absurd (ground arith)
  | inr ((l', r'), e) ↦ ground (arith, split_line-append b ys l' r' e)
]

length-next_line : (b l r : Bytes) → next_line b ≡ some (l, r) → length r + 1 ≤ length b
unfolding next_line
length-next_line b l r h = elim (Option-cases (split_line b)) [
  | inl e ↦ absurd (ground arith)
  | inr ((l', r'), e) ↦ ground (arith, length-split_line b l' r' e)
]

module _ (parses : Bytes → Bool) where
  pub drain-none :
      (n : ℕ) (b : Bytes) (f : Frame)
      → next_line b ≡ none
      → drain parses n b f ≡ ([], record { buffer = b; frame = f })
  unfolding drain
  drain-none zero b f e = refl
  drain-none (suc n) b f e = rw (e, drain)

  pub drain-some :
      (n : ℕ) (b l r : Bytes) (f : Frame)
      → next_line b ≡ some (l, r)
      → drain parses (suc n) b f ≡ and_then (handle_line parses l f) (drain parses n r)
  unfolding drain
  drain-some n b l r f e = rw (e, drain)

  -- Enough fuel is as good as any.
  pub drain-fuel :
      (n m : ℕ) (b : Bytes) (f : Frame)
      → length b ≤ n
      → length b ≤ m
      → drain parses n b f ≡ drain parses m b f
  drain-fuel zero m b f h k = elim (Option-cases (next_line b)) [
    | inl e ↦ drain-none zero b f e ∙ sym (drain-none m b f e)
    | inr ((l, r), e) ↦ absurd (omega (arith, length-next_line b l r e))
  ]
  drain-fuel (suc n) zero b f h k = elim (Option-cases (next_line b)) [
    | inl e ↦ drain-none (suc n) b f e ∙ sym (drain-none zero b f e)
    | inr ((l, r), e) ↦ absurd (omega (arith, length-next_line b l r e))
  ]
  drain-fuel (suc n) (suc m) b f h k = elim (Option-cases (next_line b)) [
    | inl e ↦ drain-none (suc n) b f e ∙ sym (drain-none (suc m) b f e)
    | inr ((l, r), e) ↦
        drain-some n b l r f e
        ∙ ap (λ (p : List Emission × SseParser). ((handle_line parses l f).0 ++ p.0, p.1))
            (drain-fuel n m r (handle_line parses l f).1 (omega (arith, length-next_line b l r e))
              (omega (arith, length-next_line b l r e)))
        ∙ sym (drain-some m b l r f e)
  ]

  -- One feed after another: what is emitted is joined, and the second starts where the first stopped.
  abbrev pub then_feed : List Emission × SseParser → Bytes → List Emission × SseParser
  then_feed m ys = (m.0 ++ (feed parses ys m.1).0, (feed parses ys m.1).1)

  drain-none-append :
      (n m : ℕ) (b ys : Bytes) (f : Frame)
      → length (b ++ ys) ≤ m
      → next_line b ≡ none
      → drain parses m (b ++ ys) f ≡ then_feed (drain parses n b f) ys
  unfolding feed
  drain-none-append n m b ys f k e =
      rw (drain-none n b f e) (drain-fuel m (length (b ++ ys)) (b ++ ys) f k (omega arith))

  drain-append :
      (n m : ℕ) (b ys : Bytes) (f : Frame)
      → length b ≤ n
      → length (b ++ ys) ≤ m
      → drain parses m (b ++ ys) f ≡ then_feed (drain parses n b f) ys
  drain-append zero m b ys f h k = elim (Option-cases (next_line b)) [
    | inl e ↦ drain-none-append zero m b ys f k e
    | inr ((l, r), e) ↦ absurd (omega (arith, length-next_line b l r e))
  ]
  drain-append (suc n) zero b ys f h k = elim (Option-cases (next_line b)) [
    | inl e ↦ drain-none-append (suc n) zero b ys f k e
    | inr ((l, r), e) ↦ absurd (omega (arith, length-next_line b l r e, length-append b ys))
  ]
  drain-append (suc n) (suc m) b ys f h k = elim (Option-cases (next_line b)) [
    | inl e ↦ drain-none-append (suc n) (suc m) b ys f k e
    | inr ((l, r), e) ↦
        let e' = next_line-append b ys l r e in
        rw (drain-some m (b ++ ys) l (r ++ ys) f e', drain-some n b l r f e)
          (rw
            (drain-append n m r ys (handle_line parses l f).1
              (omega (arith, length-next_line b l r e))
              (omega (arith, length-next_line (b ++ ys) l (r ++ ys) e')))
            (rw append_assoc))
  ]

  -- The parser is a function of the bytes fed to it: feeding a text in two pieces, wherever it is cut,
  -- emits the same events in the same order and leaves the same parser as feeding it whole.
  pub feed-append :
      (xs ys : Bytes) (p : SseParser) → feed parses (xs ++ ys) p ≡ then_feed (feed parses xs p) ys
  unfolding feed
  feed-append xs ys p = rw (← append_assoc p.buffer xs ys) (
      drain-append (length (p.buffer ++ xs)) (length ((p.buffer ++ xs) ++ ys)) (p.buffer ++ xs) ys
        p.frame (omega arith) (omega arith))

  -- A parser whose first buffered line ends inside a character emits nothing more, whatever it is
  -- fed: every byte, whole lines and blank lines too, is only added to the buffer.
  pub feed_stalls :
      (p : SseParser) (raw rest ys : Bytes)
      → split_line p.buffer ≡ some (raw, rest)
      → ends_with_partial_sequence (chop_cr raw) ≡ true
      → feed parses ys p ≡ ([], record p { buffer = p.buffer ++ ys })
  unfolding feed
  feed_stalls p raw rest ys h k =
      drain-none (length (p.buffer ++ ys)) (p.buffer ++ ys) p.frame
        (unfold next_line in ground (arith, split_line-append p.buffer ys raw rest h))
