-- ===== src/Text/Sanitize.antt =====
-- `SanitizeUtf8` of include/pu/core/text.hpp gives valid UTF-8 and leaves valid UTF-8 alone.
use pu_cli.Base.{
  ℕ, zero, suc, ◌-◌, ◌≤◌, ◌<◌, true, false, none, some, [], ◌∷◌, ◌++◌, ◌≡◌, refl, sym, ap, ◌∙◌,
  arith, Bytes, length, take, drop, length-take, length-drop, length-append, take-append-drop, inl,
  inr, Option-cases,
}
use pu_cli.Text.Utf8.{
  sequence_length, check_sequence, valid_sequence_length, valid_from, is_valid_utf8, sanitize_from,
  sanitize_utf8, utf8_replacement_character, decode_code_point, all_continuation,
  is_continuation_byte,
}

check_sequence-some : (n lead m : ℕ) (tail : Bytes) → check_sequence n lead tail ≡ some m → m ≡ n
unfolding check_sequence
check_sequence-some n lead m tail h = ground arith

-- What an accepted sequence tells: it is not empty and it is all there.
valid_sequence_bounds :
    (n : ℕ) (s : Bytes) → valid_sequence_length s ≡ some n → (0 < n) × (n ≤ length s)
unfolding valid_sequence_length
valid_sequence_bounds n [] h = ground arith
valid_sequence_bounds n (b ∷ s) h =
    ground (arith, check_sequence-some (sequence_length b) b n (take (sequence_length b - 1) s))

take-take-append : (n : ℕ) (xs ys : Bytes) → n ≤ length xs → take n (take n xs ++ ys) ≡ take n xs
take-take-append zero xs ys h = refl
take-take-append (suc n) [] ys h = absurd (omega arith)
take-take-append (suc n) (x ∷ xs) ys h = ap (λ t. x ∷ t) (take-take-append n xs ys (omega arith))

valid_sequence-inv :
    (n b : ℕ) (s : Bytes)
    → valid_sequence_length (b ∷ s) ≡ some n
    → (sequence_length b ≡ n) × (check_sequence n b (take (n - 1) s) ≡ some n)
unfolding valid_sequence_length
valid_sequence-inv n b s h =
    ground (arith, check_sequence-some (sequence_length b) b n (take (sequence_length b - 1) s))

valid_sequence-intro :
    (n b : ℕ) (s : Bytes)
    → sequence_length b ≡ n
    → 0 < n
    → n ≤ length (b ∷ s)
    → check_sequence n b (take (n - 1) s) ≡ some n
    → valid_sequence_length (b ∷ s) ≡ some n
unfolding valid_sequence_length
valid_sequence-intro n b s e p q c = rw e (ground arith)

-- Only the bytes of the sequence count.
valid_sequence-append :
    (n : ℕ) (s rest : Bytes)
    → valid_sequence_length s ≡ some n
    → valid_sequence_length (take n s ++ rest) ≡ some n
valid_sequence-append n [] rest h = absurd (unfold valid_sequence_length in ground arith)
valid_sequence-append zero (b ∷ s) rest h =
    absurd (omega (arith, valid_sequence_bounds 0 (b ∷ s) h))
valid_sequence-append (suc n) (b ∷ s) rest h =
    let facts = valid_sequence-inv (suc n) b s h in
    let bounds = valid_sequence_bounds (suc n) (b ∷ s) h in
    let e : suc n - 1 ≡ n = omega arith in
    let c : check_sequence (suc n) b (take n s) ≡ some (suc n) = rw e at facts.1 in
    valid_sequence-intro (suc n) b (take n s ++ rest) facts.0 (omega arith)
      (omega (arith, length-append (take n s) rest, length-take n s))
      (rw (e, take-take-append n s rest (omega arith)) c)

replacement-valid :
    (rest : Bytes) → valid_sequence_length (utf8_replacement_character ++ rest) ≡ some 3
unfolding valid_sequence_length check_sequence all_continuation is_continuation_byte sequence_length
    decode_code_point
replacement-valid rest = ground arith

module _ (f b : ℕ) (s : Bytes) where
  valid_from-none : valid_sequence_length (b ∷ s) ≡ none → valid_from (suc f) (b ∷ s) ≡ false
  unfolding valid_from
  valid_from-none e = rw (e, valid_from)

  valid_from-some :
      (n : ℕ)
      → valid_sequence_length (b ∷ s) ≡ some n
      → valid_from (suc f) (b ∷ s) ≡ valid_from f (drop n (b ∷ s))
  unfolding valid_from
  valid_from-some n e = rw (e, valid_from)

  sanitize_from-none :
      valid_sequence_length (b ∷ s) ≡ none
      → sanitize_from (suc f) (b ∷ s) ≡ utf8_replacement_character ++ sanitize_from f s
  unfolding sanitize_from
  sanitize_from-none e = rw (e, sanitize_from)

  sanitize_from-some :
      (n : ℕ)
      → valid_sequence_length (b ∷ s) ≡ some n
      → sanitize_from (suc f) (b ∷ s) ≡ take n (b ∷ s) ++ sanitize_from f (drop n (b ∷ s))
  unfolding sanitize_from
  sanitize_from-some n e = rw (e, sanitize_from)

-- An accepted sequence leaves less text than there was.
length-drop_sequence :
    (n b : ℕ) (s : Bytes)
    → valid_sequence_length (b ∷ s) ≡ some n
    → length (drop n (b ∷ s)) ≤ length s
length-drop_sequence n b s e =
    omega (arith, length-drop n (b ∷ s), valid_sequence_bounds n (b ∷ s) e)

-- Enough fuel is as good as any.
valid_from-fuel :
    (f g : ℕ) (s : Bytes) → length s ≤ f → length s ≤ g → valid_from f s ≡ valid_from g s
valid_from-fuel f g [] h k = unfold valid_from in refl
valid_from-fuel zero g (b ∷ s) h k = absurd (omega arith)
valid_from-fuel (suc f) zero (b ∷ s) h k = absurd (omega arith)
valid_from-fuel (suc f) (suc g) (b ∷ s) h k = elim (Option-cases (valid_sequence_length (b ∷ s))) [
  | inl e ↦ valid_from-none f b s e ∙ sym (valid_from-none g b s e)
  | inr (n, e) ↦
      valid_from-some f b s n e
      ∙ valid_from-fuel f g (drop n (b ∷ s)) (omega (arith, length-drop_sequence n b s e))
          (omega (arith, length-drop_sequence n b s e))
      ∙ sym (valid_from-some g b s n e)
]

is_valid_utf8-cons :
    (b n : ℕ) (s : Bytes)
    → valid_sequence_length (b ∷ s) ≡ some n
    → is_valid_utf8 (b ∷ s) ≡ is_valid_utf8 (drop n (b ∷ s))
unfolding is_valid_utf8
is_valid_utf8-cons b n s e =
    valid_from-some (length s) b s n e
    ∙ valid_from-fuel (length s) (length (drop n (b ∷ s))) (drop n (b ∷ s))
        (length-drop_sequence n b s e) (omega arith)

drop-take-append : (n : ℕ) (xs ys : Bytes) → n ≤ length xs → drop n (take n xs ++ ys) ≡ ys
drop-take-append zero xs ys h = refl
drop-take-append (suc n) [] ys h = absurd (omega arith)
drop-take-append (suc n) (x ∷ xs) ys h = drop-take-append n xs ys (omega arith)

is_valid_utf8-append :
    (n : ℕ) (s rest : Bytes)
    → valid_sequence_length s ≡ some n
    → is_valid_utf8 rest ≡ true
    → is_valid_utf8 (take n s ++ rest) ≡ true
is_valid_utf8-append n [] rest e h = absurd (unfold valid_sequence_length in ground arith)
is_valid_utf8-append zero (b ∷ s) rest e h = h
is_valid_utf8-append (suc n) (b ∷ s) rest e h =
    is_valid_utf8-cons b (suc n) (take n s ++ rest) (valid_sequence-append (suc n) (b ∷ s) rest e)
    ∙ ap is_valid_utf8
        (drop-take-append n s rest (omega (arith, valid_sequence_bounds (suc n) (b ∷ s) e)))
    ∙ h

sanitize_from-valid : (f : ℕ) (s : Bytes) → is_valid_utf8 (sanitize_from f s) ≡ true
sanitize_from-valid f [] = unfold sanitize_from is_valid_utf8 valid_from in refl
sanitize_from-valid zero (b ∷ s) = unfold sanitize_from is_valid_utf8 valid_from in refl
sanitize_from-valid (suc f) (b ∷ s) = elim (Option-cases (valid_sequence_length (b ∷ s))) [
  | inl e ↦ rw (sanitize_from-none f b s e) (
      is_valid_utf8-append 3 utf8_replacement_character (sanitize_from f s) (replacement-valid [])
        (sanitize_from-valid f s))
  | inr (n, e) ↦ rw (sanitize_from-some f b s n e) (
      is_valid_utf8-append n (b ∷ s) (sanitize_from f (drop n (b ∷ s))) e
        (sanitize_from-valid f (drop n (b ∷ s))))
]

sanitize_from-of_valid :
    (f g : ℕ) (s : Bytes) → length s ≤ f → valid_from g s ≡ true → sanitize_from f s ≡ s
sanitize_from-of_valid f g [] h v = unfold sanitize_from in refl
sanitize_from-of_valid zero g (b ∷ s) h v = absurd (omega arith)
sanitize_from-of_valid (suc f) zero (b ∷ s) h v = absurd (unfold valid_from in cc)
sanitize_from-of_valid (suc f) (suc g) (b ∷ s) h v =
    elim (Option-cases (valid_sequence_length (b ∷ s))) [
      | inl e ↦ absurd (cc (valid_from-none g b s e))
      | inr (n, e) ↦
          sanitize_from-some f b s n e
          ∙ ap (λ t. take n (b ∷ s) ++ t)
              (sanitize_from-of_valid f g (drop n (b ∷ s))
                (omega (arith, length-drop_sequence n b s e)) (sym (valid_from-some g b s n e) ∙ v))
          ∙ take-append-drop n (b ∷ s)
    ]

-- Whatever bytes it is given, `SanitizeUtf8` returns valid UTF-8; what is valid already comes back
-- unchanged.
pub sanitize_utf8_lem :
    (s : Bytes)
    → (is_valid_utf8 (sanitize_utf8 s) ≡ true) × (is_valid_utf8 s ≡ true → sanitize_utf8 s ≡ s)
unfolding sanitize_utf8
sanitize_utf8_lem s = (
  sanitize_from-valid (length s) s,
  λ v. sanitize_from-of_valid (length s) (length s) s (omega arith) (unfold is_valid_utf8 in v),
)
