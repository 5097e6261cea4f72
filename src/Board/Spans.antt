-- ===== src/Board/Spans.antt =====
-- What `ParseDuration` of src/serve/board.cpp accepts, and what it gives.
use pu_cli.Base.{
  ℕ, ◌*◌, ◌≤◌, ◌<◌, Bytes, true, false, Option, none, some, [], ◌∷◌, ◌++◌, ◌≡◌, ◌≢◌, refl, arith,
  All, ltb, if◌then◌else◌,
}
use pu_cli.Board.Duration.{
  seconds, overflowed, int64_max, is_digit, split_digits, digits_value, unit_scale, parse_duration,
  scaled,
}

abbrev pub AllDigits : Bytes → Type 0
AllDigits = All (λ c. is_digit c ≡ true)

unit_not_digit : (c scale : ℕ) → unit_scale (c ∷ []) ≡ some scale → is_digit c ≡ false
unfolding unit_scale
unit_not_digit c scale h = ground arith

split_digits-append :
    (ds : Bytes) (c : ℕ)
    → AllDigits ds
    → is_digit c ≡ false
    → split_digits (ds ++ c ∷ []) ≡ (ds, c ∷ [])
unfolding split_digits
split_digits-append [] c a h = ground arith
split_digits-append (d ∷ ds) c a h = ground (arith, split_digits-append ds c a.1 h)

-- A run of digits that writes a positive number of 64 bits, followed by a unit, is read as the
-- number times the unit, unless that product leaves the signed 64-bit range: then the product is
-- undefined and no test of the routine has refused it.
pub parse_duration-append :
    (ds : Bytes) (unit scale : ℕ)
    → AllDigits ds
    → ds ≢ []
    → unit_scale (unit ∷ []) ≡ some scale
    → 0 < digits_value 0 ds
    → digits_value 0 ds ≤ int64_max
    → parse_duration (ds ++ unit ∷ [])
      ≡ some (
          if ltb int64_max (digits_value 0 ds * scale)
          then overflowed
          else seconds (digits_value 0 ds * scale))
unfolding parse_duration
parse_duration-append [] unit scale a n u p q = absurd (n refl)
parse_duration-append (d ∷ ds) unit scale a n u p q =
    rw (split_digits-append (d ∷ ds) unit a (unit_not_digit unit scale u)) (ground arith)

scale_pos : (u : Bytes) (scale : ℕ) → unit_scale u ≡ some scale → 0 < scale
unfolding unit_scale
scale_pos (c ∷ []) scale h = ground arith
scale_pos [] scale h = ground arith
scale_pos (c ∷ d ∷ u) scale h = ground arith

product_pos : (a b : ℕ) → 0 < a → 0 < b → 0 < a * b
product_pos a b h k = grind arith

scaled_bounds :
    (count : ℕ) (u : Bytes) (n : ℕ)
    → 0 < count
    → scaled count (unit_scale u) ≡ some (seconds n)
    → (0 < n) × (n ≤ int64_max)
scaled_bounds count u n p h = go (unit_scale u) refl h
  where
    go :
        (o : Option ℕ)
        → unit_scale u ≡ o
        → scaled count o ≡ some (seconds n)
        → (0 < n) × (n ≤ int64_max)
    go none e k = ground arith
    go (some scale) e k = ground (arith, product_pos count scale p (scale_pos u scale e))

-- A span that is read without overflow is positive and fits 63 bits.
pub parse_duration_bounds :
    (text : Bytes) (n : ℕ) → parse_duration text ≡ some (seconds n) → (0 < n) × (n ≤ int64_max)
unfolding parse_duration
parse_duration_bounds text n h =
    ground (arith, scaled_bounds (digits_value 0 (split_digits text).0) (split_digits text).1 n)
