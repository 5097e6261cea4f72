-- ===== src/Base/Bits.antt =====
-- Bitwise or and exclusive or of native numbers, by their lowest digits.
use Prim.Native.Nat.{
  ℕ, zero, suc, ◌+◌, ◌*◌, ◌/◌, ◌%◌, ◌≤◌, ◌<◌, max, bit_or, bit_xor, digits, differ, bit_or-bitwise,
  bit_xor-bitwise,
}
use mathlib.Core.Path.{◌≡◌, refl, sym, ap, ◌∙◌}
use mathlib.Core.Logic.{◌⊎◌, inl, inr}
use native.Mathlib.Omega.{arith}

-- A number combined with another, digit by digit, where the first has digits; `n` digits are looked at.
module _ (op : ℕ → ℕ → ℕ) (op_zero : (y : ℕ) → op 0 y ≡ y) where
  abbrev combined : ℕ → ℕ → ℕ → ℕ
  combined = digits (λ y. y) op

  -- One digit more than there are changes nothing, and so do any that are more.
  one_more : (n x y : ℕ) → x ≤ n → combined (suc n) x y ≡ combined n x y
  one_more zero zero y h = refl
  one_more (suc n) zero y h = refl
  one_more zero (suc x) y h = absurd (omega (arith, h))
  one_more (suc n) (suc x) y h =
      ap (λ k. k * 2 + op (suc x % 2) (y % 2)) (one_more n (suc x / 2) (y / 2) (omega (arith, h)))

  any_more : (n x y : ℕ) → x ≤ n → combined n x y ≡ combined x x y
  any_more zero zero y h = refl
  any_more zero (suc x) y h = absurd (omega (arith, h))
  any_more (suc n) x y h = elim (last x n h) [
    | inl small ↦ one_more n x y small ∙ any_more n x y small
    | inr same ↦ ap (λ k. combined k x y) (sym same)
  ]
    where
      last : (x n : ℕ) → x ≤ suc n → (x ≤ n) ⊎ (x ≡ suc n)
      last x n h = ground (arith, h)

  lowest_digit :
      (x y : ℕ) → combined x x y ≡ combined (x / 2) (x / 2) (y / 2) * 2 + op (x % 2) (y % 2)
  lowest_digit zero y = omega (arith, op_zero (y % 2))
  lowest_digit (suc x) y =
      ap (λ k. k * 2 + op (suc x % 2) (y % 2)) (any_more x (suc x / 2) (y / 2) (omega arith))

max_zero : (y : ℕ) → max 0 y ≡ y
max_zero y = omega arith

differ_zero : (y : ℕ) → differ 0 y ≡ y
differ_zero y = refl

bit_or-zero : (y : ℕ) → bit_or 0 y ≡ y
bit_or-zero y = bit_or-bitwise 0 y

bit_xor-zero : (y : ℕ) → bit_xor 0 y ≡ y
bit_xor-zero y = bit_xor-bitwise 0 y

pub bit_or_step : (x y : ℕ) → bit_or x y ≡ bit_or (x / 2) (y / 2) * 2 + max (x % 2) (y % 2)
bit_or_step x y =
    bit_or-bitwise x y
    ∙ lowest_digit max max_zero x y
    ∙ ap (λ k. k * 2 + max (x % 2) (y % 2)) (sym (bit_or-bitwise (x / 2) (y / 2)))

pub bit_xor_step : (x y : ℕ) → bit_xor x y ≡ bit_xor (x / 2) (y / 2) * 2 + differ (x % 2) (y % 2)
bit_xor_step x y =
    bit_xor-bitwise x y
    ∙ lowest_digit differ differ_zero x y
    ∙ ap (λ k. k * 2 + differ (x % 2) (y % 2)) (sym (bit_xor-bitwise (x / 2) (y / 2)))

differ_same : (x : ℕ) → differ x x ≡ 0
differ_same zero = refl
differ_same (suc x) = differ_same x

differ-eq : (x y : ℕ) → differ x y ≡ 0 → x ≡ y
differ-eq zero y e = omega (arith, e)
differ-eq (suc x) zero e = absurd (omega (arith, e))
differ-eq (suc x) (suc y) e = omega (arith, differ-eq x y e)

differ_bits : (x y : ℕ) → x < 2 → y < 2 → differ x y < 2
differ_bits zero y p q = q
differ_bits (suc zero) zero p q = p
differ_bits (suc zero) (suc y) p q = omega (arith, q)
differ_bits (suc (suc x)) y p q = absurd (omega (arith, p))

-- Either operation is nothing only where its arguments are both nothing, or both the same.
bit_or-nothing_fuel : (n a b : ℕ) → a ≤ n → b ≤ n → bit_or a b ≡ 0 → (a ≡ 0) × (b ≡ 0)
bit_or-nothing_fuel zero a b p q e = (omega (arith, p), omega (arith, q))
bit_or-nothing_fuel (suc n) a b p q e =
    let (ha, hb) =
      bit_or-nothing_fuel n (a / 2) (b / 2) (omega (arith, p)) (omega (arith, q))
        (omega (arith, e, bit_or_step a b)) in
    (omega (arith, ha, e, bit_or_step a b), omega (arith, hb, e, bit_or_step a b))

pub bit_or-nothing : (a b : ℕ) → bit_or a b ≡ 0 → (a ≡ 0) × (b ≡ 0)
bit_or-nothing a b = bit_or-nothing_fuel (a + b) a b (omega arith) (omega arith)

bit_xor-eq_fuel : (n a b : ℕ) → a ≤ n → b ≤ n → bit_xor a b ≡ 0 → a ≡ b
bit_xor-eq_fuel zero a b p q e = omega (arith, p, q)
bit_xor-eq_fuel (suc n) a b p q e =
    let half =
      bit_xor-eq_fuel n (a / 2) (b / 2) (omega (arith, p)) (omega (arith, q))
        (omega (arith, e, bit_xor_step a b)) in
    let digit = differ-eq (a % 2) (b % 2) (omega (arith, e, bit_xor_step a b)) in
    omega (arith, half, digit)

pub bit_xor-eq : (a b : ℕ) → bit_xor a b ≡ 0 → a ≡ b
bit_xor-eq a b = bit_xor-eq_fuel (a + b) a b (omega arith) (omega arith)

-- Where two numbers agree on their lower digits, those of their exclusive or are nothing.
xor_gap : (a c q : ℕ) → bit_xor (a / 2) (a / 2 + c) ≡ q → bit_xor a (a + c * 2) ≡ q * 2
xor_gap a c q e =
    let half : (a + c * 2) / 2 ≡ a / 2 + c = omega arith in
    let digit : (a + c * 2) % 2 ≡ a % 2 = omega arith in
    bit_xor_step a (a + c * 2) ∙ rw (half, digit, differ_same (a % 2), e) (omega arith)

pub bit_xor-same : (a : ℕ) → bit_xor a a ≡ 0
bit_xor-same a = bit_xor-same_fuel a a (omega arith)
  where
    bit_xor-same_fuel : (n a : ℕ) → a ≤ n → bit_xor a a ≡ 0
    bit_xor-same_fuel n zero p = bit_xor-zero 0
    bit_xor-same_fuel zero (suc a) p = absurd (omega arith)
    bit_xor-same_fuel (suc n) (suc a) p = omega (
      arith,
      bit_xor_step (suc a) (suc a),
      differ_same (suc a % 2),
      bit_xor-same_fuel n (suc a / 2) (omega arith),
    )

-- Numbers that are 256 apart differ in none of their lower eight digits.
pub bit_xor_byte_gap : (a : ℕ) → bit_xor a (a + 256) % 256 ≡ 0
bit_xor_byte_gap a =
    let h1 = a / 2 in
    let h2 = h1 / 2 in
    let h3 = h2 / 2 in
    let h4 = h3 / 2 in
    let h5 = h4 / 2 in
    let h6 = h5 / 2 in
    let h7 = h6 / 2 in
    let q = bit_xor (h7 / 2) (h7 / 2 + 1) in
    let e = xor_gap a 128 _ (
      xor_gap h1 64 _ (
        xor_gap h2 32 _ (
          xor_gap h3 16 _
            (xor_gap h4 8 _ (xor_gap h5 4 _ (xor_gap h6 2 _ (xor_gap h7 1 q refl))))))) in
    omega (arith, e)

-- Operations on numbers below a power of two stay below it, one power at a time.
or_doubles :
    (c : ℕ)
    → ((a b : ℕ) → a < c → b < c → bit_or a b < c)
    → (a b : ℕ) → a < c * 2
    → b < c * 2
    → bit_or a b < c * 2
or_doubles c h a b p q =
    omega (arith, bit_or_step a b, h (a / 2) (b / 2) (omega (arith, p)) (omega (arith, q)))

xor_doubles :
    (c : ℕ)
    → ((a b : ℕ) → a < c → b < c → bit_xor a b < c)
    → (a b : ℕ) → a < c * 2
    → b < c * 2
    → bit_xor a b < c * 2
xor_doubles c h a b p q = omega (
  arith,
  bit_xor_step a b,
  differ_bits (a % 2) (b % 2) (omega arith) (omega arith),
  h (a / 2) (b / 2) (omega (arith, p)) (omega (arith, q)),
)

or_small : (a b : ℕ) → a < 1 → b < 1 → bit_or a b < 1
or_small zero zero p q = omega (arith, bit_or-zero 0)
or_small (suc a) b p q = absurd (omega (arith, p))
or_small zero (suc b) p q = absurd (omega (arith, q))

xor_small : (a b : ℕ) → a < 1 → b < 1 → bit_xor a b < 1
xor_small zero zero p q = omega (arith, bit_xor-zero 0)
xor_small (suc a) b p q = absurd (omega (arith, p))
xor_small zero (suc b) p q = absurd (omega (arith, q))

pub bit_or_byte : (a b : ℕ) → a < 256 → b < 256 → bit_or a b < 256
bit_or_byte = or_doubles 128 (
    or_doubles 64 (
      or_doubles 32
        (or_doubles 16 (or_doubles 8 (or_doubles 4 (or_doubles 2 (or_doubles 1 or_small)))))))

pub bit_xor_byte : (a b : ℕ) → a < 256 → b < 256 → bit_xor a b < 256
bit_xor_byte = xor_doubles 128 (
    xor_doubles 64 (
      xor_doubles 32
        (xor_doubles 16 (xor_doubles 8 (xor_doubles 4 (xor_doubles 2 (xor_doubles 1 xor_small)))))))
