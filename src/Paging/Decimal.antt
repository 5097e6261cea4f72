-- ===== src/Paging/Decimal.antt =====
-- `std::to_string` of a `std::size_t`, and the digits loop of `Cursor::Parse` in
-- src/paging/paging.cpp.
use native.Mathlib.Nat.{pow-suc}
use pu_cli.Base.{
  ℕ, zero, suc, ◌+◌, ◌-◌, ◌*◌, ◌/◌, ◌%◌, ◌^◌, ◌≤◌, ◌<◌, true, false, ◌||◌, Option, none, some, [],
  ◌∷◌, ◌++◌, ◌≡◌, refl, ltb→lt, ◌∙◌, arith, Bytes, length, length-append, All, All-append, size_mod,
  ltb, if◌then◌else◌, inl, inr, Bool-cases,
}

-- The decimal digits of a number; the number itself is fuel enough.
unfoldable pub digits_of : ℕ → ℕ → Bytes
digits_of zero n = (b'0' + n) ∷ []
digits_of (suc fuel) n = elim (ltb n 10) [
  | true ↦ (b'0' + n) ∷ []
  | false ↦ digits_of fuel (n / 10) ++ (b'0' + n % 10) ∷ []
]

unfoldable pub to_string : ℕ → Bytes
to_string n = digits_of n n

-- `line = line * 10 + (c - '0')`, none at a byte that is no digit.
unfoldable pub read_digits : ℕ → Bytes → Option ℕ
read_digits n [] = some n
read_digits n (c ∷ s) =
    if ltb c b'0' || ltb b'9' c then none else read_digits ((n * 10 + (c - b'0')) % size_mod) s

abbrev pub and_read : Option ℕ → Bytes → Option ℕ
and_read none s = none
and_read (some n) s = read_digits n s

read_digits-append : (n : ℕ) (s t : Bytes) → read_digits n (s ++ t) ≡ and_read (read_digits n s) t
unfolding read_digits
read_digits-append n [] t = refl
read_digits-append n (c ∷ s) t =
    ground (arith, read_digits-append ((n * 10 + (c - b'0')) % size_mod) s t)

digits_of-small : (f n : ℕ) → n < 10 → digits_of f n ≡ (b'0' + n) ∷ []
unfolding digits_of
digits_of-small zero n h = refl
digits_of-small (suc f) n h = ground arith

digits_of-large :
    (f n : ℕ) → 10 ≤ n → digits_of (suc f) n ≡ digits_of f (n / 10) ++ (b'0' + n % 10) ∷ []
unfolding digits_of
digits_of-large f n h = ground arith

read-digit :
    (m d n : ℕ) → d < 10 → n < size_mod → m * 10 + d ≡ n → read_digits m ((b'0' + d) ∷ []) ≡ some n
unfolding read_digits
read-digit m d n h k e = ground arith

read-digits_of : (f n : ℕ) → n ≤ f → n < size_mod → read_digits 0 (digits_of f n) ≡ some n
read-digits_of zero n h k =
    rw (digits_of-small zero n (omega arith)) (read-digit 0 n n (omega arith) k (omega arith))
read-digits_of (suc f) n h k = elim (Bool-cases (ltb n 10)) [
  | inl small ↦
      let below = ltb→lt n 10 small in
      rw (digits_of-small (suc f) n below) (read-digit 0 n n below k (omega arith))
  | inr large ↦
      let at_least : 10 ≤ n = ground arith in
      rw (digits_of-large f n at_least) (
        read_digits-append 0 (digits_of f (n / 10)) ((b'0' + n % 10) ∷ [])
        ∙ rw (read-digits_of f (n / 10) (omega arith) (omega arith))
            (read-digit (n / 10) (n % 10) n (omega arith) k (omega arith)))
]

-- A byte of a number is a digit.
abbrev pub IsDigit : ℕ → Type 0
IsDigit c = (b'0' ≤ c) × (c ≤ b'9')

digits_of-IsDigit : (f n : ℕ) → n ≤ f → All IsDigit (digits_of f n)
digits_of-IsDigit zero n h = rw (digits_of-small zero n (omega arith)) (omega arith)
digits_of-IsDigit (suc f) n h = elim (Bool-cases (ltb n 10)) [
  | inl small ↦ let below = ltb→lt n 10 small in rw (digits_of-small (suc f) n below) (omega arith)
  | inr large ↦ rw (digits_of-large f n (ground arith)) (
      All-append IsDigit (digits_of f (n / 10)) ((b'0' + n % 10) ∷ [])
        (digits_of-IsDigit f (n / 10) (ground arith)) (omega arith))
]

pub to_string-IsDigit : (n : ℕ) → All IsDigit (to_string n)
unfolding to_string
to_string-IsDigit n = digits_of-IsDigit n n (omega arith)

length-digits_of : (k f n : ℕ) → n ≤ f → n < 10 ^ suc k → length (digits_of f n) ≤ suc k
length-digits_of k zero n h p = rw (digits_of-small zero n (omega arith)) (omega arith)
length-digits_of zero (suc f) n h p = rw (digits_of-small (suc f) n p) (omega arith)
length-digits_of (suc k) (suc f) n h p = elim (Bool-cases (ltb n 10)) [
  | inl small ↦ rw (digits_of-small (suc f) n (ltb→lt n 10 small)) (omega arith)
  | inr large ↦
      let at_least : 10 ≤ n = ground arith in
      rw (digits_of-large f n at_least) (
        omega (
          arith,
          length-append (digits_of f (n / 10)) ((b'0' + n % 10) ∷ []),
          length-digits_of k f (n / 10) (omega arith) (omega (arith, pow-suc 10 (suc k))),
        ))
]

length-digits_of_pos : (f n : ℕ) → 0 < length (digits_of f n)
length-digits_of_pos zero n = unfold digits_of in omega arith
length-digits_of_pos (suc f) n = elim (Bool-cases (ltb n 10)) [
  | inl small ↦ rw (digits_of-small (suc f) n (ltb→lt n 10 small)) (omega arith)
  | inr large ↦
      rw (digits_of-large f n (ground arith))
        (omega (arith, length-append (digits_of f (n / 10)) ((b'0' + n % 10) ∷ [])))
]

-- A number below 10 ^ 12 is written with at most 12 digits, and with one at least.
pub length-to_string :
    (n : ℕ) → n < 10 ^ 12 → (length (to_string n) ≤ 12) × (0 < length (to_string n))
unfolding to_string
length-to_string n h = (length-digits_of 11 n n (omega arith) h, length-digits_of_pos n n)

-- Reading what `std::to_string` writes gives the number back.
pub read-to_string : (n : ℕ) → n < size_mod → read_digits 0 (to_string n) ≡ some n
unfolding to_string
read-to_string n k = read-digits_of n n (omega arith) k
