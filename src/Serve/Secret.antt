-- ===== src/Serve/Secret.antt =====
-- What it takes for a secret to be accepted (`ConstantTimeEquals` of src/config/peer.cpp).
use Prim.Native.Nat.{max, bit_or, bit_xor}
use pu_cli.Base.{
  ℕ, zero, suc, ◌+◌, ◌%◌, ◌≤◌, ◌<◌, true, [], ◌∷◌, ◌++◌, ◌≡◌, ◌↔◌, refl, sym, ap, ◌∙◌, subst, arith,
  Bytes, length, length-append, get_elem?, All, ◌==◌, ==_iff, Bool-cases, inl, inr, bit_or-nothing,
  bit_xor-eq, bit_xor-same, bit_xor_byte_gap, bit_or_byte, bit_xor_byte,
}
use pu_cli.Serve.Peers.{byte_or_zero, gather, constant_time_equals}

abbrev pub IsByte : ℕ → Type 0
IsByte c = c < 256

-- The byte at a place, 0 behind the end.
abbrev at : Bytes → ℕ → ℕ
at s i = byte_or_zero (get_elem? s i)

at_byte : (s : Bytes) (i : ℕ) → All IsByte s → at s i < 256
at_byte [] i h = omega arith
at_byte (c ∷ s) zero h = h.0
at_byte (c ∷ s) (suc i) h = at_byte s i h.1

small_mod : (n : ℕ) → n < 256 → n % 256 ≡ n
small_mod n h = omega (arith, h)

module _ (a b : Bytes) (ha : All IsByte a) (hb : All IsByte b) where
  next_byte : (i d : ℕ) → d < 256 → bit_or d (bit_xor (at a i) (at b i)) < 256
  next_byte i d h =
      bit_or_byte d _ h (bit_xor_byte (at a i) (at b i) (at_byte a i ha) (at_byte b i hb))

  -- Nothing was gathered only where there was no difference before, and none at any byte.
  gather-nothing :
      (n i d : ℕ)
      → d < 256
      → gather n i a b d ≡ 0
      → (d ≡ 0) × ((k : ℕ) → i ≤ k → k < i + n → at a k ≡ at b k)
  unfolding gather
  gather-nothing zero i d h e = (e, λ k p q. absurd (omega (arith, p, q)))
  gather-nothing (suc n) i d h e =
      let next = next_byte i d h in
      let kept = small_mod _ next in
      let (none_yet, rest) =
        gather-nothing n (suc i) _ next (ap (gather n (suc i) a b) (sym kept) ∙ e) in
      let (first, same) = bit_or-nothing d _ none_yet in
      (first, λ k p q. later k (bit_xor-eq _ _ same) rest p q)
    where
      later :
          (k : ℕ)
          → at a i ≡ at b i
          → ((k : ℕ) → suc i ≤ k → k < suc i + n → at a k ≡ at b k)
          → i ≤ k
          → k < i + suc n
          → at a k ≡ at b k
      later k here rest p q = elim (Bool-cases (k == i)) [
        | inl f ↦ subst (λ m. at a m ≡ at b m) (sym ((==_iff k i).0 f)) here
        | inr f ↦ rest k (ground (arith, p, f)) (omega (arith, q))
      ]

-- Texts of one length with the same bytes are the same.
same_bytes :
    (a b : Bytes) → length a ≡ length b → ((k : ℕ) → k < length a → at a k ≡ at b k) → a ≡ b
same_bytes [] [] e h = refl
same_bytes [] (y ∷ b) e h = absurd (omega (arith, e))
same_bytes (x ∷ a) [] e h = absurd (omega (arith, e))
same_bytes (x ∷ a) (y ∷ b) e h =
    let here = h 0 (omega arith) in
    let rest = same_bytes a b (omega (arith, e)) (λ k p. h (suc k) (omega (arith, p))) in
    ap (λ z. z ∷ a) here ∙ ap (λ t. y ∷ t) rest

gather-same : (n i : ℕ) (a : Bytes) → gather n i a a 0 ≡ 0
unfolding gather
gather-same zero i a = refl
gather-same (suc n) i a = rw (bit_xor-same (at a i)) (gather-same n (suc i) a)

equals-same : (a : Bytes) → constant_time_equals a a ≡ true
unfolding constant_time_equals
equals-same a = rw (bit_xor-same (length a), gather-same (max (length a) (length a)) 0 a) refl

-- A secret of less than 256 bytes accepts another of less than 256 bytes exactly when they are the
-- same. All are bytes, below 256.
pub constant_time_equals-eq :
    (a b : Bytes)
    → All IsByte a
    → All IsByte b
    → length a < 256
    → length b < 256
    → (constant_time_equals a b ≡ true) ↔ (a ≡ b)
unfolding constant_time_equals
constant_time_equals-eq a b ha hb p q = (
  λ e.
      let size = bit_xor_byte (length a) (length b) p q in
      let kept = small_mod _ size in
      let (sizes, same) =
        gather-nothing a b ha hb (max (length a) (length b)) 0 (bit_xor (length a) (length b) % 256)
          (omega (arith, size)) ((==_iff _ 0).0 e) in
      same_bytes a b (bit_xor-eq _ _ (sym kept ∙ sizes))
        (λ k r. same k (omega arith) (omega (arith, r))),
  λ e. subst (λ c. constant_time_equals a c ≡ true) e (equals-same a),
)

abbrev pub zeros : ℕ → Bytes
zeros zero = []
zeros (suc n) = 0 ∷ zeros n

length-zeros : (n : ℕ) → length (zeros n) ≡ n
length-zeros zero = refl
length-zeros (suc n) = omega (arith, length-zeros n)

at-zeros : (a : Bytes) (n i : ℕ) → at (a ++ zeros n) i ≡ at a i
at-zeros [] zero i = refl
at-zeros [] (suc n) zero = refl
at-zeros [] (suc n) (suc i) = at-zeros [] n i
at-zeros (x ∷ a) n zero = refl
at-zeros (x ∷ a) n (suc i) = at-zeros a n i

gather-zeros : (n i k : ℕ) (a : Bytes) → gather n i a (a ++ zeros k) 0 ≡ 0
unfolding gather
gather-zeros zero i k a = refl
gather-zeros (suc n) i k a = rw (at-zeros a k i, bit_xor-same (at a i)) (gather-zeros n (suc i) k a)

-- A secret also accepts itself with 256 bytes of 0 behind it, since only the lowest byte of the
-- difference in length is looked at.
pub constant_time_equals_padded : (a : Bytes) → constant_time_equals a (a ++ zeros 256) ≡ true
unfolding constant_time_equals
constant_time_equals_padded a =
    let size : length (a ++ zeros 256) ≡ length a + 256 =
      length-append a (zeros 256) ∙ omega (arith, length-zeros 256) in
    rw (size, bit_xor_byte_gap (length a), gather-zeros (max (length a) (length a + 256)) 0 256 a)
      refl
