-- ===== src/Base/Words.antt =====
-- Unsigned 64-bit and 32-bit arithmetic (`std::size_t`, `std::uint32_t`), the wrap written out.
use Prim.Native.Nat.{ℕ, ◌+◌, ◌-◌, ◌%◌, ◌^◌}

abbrev pub size_mod : ℕ
size_mod = 2 ^ 64

abbrev pub size_add : ℕ → ℕ → ℕ
size_add a b = (a + b) % size_mod

-- `-` on ℕ stops at 0, so the modulus is added first.
abbrev pub size_sub : ℕ → ℕ → ℕ
size_sub a b = (a + size_mod - b) % size_mod

abbrev pub u32_add : ℕ → ℕ → ℕ
u32_add a b = (a + b) % 2 ^ 32
