-- ===== src/Base/Words.antt =====
-- Unsigned machine words as native numbers, with the wrap written out.
use Prim.Native.Nat.{ℕ, ◌+◌, ◌-◌, ◌*◌, ◌%◌, ◌^◌}

abbrev pub u8 : ℕ → ℕ
u8 n = n % 2 ^ 8

abbrev pub u16 : ℕ → ℕ
u16 n = n % 2 ^ 16

abbrev pub u32 : ℕ → ℕ
u32 n = n % 2 ^ 32

abbrev pub u64 : ℕ → ℕ
u64 n = n % 2 ^ 64

-- `uint32_t` sum, difference and product; `-` on ℕ stops at 0, so the modulus is added first.
abbrev pub add32 : ℕ → ℕ → ℕ
add32 a b = u32 (a + b)

abbrev pub sub32 : ℕ → ℕ → ℕ
sub32 a b = u32 (a + 2 ^ 32 - b)

abbrev pub mul32 : ℕ → ℕ → ℕ
mul32 a b = u32 (a * b)

-- The 32-bit pattern of the `int32_t` -n.
abbrev pub neg32 : ℕ → ℕ
neg32 n = u32 (2 ^ 32 - n)

abbrev pub add64 : ℕ → ℕ → ℕ
add64 a b = u64 (a + b)

abbrev pub sub64 : ℕ → ℕ → ℕ
sub64 a b = u64 (a + 2 ^ 64 - b)

abbrev pub mul64 : ℕ → ℕ → ℕ
mul64 a b = u64 (a * b)
