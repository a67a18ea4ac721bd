-- ===== src/Bitmap/Bits.antt =====
-- The bit operations of one byte, digit by digit.
use Prim.Native.Nat.{digits, bitwise, bit_and-bitwise, bit_or-bitwise}
use native.Mathlib.Nat.{le_refl, two-pow-succ}
use nextufs_offline.Base.{
  ℕ, zero, suc, ◌+◌, ◌-◌, ◌*◌, ◌/◌, ◌%◌, ◌^◌, ◌≤◌, ◌<◌, ◌≡◌, refl, arith, min, max, bit_and, bit_or,
  Bool, true, not, ◌&&◌, ◌||◌, ◌==◌, holds_upto, holds_upto-at, same, same_eq,
}

-- The fuel of `digits` is immaterial once it reaches the first number.
module _ (last : ℕ → ℕ) (op : ℕ → ℕ → ℕ) where
  enough_fuel : (n b m x : ℕ) → x ≤ m → x ≤ n → digits last op m x b ≡ digits last op n x b
  enough_fuel (suc n) b (suc m) (suc x) below below' =
      rw (enough_fuel n (b / 2) m (suc x / 2) (omega arith) (omega arith))
  enough_fuel zero b zero x below below' = refl
  enough_fuel zero b (suc m) zero below below' = refl
  enough_fuel zero b (suc m) (suc x) below below' = elim below' [ ]
  enough_fuel (suc n) b zero zero below below' = refl
  enough_fuel (suc n) b zero (suc x) below below' = elim below [ ]
  enough_fuel (suc n) b (suc m) zero below below' = refl

  pub low_digit :
      (x b : ℕ)
      → bitwise last op (suc x) b ≡ op (suc x % 2) (b % 2) + 2 * bitwise last op (suc x / 2) (b / 2)
  low_digit x b =
      omega (arith, enough_fuel (suc x / 2) (b / 2) x (suc x / 2) (omega arith) (le_refl _))

pub bit_and_halves : (a b : ℕ) → bit_and a b ≡ min (a % 2) (b % 2) + 2 * bit_and (a / 2) (b / 2)
bit_and_halves zero b = simp bit_and-bitwise (omega arith)
bit_and_halves (suc a) b = simp bit_and-bitwise (low_digit (λ y. 0) min a b)

pub bit_or_halves : (a b : ℕ) → bit_or a b ≡ max (a % 2) (b % 2) + 2 * bit_or (a / 2) (b / 2)
bit_or_halves zero b = simp bit_or-bitwise (omega arith)
bit_or_halves (suc a) b = simp bit_or-bitwise (low_digit (λ y. y) max a b)

-- Bit `k` of a number.
pub bit : ℕ → ℕ → Bool
bit b zero = b % 2 == 1
bit b (suc k) = bit (b / 2) k

pub bit-bit_and : (a b k : ℕ) → bit (bit_and a b) k ≡ (bit a k && bit b k)
unfolding bit
bit-bit_and a b zero = ground (arith, bit_and_halves a b)
bit-bit_and a b (suc k) = rw half (bit-bit_and (a / 2) (b / 2) k)
  where
    half : bit_and a b / 2 ≡ bit_and (a / 2) (b / 2)
    half = omega (arith, bit_and_halves a b)

pub bit-bit_or : (a b k : ℕ) → bit (bit_or a b) k ≡ (bit a k || bit b k)
unfolding bit
bit-bit_or a b zero = ground (arith, bit_or_halves a b)
bit-bit_or a b (suc k) = rw half (bit-bit_or (a / 2) (b / 2) k)
  where
    half : bit_or a b / 2 ≡ bit_or (a / 2) (b / 2)
    half = omega (arith, bit_or_halves a b)

bit_and-zero : (n b : ℕ) → b ≤ n → bit_and b 0 ≡ 0
bit_and-zero n zero h = refl
bit_and-zero zero (suc b) h = elim h [ ]
bit_and-zero (suc n) (suc b) h =
    omega (arith, bit_and_halves (suc b) 0, bit_and-zero n (suc b / 2) (omega arith))

two_pow_half : (k : ℕ) → (2 ^ suc k / 2 ≡ 2 ^ k) × (2 ^ suc k % 2 ≡ 0)
two_pow_half k = omega (arith, two-pow-succ k)

-- The test of a single bit by its mask.
pub test_mask : (k b : ℕ) → not (bit_and b (2 ^ k) == 0) ≡ bit b k
unfolding bit
test_mask zero b = ground (arith, bit_and_halves b 1, bit_and-zero (b / 2) (b / 2) (le_refl _))
test_mask (suc k) b =
    ground (arith, bit_and_halves b (2 ^ suc k), two_pow_half k, test_mask k (b / 2))

mask_bits_test : ℕ → ℕ → Bool
mask_bits_test k j = same (bit (2 ^ k) j) (j == k) && same (bit (255 - 2 ^ k) j) (not (j == k))

-- The two masks of a byte, checked at every pair of positions.
masks_table : holds_upto (λ k. holds_upto (mask_bits_test k) 8) 8 ≡ true
unfolding holds_upto mask_bits_test same bit
masks_table = refl

and_parts : (a b : Bool) → (a && b) ≡ true → (a ≡ true) × (b ≡ true)
and_parts a b h = ground arith

pub mask_bits :
    (k j : ℕ) → k < 8 → j < 8 → (bit (2 ^ k) j ≡ (j == k)) × (bit (255 - 2 ^ k) j ≡ not (j == k))
unfolding mask_bits_test
mask_bits k j hk hj =
    let row = holds_upto-at (λ k. holds_upto (mask_bits_test k) 8) 8 k hk masks_table in
    let both = and_parts _ _ (holds_upto-at (mask_bits_test k) 8 j hj row) in
    (same_eq _ _ both.0, same_eq _ _ both.1)
