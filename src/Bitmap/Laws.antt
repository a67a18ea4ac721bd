-- ===== src/Bitmap/Laws.antt =====
-- A write to one bit of a map changes that bit and no other, and the loops of src/core/alloc.c
-- over a run of bits read and clear exactly that run.
use nextufs_offline.Base.{
  ℕ, zero, suc, ◌+◌, ◌-◌, ◌/◌, ◌%◌, ◌^◌, ◌≤◌, ◌<◌, ◌≡◌, refl, arith, Bool, true, not, ◌&&◌, ◌||◌,
  ltb, leb, ◌==◌,
}
use nextufs_offline.Memory.{Bytes, upd}
use nextufs_offline.Bitmap.{test_bit, set_bit, clear_bit, set_run_bits, clear_block_bits}
use nextufs_offline.Bitmap.Bits.{bit, bit-bit_and, bit-bit_or, test_mask, mask_bits}

test_bit_lem : (m : Bytes) (off i : ℕ) → test_bit m off i ≡ bit (m (off + i / 8)) (i % 8)
unfolding test_bit
test_bit_lem m off i = test_mask (i % 8) (m (off + i / 8))

pub test-set_bit :
    (m : Bytes) (off i j : ℕ) → test_bit (set_bit m off i) off j ≡ (j == i || test_bit m off j)
unfolding set_bit upd
test-set_bit m off i j = ground (
  arith,
  test_bit_lem (set_bit m off i) off j,
  test_bit_lem m off j,
  bit-bit_or (m (off + i / 8)) (2 ^ (i % 8)) (j % 8),
  mask_bits (i % 8) (j % 8),
)

pub test-clear_bit :
    (m : Bytes) (off i j : ℕ)
    → test_bit (clear_bit m off i) off j ≡ (not (j == i) && test_bit m off j)
unfolding clear_bit upd
test-clear_bit m off i j = ground (
  arith,
  test_bit_lem (clear_bit m off i) off j,
  test_bit_lem m off j,
  bit-bit_and (m (off + i / 8)) (255 - 2 ^ (i % 8)) (j % 8),
  mask_bits (i % 8) (j % 8),
)

-- `i` lies in the run of `n` bits from `base` on.
abbrev pub in_run : ℕ → ℕ → ℕ → Bool
in_run base n i = leb base i && ltb i (base + n)

-- After a run of bits is cleared, a bit is set where it was set before and lies outside the run.
pub test-clear_block_bits :
    (m : Bytes) (off base n j : ℕ)
    → test_bit (clear_block_bits m off base n) off j ≡ (not (in_run base n j) && test_bit m off j)
unfolding clear_block_bits
test-clear_block_bits m off base zero j = ground arith
test-clear_block_bits m off base (suc n) j = ground (
  arith,
  test-clear_block_bits (clear_bit m off base) off (base + 1) n j,
  test-clear_bit m off base j,
)

pub set_run_bits_sound :
    (m : Bytes) (off base n i : ℕ)
    → set_run_bits m off base n ≡ true
    → base ≤ i
    → i < base + n
    → test_bit m off i ≡ true
unfolding set_run_bits
set_run_bits_sound m off base zero i h lo hi = absurd (omega arith)
set_run_bits_sound m off base (suc n) i h lo hi =
    ground (arith, set_run_bits_sound m off (base + 1) n i)

pub set_run_bits_complete :
    (m : Bytes) (off base n : ℕ)
    → ((i : ℕ) → base ≤ i → i < base + n → test_bit m off i ≡ true)
    → set_run_bits m off base n ≡ true
unfolding set_run_bits
set_run_bits_complete m off base zero h = refl
set_run_bits_complete m off base (suc n) h = ground (
  arith,
  h base (omega arith) (omega arith),
  set_run_bits_complete m off (base + 1) n (λ i lo hi. h i (omega arith) (omega arith)),
)
