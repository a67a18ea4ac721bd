-- ===== src/Bitmap.antt =====
-- The bit maps of a cylinder group: bit `i` of a map is bit `i % 8` of its byte `i / 8`, as the
-- loops of src/core/alloc.c address it. A set bit of the fragment map is a free fragment.
pub mod Bits
pub mod Laws
use nextufs_offline.Base.{
  ℕ, zero, suc, ◌+◌, ◌-◌, ◌/◌, ◌%◌, ◌^◌, Bool, true, not, ◌&&◌, bit_and, bit_or, ◌==◌, ltb, add32,
  if◌then◌else◌,
}
use nextufs_offline.Memory.{Bytes, upd, zeroed}

-- `(map[i / 8] & (1U << (i % 8))) != 0`, with `map` at offset `off` of the buffer `m`.
unfoldable pub test_bit : Bytes → ℕ → ℕ → Bool
test_bit m off i = not (bit_and (m (off + i / 8)) (2 ^ (i % 8)) == 0)

-- `map[i / 8] |= (uint8_t)(1U << (i % 8))`
unfoldable pub set_bit : Bytes → ℕ → ℕ → Bytes
set_bit m off i = upd m (off + i / 8) (bit_or (m (off + i / 8)) (2 ^ (i % 8)))

-- `map[i / 8] &= (uint8_t)~(1U << (i % 8))`
unfoldable pub clear_bit : Bytes → ℕ → ℕ → Bytes
clear_bit m off i = upd m (off + i / 8) (bit_and (m (off + i / 8)) (255 - 2 ^ (i % 8)))

-- `nextufs__set_run_bits` and `nextufs__block_is_free`, which have the same body.
unfoldable pub set_run_bits : Bytes → ℕ → ℕ → ℕ → Bool
set_run_bits m off base zero = true
set_run_bits m off base (suc frags) = test_bit m off base && set_run_bits m off (base + 1) frags

-- `nextufs__clear_block_bits`
unfoldable pub clear_block_bits : Bytes → ℕ → ℕ → ℕ → Bytes
clear_block_bits m off base zero = m
clear_block_bits m off base (suc frags) =
    clear_block_bits (clear_bit m off base) off (base + 1) frags

-- The inner loop of `nextufs__count_free_runs_in_block`: the set bits from `pos` on, at most `left`.
unfoldable pub run_length : Bytes → ℕ → ℕ → ℕ → ℕ
run_length m off pos zero = 0
run_length m off pos (suc left) =
    if test_bit m off pos then run_length m off (pos + 1) left + 1 else 0

-- `counts[run]++` for a run that is not the whole block.
unfoldable pub count_run : ℕ → ℕ → Bytes → Bytes
count_run run n counts =
    if ltb 0 run && ltb run n then upd counts run (add32 (counts run) 1) else counts

-- The outer loop from fragment `i` of the block on; each round moves on by at least one, so `n - i` rounds are
-- enough.
unfoldable pub count_runs_from : ℕ → Bytes → ℕ → ℕ → ℕ → ℕ → Bytes → Bytes
count_runs_from zero m off base n i counts = counts
count_runs_from (suc fuel) m off base n i counts =
    let run = run_length m off (base + i) (n - i) in
    let rest =
      count_runs_from fuel m off base n (i + (if ltb 0 run then run else 1))
        (count_run run n counts) in
    if ltb i n then rest else counts

-- `nextufs__count_free_runs_in_block`; the `uint32_t` array of counts is a buffer of numbers.
unfoldable pub count_free_runs_in_block : Bytes → ℕ → ℕ → ℕ → Bytes
count_free_runs_in_block m off base n = count_runs_from n m off base n 0 zeroed
