-- ===== src/Resize/Whole.antt =====
-- The blocks that `add_free_frag_range` finds whole.
use nextufs_offline.Base.{
  ℕ, zero, suc, ◌+◌, ◌-◌, ◌%◌, ◌≤◌, ◌<◌, ◌≡◌, refl, arith, min, inl, inr, true, false, ◌&&◌,
  Bool-cases, ◌==◌,
}
use nextufs_offline.Memory.{Bytes}
use nextufs_offline.Bitmap.{test_bit, set_run_bits}
use nextufs_offline.Cg.{free_off}
use nextufs_offline.Resize.{count_free_bits}

-- Of the blocks that a range of fragments reaches into, so many have all their bits set in the map.
pub data WholeBlocks (fpb : ℕ) (b : Bytes) (end : ℕ) : ℕ → ℕ → Type 0 where
  none_left : (start : ℕ) → end ≤ start → WholeBlocks fpb b end start 0
  whole :
      (start n : ℕ)
      → start < end
      → set_run_bits b free_off (start - start % fpb) fpb ≡ true
      → WholeBlocks fpb b end (min end (start - start % fpb + fpb)) n
      → WholeBlocks fpb b end start (n + 1)
  in_part :
      (start n : ℕ)
      → start < end
      → set_run_bits b free_off (start - start % fpb) fpb ≡ false
      → WholeBlocks fpb b end (min end (start - start % fpb + fpb)) n
      → WholeBlocks fpb b end start n

count_free_bits-le : (m : Bytes) (base n : ℕ) → count_free_bits m base n ≤ n
unfolding count_free_bits
count_free_bits-le m base zero = omega arith
count_free_bits-le m base (suc n) = ground (arith, count_free_bits-le m (base + 1) n)

count-set_run :
    (m : Bytes) (base n : ℕ) → set_run_bits m free_off base n ≡ true → count_free_bits m base n ≡ n
unfolding count_free_bits set_run_bits
count-set_run m base zero h = refl
count-set_run m base (suc n) h = ground (arith, count-set_run m (base + 1) n)

count-broken_run :
    (m : Bytes) (base n : ℕ) → set_run_bits m free_off base n ≡ false → count_free_bits m base n < n
unfolding count_free_bits set_run_bits
count-broken_run m base zero h = cc h
count-broken_run m base (suc n) h =
    ground (arith, count-broken_run m (base + 1) n, count_free_bits-le m (base + 1) n)

-- A block whose bits are all counted is one whose bits are all set.
pub count_free_bits-set_run_bits :
    (m : Bytes) (base n : ℕ) → (count_free_bits m base n == n) ≡ set_run_bits m free_off base n
count_free_bits-set_run_bits m base n = elim (Bool-cases (set_run_bits m free_off base n)) [
  | inl e ↦ ground (arith, count-set_run m base n)
  | inr e ↦ ground (arith, count-broken_run m base n)
]

-- Maps that agree on a run agree on whether it is set.
pub set_run_bits_cong :
    (m b : Bytes) (off base n : ℕ)
    → ((j : ℕ) → base ≤ j → j < base + n → test_bit m off j ≡ test_bit b off j)
    → set_run_bits m off base n ≡ set_run_bits b off base n
unfolding set_run_bits
set_run_bits_cong m b off base zero h = refl
set_run_bits_cong m b off base (suc n) h = λ i.
    h base (omega arith) (omega arith) i
    && set_run_bits_cong m b off (base + 1) n (λ j lo hi. h j (omega arith) (omega arith)) i
