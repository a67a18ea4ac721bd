-- ===== src/Alloc/Fragments/Laws.antt =====
-- What an allocation of fragments writes into its group: the map of free fragments and the counts.
use nextufs_offline.Base.{
  ℕ, zero, suc, ◌+◌, ◌-◌, ◌*◌, ◌/◌, ◌^◌, ◌≤◌, ◌<◌, ◌≡◌, ◌∙◌, arith, Bool-cases, not, ◌&&◌, ◌⊎◌, inl,
  inr, add32, sub32, neg32, ltb,
}
use nextufs_offline.Memory.{Bytes, read_be32, write_be32}
use nextufs_offline.Memory.Laws.{read-write_be32, read_be32_elsewhere, write_be32_elsewhere}
use nextufs_offline.Superblock.{Superblock}
use nextufs_offline.Bitmap.{test_bit, clear_block_bits, count_free_runs_in_block}
use nextufs_offline.Bitmap.Laws.{in_run, test-clear_block_bits}
use nextufs_offline.Cg.{
  time_off, nbfree_off, nffree_off, rotor_off, frsum_off, free_off, add_be32, sub_be32,
  apply_cg_frsum_delta,
}
use nextufs_offline.Cg.Frames.{
  test_bit_cong, read_be32_cong, add_be32_elsewhere, sub_be32_elsewhere, clear_block_bits_below,
  apply_cg_frsum_delta_elsewhere, adjust_rotation_elsewhere,
}
use nextufs_offline.Alloc.Fragments.{take_partial, take_block, count_rest}

-- The free fragments that the counts of a group stand for.
abbrev pub free_total : ℕ → Bytes → ℕ
free_total fpb m = read_be32 m nbfree_off * fpb + read_be32 m nffree_off

module _ (buf : Bytes) (fpb need frag start time : ℕ) (small : fpb ≤ 8) where
  abbrev cleared : Bytes
  cleared = clear_block_bits buf free_off start need

  abbrev summed : Bytes
  summed =
      apply_cg_frsum_delta cleared (count_free_runs_in_block buf free_off frag fpb)
        (count_free_runs_in_block cleared free_off frag fpb) fpb

  take_partial_above : (k : ℕ) → 84 ≤ k → take_partial buf fpb need frag start time k ≡ cleared k
  unfolding take_partial
  take_partial_above k h =
      write_be32_elsewhere (sub_be32 summed nffree_off need) time_off time k (inr (omega arith))
      ∙ sub_be32_elsewhere summed nffree_off need k (inr (omega arith))
      ∙ apply_cg_frsum_delta_elsewhere cleared (count_free_runs_in_block buf free_off frag fpb)
          (count_free_runs_in_block cleared free_off frag fpb) fpb k small (inr h)

  -- A run taken from a partial block: exactly its bits are cleared.
  pub test_bit-take_partial :
      (j : ℕ)
      → test_bit (take_partial buf fpb need frag start time) free_off j
        ≡ (not (in_run start need j) && test_bit buf free_off j)
  test_bit-take_partial j =
      test_bit_cong (take_partial buf fpb need frag start time) cleared free_off j
        (take_partial_above (free_off + j / 8) (omega arith))
      ∙ test-clear_block_bits buf free_off start need j

  -- The header in front of the table is that of the buffer.
  summed_header : (q : ℕ) → q + 4 ≤ 52 → read_be32 summed q ≡ read_be32 buf q
  summed_header q h = read_be32_cong summed buf q (λ j lo hi.
      apply_cg_frsum_delta_elsewhere cleared (count_free_runs_in_block buf free_off frag fpb)
        (count_free_runs_in_block cleared free_off frag fpb) fpb j small (inl (omega arith))
      ∙ clear_block_bits_below buf free_off start need j (omega arith))

  pub take_partial_counts :
      (read_be32 (take_partial buf fpb need frag start time) nbfree_off ≡ read_be32 buf nbfree_off)
      × (read_be32 (take_partial buf fpb need frag start time) nffree_off
          ≡ sub32 (read_be32 buf nffree_off) need)
  unfolding take_partial sub_be32
  take_partial_counts = ground (
    arith,
    read_be32_elsewhere (sub_be32 summed nffree_off need) time_off time nbfree_off,
    read_be32_elsewhere (sub_be32 summed nffree_off need) time_off time nffree_off,
    read_be32_elsewhere summed nffree_off (sub32 (read_be32 summed nffree_off) need) nbfree_off,
    read-write_be32 summed nffree_off (sub32 (read_be32 summed nffree_off) need),
    summed_header nbfree_off (omega arith),
    summed_header nffree_off (omega arith),
  )

count_rest_elsewhere :
    (m : Bytes) (rest j : ℕ) → rest ≤ 8 → (j < 52) ⊎ (88 ≤ j) → count_rest m rest j ≡ m j
unfolding count_rest
count_rest_elsewhere m rest j h out = elim (Bool-cases (ltb 0 rest)) [
  | inl e ↦ rw e (add_be32_elsewhere m (frsum_off rest) 1 j (ground arith))
  | inr e ↦ rw e
]

module _ (sb : Superblock) (buf : Bytes) (need frag time : ℕ) (small : sb.frags_per_block ≤ 8)
    (fits : need ≤ sb.frags_per_block) where
  abbrev rest : ℕ
  rest = sub32 sb.frags_per_block need

  rest_small : rest ≤ 8
  rest_small = omega arith

  abbrev run_cleared : Bytes
  run_cleared = clear_block_bits buf free_off frag need

  abbrev one_less : Bytes
  one_less = sub_be32 (write_be32 run_cleared rotor_off frag) nbfree_off 1

  abbrev counted : Bytes
  counted = count_rest (add_be32 one_less nffree_off rest) rest

  take_block_above : (k : ℕ) → 724 ≤ k → take_block sb buf need frag time k ≡ run_cleared k
  unfolding take_block
  take_block_above k h =
      adjust_rotation_elsewhere sb frag (neg32 1) (write_be32 counted time_off time) k (inr h)
      ∙ write_be32_elsewhere counted time_off time k (inr (omega arith))
      ∙ count_rest_elsewhere (add_be32 one_less nffree_off rest) rest k rest_small
          (inr (omega arith))
      ∙ add_be32_elsewhere one_less nffree_off rest k (inr (omega arith))
      ∙ sub_be32_elsewhere (write_be32 run_cleared rotor_off frag) nbfree_off 1 k
          (inr (omega arith))
      ∙ write_be32_elsewhere run_cleared rotor_off frag k (inr (omega arith))

  -- A run from a whole block: exactly its bits are cleared.
  pub test_bit-take_block :
      (j : ℕ)
      → test_bit (take_block sb buf need frag time) free_off j
        ≡ (not (in_run frag need j) && test_bit buf free_off j)
  test_bit-take_block j =
      test_bit_cong (take_block sb buf need frag time) run_cleared free_off j
        (take_block_above (free_off + j / 8) (omega arith))
      ∙ test-clear_block_bits buf free_off frag need j

  -- The steps after the counts leave the header's counts alone.
  counts_kept :
      (q : ℕ)
      → 12 ≤ q
      → q + 4 ≤ 52
      → read_be32 (take_block sb buf need frag time) q
        ≡ read_be32 (add_be32 one_less nffree_off rest) q
  unfolding take_block
  counts_kept q lo hi =
      read_be32_cong (take_block sb buf need frag time) (add_be32 one_less nffree_off rest) q
        (λ j above below.
          adjust_rotation_elsewhere sb frag (neg32 1) (write_be32 counted time_off time) j
            (inl (omega arith))
          ∙ write_be32_elsewhere counted time_off time j (inr (omega arith))
          ∙ count_rest_elsewhere (add_be32 one_less nffree_off rest) rest j rest_small
              (inl (omega arith)))

  cleared_header :
      (q : ℕ) → q + 4 ≤ 40 → read_be32 (write_be32 run_cleared rotor_off frag) q ≡ read_be32 buf q
  cleared_header q h =
      read_be32_elsewhere run_cleared rotor_off frag q (inl (omega arith))
      ∙ read_be32_cong run_cleared buf q
          (λ j lo hi. clear_block_bits_below buf free_off frag need j (omega arith))

  pub take_block_counts :
      (read_be32 (take_block sb buf need frag time) nbfree_off ≡ sub32 (read_be32 buf nbfree_off) 1)
      × (read_be32 (take_block sb buf need frag time) nffree_off
          ≡ add32 (read_be32 buf nffree_off) rest)
  unfolding add_be32 sub_be32
  take_block_counts =
      let rotored = write_be32 run_cleared rotor_off frag in
      ground (
        arith,
        counts_kept nbfree_off (omega arith) (omega arith),
        counts_kept nffree_off (omega arith) (omega arith),
        read_be32_elsewhere one_less nffree_off (add32 (read_be32 one_less nffree_off) rest)
            nbfree_off,
        read-write_be32 one_less nffree_off (add32 (read_be32 one_less nffree_off) rest),
        read-write_be32 rotored nbfree_off (sub32 (read_be32 rotored nbfree_off) 1),
        read_be32_elsewhere rotored nbfree_off (sub32 (read_be32 rotored nbfree_off) 1) nffree_off,
        cleared_header nbfree_off (omega arith),
        cleared_header nffree_off (omega arith),
      )

split_total :
    (nb nf fpb need : ℕ)
    → 0 < nb
    → need ≤ fpb
    → (nb - 1) * fpb + (nf + (fpb - need)) + need ≡ nb * fpb + nf
split_total zero nf fpb need pos fits = elim pos [ ]
split_total (suc nb) nf fpb need pos fits =
    let e : suc nb - 1 ≡ nb = omega arith in rw e (omega arith)

block_counts_fit :
    (nb nf fpb need nb' nf' : ℕ)
    → 0 < nb
    → nb < 2 ^ 32
    → nf + 8 < 2 ^ 32
    → fpb ≤ 8
    → need ≤ fpb
    → nb' ≡ sub32 nb 1
    → nf' ≡ add32 nf (sub32 fpb need)
    → nb' * fpb + nf' + need ≡ nb * fpb + nf
block_counts_fit nb nf fpb need nb' nf' pos small_nb small_nf small fits e e' =
    let e₁ : nb' ≡ nb - 1 = omega arith in
    let e₂ : nf' ≡ nf + (fpb - need) = omega arith in
    rw (e₁, e₂) (split_total nb nf fpb need pos fits)

-- Where the count of free fragments has room for `need`, an allocation from a partial block lowers
-- the free total of the group (its whole blocks times the fragments per block, plus its loose
-- fragments) by exactly `need`.
pub free_total-take_partial :
    (buf : Bytes) (fpb need frag start time : ℕ)
    → fpb ≤ 8
    → read_be32 buf nffree_off < 2 ^ 32
    → need ≤ read_be32 buf nffree_off
    → free_total fpb (take_partial buf fpb need frag start time) + need ≡ free_total fpb buf
free_total-take_partial buf fpb need frag start time small nf enough =
    ground (arith, take_partial_counts buf fpb need frag start time small)

-- Where the group counts a whole free block, splitting one lowers the free total of the group by
-- exactly `need`: the block's other fragments are counted as loose ones.
pub free_total-take_block :
    (sb : Superblock) (buf : Bytes) (need frag time : ℕ)
    → sb.frags_per_block ≤ 8
    → need ≤ sb.frags_per_block
    → read_be32 buf nbfree_off < 2 ^ 32
    → read_be32 buf nffree_off + 8 < 2 ^ 32
    → 0 < read_be32 buf nbfree_off
    → free_total sb.frags_per_block (take_block sb buf need frag time) + need
      ≡ free_total sb.frags_per_block buf
free_total-take_block sb buf need frag time small fits nb nf some_block =
    let (nb', nf') = take_block_counts sb buf need frag time small fits in
    block_counts_fit (read_be32 buf nbfree_off) (read_be32 buf nffree_off) sb.frags_per_block need _
      _ some_block nb nf small fits nb' nf'
