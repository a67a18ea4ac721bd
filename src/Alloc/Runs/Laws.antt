-- ===== src/Alloc/Runs/Laws.antt =====
-- What giving a run back, or extending one, does to the map and the counts of its group.
use nextufs_offline.Base.{
  ℕ, zero, suc, ◌+◌, ◌-◌, ◌*◌, ◌/◌, ◌^◌, ◌≤◌, ◌<◌, ◌≡◌, refl, ◌∙◌, sym, arith, Bool, true, false,
  ◌||◌, ◌⊎◌, inl, inr, Option, none, some, if◌then◌else◌, add32, sub32, Bool-cases, none_ne_some,
}
use nextufs_offline.Memory.{Bytes, read_be32, write_be32}
use nextufs_offline.Memory.Laws.{read-write_be32, read_be32_elsewhere, write_be32_elsewhere}
use nextufs_offline.Superblock.{Superblock}
use nextufs_offline.Bitmap.{test_bit, set_bit, clear_block_bits, count_free_runs_in_block}
use nextufs_offline.Bitmap.Laws.{in_run, test-set_bit, test-clear_block_bits}
use nextufs_offline.Cg.{
  time_off, nbfree_off, nffree_off, free_off, add_be32, apply_cg_frsum_delta, adjust_rotation,
}
use nextufs_offline.Cg.Frames.{
  test_bit_cong, read_be32_cong, add_be32_elsewhere, set_bit_below, apply_cg_frsum_delta_elsewhere,
  adjust_rotation_elsewhere,
}
use nextufs_offline.Alloc.Fragments.Laws.{free_total}
use nextufs_offline.Alloc.Runs.{release_bits, whole_block, count_release, give_back}

-- Every bit of a run that is released was clear, and then the run's bits alone are set.
pub release_bits-some :
    (buf : Bytes) (l n : ℕ) (b : Bytes)
    → release_bits buf l n ≡ some b
    → ((i : ℕ) → l ≤ i → i < l + n → test_bit buf free_off i ≡ false)
      × ((j : ℕ) → test_bit b free_off j ≡ (in_run l n j || test_bit buf free_off j))
unfolding release_bits
release_bits-some buf l zero b h =
    let e : buf ≡ b = cc h in (λ i lo hi. absurd (omega arith), λ j. rw (← e) (ground arith))
release_bits-some buf l (suc n) b h = elim (Bool-cases (test_bit buf free_off l)) [
  | inl e ↦ absurd (none_ne_some (rw e at h))
  | inr e ↦
      let (was, now) = release_bits-some (set_bit buf free_off l) (l + 1) n b (rw e at h) in
      (
        λ i lo hi. ground (arith, was i, test-set_bit buf free_off l i),
        λ j. ground (arith, now j, test-set_bit buf free_off l j),
      )
]

-- A refusal means that some bit of the run was set.
pub release_bits-none :
    (buf : Bytes) (l n : ℕ)
    → release_bits buf l n ≡ none
    → (i : ℕ) × (l ≤ i) × (i < l + n) × (test_bit buf free_off i ≡ true)
unfolding release_bits
release_bits-none buf l zero h = absurd (none_ne_some (sym h))
release_bits-none buf l (suc n) h = elim (Bool-cases (test_bit buf free_off l)) [
  | inl e ↦ (l, omega arith, omega arith, e)
  | inr e ↦
      let (i, lo, hi, set) = release_bits-none (set_bit buf free_off l) (l + 1) n (rw e at h) in
      (i, omega arith, omega arith, ground (arith, test-set_bit buf free_off l i))
]

-- A run with a set bit is refused.
pub release_bits_refuses :
    (buf : Bytes) (l n i : ℕ)
    → l ≤ i
    → i < l + n
    → test_bit buf free_off i ≡ true
    → release_bits buf l n ≡ none
unfolding release_bits
release_bits_refuses buf l zero i lo hi set = absurd (omega arith)
release_bits_refuses buf l (suc n) i lo hi set = elim (Bool-cases (test_bit buf free_off l)) [
  | inl e ↦ rw e
  | inr e ↦ rw e (
      release_bits_refuses (set_bit buf free_off l) (l + 1) n i (ground arith) (omega arith)
        (ground (arith, test-set_bit buf free_off l i)))
]

-- A run of clear bits is released.
release_bits_accepts :
    (buf : Bytes) (l n : ℕ)
    → ((i : ℕ) → l ≤ i → i < l + n → test_bit buf free_off i ≡ false)
    → (b : Bytes) × (release_bits buf l n ≡ some b)
release_bits_accepts buf l n clear = go (release_bits buf l n) refl
  where
    go :
        (o : Option Bytes)
        → release_bits buf l n ≡ o
        → (b : Bytes) × (release_bits buf l n ≡ some b)
    go (some b) e = (b, e)
    go none e = let (i, lo, hi, set) = release_bits-none buf l n e in absurd (cc (clear i lo hi))

-- What was taken for a run of free fragments is given back without a refusal, and the map is then
-- the one before, bit for bit.
pub release-clear_block_bits :
    (buf : Bytes) (l n : ℕ)
    → ((i : ℕ) → l ≤ i → i < l + n → test_bit buf free_off i ≡ true)
    → (b : Bytes) × (release_bits (clear_block_bits buf free_off l n) l n ≡ some b)
      × ((j : ℕ) → test_bit b free_off j ≡ test_bit buf free_off j)
release-clear_block_bits buf l n free =
    let cleared = clear_block_bits buf free_off l n in
    let (b, e) =
      release_bits_accepts cleared l n
        (λ i lo hi. ground (arith, test-clear_block_bits buf free_off l n i)) in
    (
      b,
      e,
      λ j. ground (
        arith,
        (release_bits-some cleared l n b e).1 j,
        test-clear_block_bits buf free_off l n j,
        free j,
      ),
    )

-- `fpb` fragments become one block.
whole_total :
    (nb nf fpb frags nb' nf' : ℕ)
    → nb + 1 < 2 ^ 32
    → nf + 8 < 2 ^ 32
    → fpb ≤ nf + frags
    → fpb ≤ 8
    → frags ≤ fpb
    → nb' ≡ add32 nb 1
    → nf' ≡ sub32 (add32 nf frags) fpb
    → nb' * fpb + nf' ≡ nb * fpb + nf + frags
whole_total nb nf fpb frags nb' nf' hb hf covered small fits e e' =
    let e₁ : nb' ≡ nb + 1 = omega arith in
    let e₂ : nf' ≡ nf + frags - fpb = omega arith in rw (e₁, e₂) (omega arith)

module _ (sb : Superblock) (buf freed : Bytes) (base frags time : ℕ)
    (small : sb.frags_per_block ≤ 8) where
  abbrev freed_summed : Bytes
  freed_summed =
      apply_cg_frsum_delta freed (count_free_runs_in_block buf free_off base sb.frags_per_block)
        (count_free_runs_in_block freed free_off base sb.frags_per_block) sb.frags_per_block

  freed_summed_elsewhere : (j : ℕ) → (j < 52) ⊎ (84 ≤ j) → freed_summed j ≡ freed j
  freed_summed_elsewhere j h =
      apply_cg_frsum_delta_elsewhere freed
        (count_free_runs_in_block buf free_off base sb.frags_per_block)
        (count_free_runs_in_block freed free_off base sb.frags_per_block) sb.frags_per_block j small
        h

  abbrev less_block : Bytes
  less_block =
      write_be32 freed_summed nffree_off
        (sub32 (add32 (read_be32 freed_summed nffree_off) frags) sb.frags_per_block)

  count_release_above :
      (j : ℕ) → 724 ≤ j → count_release sb freed_summed base frags j ≡ freed_summed j
  unfolding count_release
  count_release_above j h = elim (Bool-cases (whole_block freed_summed sb.frags_per_block base)) [
    | inr e ↦ rw e (add_be32_elsewhere freed_summed nffree_off frags j (inr (omega arith)))
    | inl e ↦ rw e (
        adjust_rotation_elsewhere sb base 1 (add_be32 less_block nbfree_off 1) j (inr h)
        ∙ add_be32_elsewhere less_block nbfree_off 1 j (inr (omega arith))
        ∙ write_be32_elsewhere freed_summed nffree_off
            (sub32 (add32 (read_be32 freed_summed nffree_off) frags) sb.frags_per_block) j
            (inr (omega arith)))
  ]

  -- The counting steps of a release leave the map of free fragments as it is.
  pub test_bit-give_back :
      (j : ℕ)
      → test_bit (give_back sb buf freed base frags time) free_off j ≡ test_bit freed free_off j
  unfolding give_back
  test_bit-give_back j =
      let k = free_off + j / 8 in
      test_bit_cong (give_back sb buf freed base frags time) freed free_off j (
        write_be32_elsewhere (count_release sb freed_summed base frags) time_off time k
          (inr (omega arith))
        ∙ count_release_above k (omega arith)
        ∙ freed_summed_elsewhere k (inr (omega arith)))

  summed_count : (q : ℕ) → q + 4 ≤ 52 → read_be32 freed_summed q ≡ read_be32 freed q
  summed_count q h =
      read_be32_cong freed_summed freed q (λ j lo hi. freed_summed_elsewhere j (inl (omega arith)))

  rotation_keeps :
      (q : ℕ)
      → q + 4 ≤ 84
      → read_be32 (adjust_rotation sb base 1 (add_be32 less_block nbfree_off 1)) q
        ≡ read_be32 (add_be32 less_block nbfree_off 1) q
  rotation_keeps q h =
      read_be32_cong (adjust_rotation sb base 1 (add_be32 less_block nbfree_off 1))
        (add_be32 less_block nbfree_off 1) q
        (λ j lo hi.
          adjust_rotation_elsewhere sb base 1 (add_be32 less_block nbfree_off 1) j
            (inl (omega arith)))

  abbrev whole : Bool
  whole = whole_block freed_summed sb.frags_per_block base

  release_counts :
      let r = count_release sb freed_summed base frags in
      (read_be32 r nbfree_off
        ≡ (if whole then add32 (read_be32 freed nbfree_off) 1 else read_be32 freed nbfree_off))
      × (read_be32 r nffree_off ≡ (
          if whole
          then sub32 (add32 (read_be32 freed nffree_off) frags) sb.frags_per_block
          else add32 (read_be32 freed nffree_off) frags))
  unfolding count_release add_be32
  release_counts = elim (Bool-cases whole) [
    | inr e ↦ rw e (
        ground (
          arith,
          summed_count nbfree_off (omega arith),
          summed_count nffree_off (omega arith),
          read_be32_elsewhere freed_summed nffree_off
              (add32 (read_be32 freed_summed nffree_off) frags) nbfree_off,
          read-write_be32 freed_summed nffree_off (add32 (read_be32 freed_summed nffree_off) frags),
        ))
    | inl e ↦ rw e (
        ground (
          arith,
          rotation_keeps nbfree_off (omega arith),
          rotation_keeps nffree_off (omega arith),
          summed_count nbfree_off (omega arith),
          summed_count nffree_off (omega arith),
          read-write_be32 less_block nbfree_off (add32 (read_be32 less_block nbfree_off) 1),
          read_be32_elsewhere less_block nbfree_off (add32 (read_be32 less_block nbfree_off) 1)
              nffree_off,
          read-write_be32 freed_summed nffree_off
              (sub32 (add32 (read_be32 freed_summed nffree_off) frags) sb.frags_per_block),
          read_be32_elsewhere freed_summed nffree_off
              (sub32 (add32 (read_be32 freed_summed nffree_off) frags) sb.frags_per_block)
              nbfree_off,
        ))
  ]

  time_kept :
      (q : ℕ)
      → 12 ≤ q
      → read_be32 (give_back sb buf freed base frags time) q
        ≡ read_be32 (count_release sb freed_summed base frags) q
  unfolding give_back
  time_kept q h =
      read_be32_elsewhere (count_release sb freed_summed base frags) time_off time q
        (inr (omega arith))

  -- A release raises the free total of the group by the fragments given back. Its premises are
  -- that the counts do not overflow, and that they cover the fragments of a block that is whole.
  pub free_total-give_back :
      frags ≤ sb.frags_per_block
      → read_be32 freed nbfree_off + 1 < 2 ^ 32
      → read_be32 freed nffree_off + 8 < 2 ^ 32
      → (whole ≡ true → sb.frags_per_block ≤ read_be32 freed nffree_off + frags)
      → free_total sb.frags_per_block (give_back sb buf freed base frags time)
        ≡ free_total sb.frags_per_block freed + frags
  free_total-give_back fits nb nf covered = elim (Bool-cases whole) [
    | inr e ↦ ground (
      arith,
      e,
      release_counts,
      time_kept nbfree_off (omega arith),
      time_kept nffree_off (omega arith),
    )
    | inl e ↦
        whole_total (read_be32 freed nbfree_off) (read_be32 freed nffree_off) sb.frags_per_block
          frags _ _ nb nf (covered e) small fits
          (time_kept nbfree_off (omega arith) ∙ rw e at (release_counts.0))
          (time_kept nffree_off (omega arith) ∙ rw e at (release_counts.1))
  ]

release_bits_below :
    (buf : Bytes) (l n : ℕ) (b : Bytes) (j : ℕ)
    → release_bits buf l n ≡ some b
    → j < free_off
    → b j ≡ buf j
unfolding release_bits
release_bits_below buf l zero b j h lt = let e : buf ≡ b = cc h in rw (← e) refl
release_bits_below buf l (suc n) b j h lt = elim (Bool-cases (test_bit buf free_off l)) [
  | inl e ↦ absurd (none_ne_some (rw e at h))
  | inr e ↦
      release_bits_below (set_bit buf free_off l) (l + 1) n b j (rw e at h) lt
      ∙ set_bit_below buf free_off l j lt
]

-- The header of the group is the one before the bits were set.
pub release_bits_header :
    (buf : Bytes) (l n : ℕ) (b : Bytes) (q : ℕ)
    → release_bits buf l n ≡ some b
    → q + 4 ≤ free_off
    → read_be32 b q ≡ read_be32 buf q
release_bits_header buf l n b q h fits =
    read_be32_cong b buf q (λ j lo hi. release_bits_below buf l n b j h (omega arith))
