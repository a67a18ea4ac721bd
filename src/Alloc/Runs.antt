-- ===== src/Alloc/Runs.antt =====
-- `nextufs__extend_fragment_run`, `nextufs__free_fragment_run` and
-- `nextufs__reallocate_fragment_run`.
pub mod Laws
pub mod Safety
use nextufs_offline.Base.{
  ℕ, zero, suc, ◌+◌, ◌-◌, ◌*◌, ◌/◌, ◌%◌, ◌^◌, Bool, true, false, not, ◌&&◌, ◌||◌, Option, none,
  some, u32, add32, sub32, add64, mul64, neg32, ltb, leb, ◌==◌, if◌then◌else◌,
}
use nextufs_offline.Memory.{Bytes, clear, read_be32, write_be32}
use nextufs_offline.Bitmap.{
  test_bit, set_bit, set_run_bits, clear_block_bits, count_free_runs_in_block,
}
use nextufs_offline.Superblock.{Superblock}
use nextufs_offline.Layout.{frag_offset, cg_block_offset, update_summary_counts}
use nextufs_offline.Io.{
  M, ◌>>=◌, ◌>>◌, pure, fail, require, einval, enospc, Os, Image, read_exact, write_exact, now,
  malloc_or_fail,
}
use nextufs_offline.Cg.{
  time_off, nbfree_off, nffree_off, free_off, add_be32, sub_be32, apply_cg_frsum_delta,
  adjust_rotation, load_cg,
}
use nextufs_offline.Alloc.Fragments.{frag_deltas, allocate_frags_anycg}

-- What is written for fragments `[start, start + added)` of the block at `base`.
unfoldable pub take_tail : Bytes → ℕ → ℕ → ℕ → ℕ → ℕ → Bytes
take_tail buf fpb base start added time =
    let before = count_free_runs_in_block buf free_off base fpb in
    let cleared = clear_block_bits buf free_off start added in
    let after = count_free_runs_in_block cleared free_off base fpb in
    let summed = apply_cg_frsum_delta cleared before after fpb in
    write_be32 (sub_be32 summed nffree_off added) time_off time

-- The bits of a run are set one by one; `none` is a bit that is set already.
unfoldable pub release_bits : Bytes → ℕ → ℕ → Option Bytes
release_bits buf local zero = some buf
release_bits buf local (suc left) =
    let rest = release_bits (set_bit buf free_off local) (local + 1) left in
    if test_bit buf free_off local then none else rest

-- Whether a release leaves its whole block free.
abbrev pub whole_block : Bytes → ℕ → ℕ → Bool
whole_block buf fpb base = set_run_bits buf free_off base fpb

-- The counts after a release: the fragments of a block that is whole again go over to `cs_nbfree`.
unfoldable pub count_release : Superblock → Bytes → ℕ → ℕ → Bytes
count_release sb buf base frags =
    let fpb = sb.frags_per_block in
    let whole = write_be32 buf nffree_off (sub32 (add32 (read_be32 buf nffree_off) frags) fpb) in
    if whole_block buf fpb base
    then adjust_rotation sb base 1 (add_be32 whole nbfree_off 1)
    else add_be32 buf nffree_off frags

-- What is written for a release, from the buffer before and the one with the bits set.
unfoldable pub give_back : Superblock → Bytes → Bytes → ℕ → ℕ → ℕ → Bytes
give_back sb buf freed base frags time =
    let fpb = sb.frags_per_block in
    let before = count_free_runs_in_block buf free_off base fpb in
    let after = count_free_runs_in_block freed free_off base fpb in
    let summed = apply_cg_frsum_delta freed before after fpb in
    write_be32 (count_release sb summed base frags) time_off time

module _ {W : Type 0} (os : Os W) (img : Image W) where
  unfoldable pub extend_fragment_run : ℕ → ℕ → ℕ → M W (Unit {0})
  extend_fragment_run frag_base old_frags new_frags = do
    let fpb = img.sb.frags_per_block
    let cg = frag_base / img.sb.frags_per_group
    let local_frag = frag_base % img.sb.frags_per_group
    let added_frags = new_frags - old_frags
    require (not (leb new_frags old_frags || ltb fpb new_frags)) einval
    require (leb (add32 (local_frag % fpb) new_frags) fpb) enospc
    buf ← load_cg os img cg
    require (set_run_bits buf free_off (local_frag + old_frags) added_frags) enospc
    time ← now os
    write_exact img
        (take_tail buf fpb (local_frag - local_frag % fpb) (local_frag + old_frags) added_frags
          time)
        img.sb.cg_size (cg_block_offset img cg)
    update_summary_counts os img cg (frag_deltas 0 (neg32 added_frags))

  unfoldable pub released : Option Bytes → M W Bytes
  released none = fail einval
  released (some freed) = pure freed

  unfoldable pub free_fragment_run : ℕ → ℕ → M W (Unit {0})
  free_fragment_run frag_base frags = do
    let fpb = img.sb.frags_per_block
    let cg = frag_base / img.sb.frags_per_group
    let local_frag = frag_base % img.sb.frags_per_group
    let base = local_frag - local_frag % fpb
    require (not (frags == 0 || ltb fpb frags)) einval
    buf ← load_cg os img cg
    freed ← released (release_bits buf local_frag frags)
    let whole = whole_block freed fpb base
    time ← now os
    write_exact img (give_back img.sb buf freed base frags time) img.sb.cg_size
        (cg_block_offset img cg)
    update_summary_counts os img cg
        (frag_deltas (if whole then 1 else 0) (if whole then sub32 frags fpb else frags))

  -- The new run is filled with the old bytes and zeros before the old run is freed.
  unfoldable pub reallocate_fragment_run : ℕ → ℕ → ℕ → ℕ → M W ℕ
  reallocate_fragment_run old_frag old_frags new_frags preferred_cg = do
    let old_bytes = mul64 old_frags img.sb.frag_size
    let new_bytes = mul64 new_frags img.sb.frag_size
    malloc_or_fail os new_bytes
    tmp ← read_exact img old_bytes (frag_offset img old_frag)
    new_frag ← allocate_frags_anycg os img preferred_cg new_frags
    write_exact img (clear tmp old_bytes (new_bytes - old_bytes)) new_bytes
        (frag_offset img new_frag)
    free_fragment_run old_frag old_frags
    pure new_frag
