-- ===== src/Resize/Groups.antt =====
-- The groups of a file system that grows: the last group is expanded, new groups are built, and the
-- summary area takes more fragments of the first group.
use nextufs_offline.Base.{
  ℕ, zero, suc, ◌+◌, ◌-◌, ◌/◌, ◌%◌, ◌^◌, not, ◌&&◌, u16, u32, add32, sub32, mul64, add64, sub64,
  ltb, leb, ◌==◌, if◌then◌else◌,
}
use nextufs_offline.Memory.{Bytes, zeroed, read_be32, write_be16, write_be32}
use nextufs_offline.Superblock.{Superblock}
use nextufs_offline.Bitmap.{set_run_bits, clear_block_bits}
use nextufs_offline.Io.{
  M, ◌>>=◌, ◌>>◌, pure, require, out_of_fuel, einval, enospc, enotsup, Os, Image, image_pread,
  image_pwrite, now, malloc_or_fail,
}
use nextufs_offline.Cg.{
  magic_number, time_off, ndblk_off, ndir_off, nbfree_off, nifree_off, nffree_off, irotor_off,
  magic_off, free_off, add_be32, adjust_rotation,
}
use nextufs_offline.Resize.{
  cgsblock, cgtod, cgdmin, cg_base, cg_frag_count, count_free_bits, add_limit, recount_runs,
  add_free_frag_range, of_result,
}

abbrev pub cgx_off : ℕ
cgx_off = 12

abbrev pub ncyl_off : ℕ
ncyl_off = 16

abbrev pub niblk_off : ℕ
niblk_off = 18

-- `UFS_SBLOCK_OFFSET`, the place of the primary superblock.
abbrev pub sblock_offset : ℕ
sblock_offset = 0x2000

abbrev pub csum_entry_size : ℕ
csum_entry_size = 16

-- The offset of a group's block in the file system.
abbrev pub cg_offset : Superblock → ℕ → ℕ
cg_offset sb cg = mul64 (cgtod sb cg) sb.frag_size

-- The free fragments of the new summary area are taken from the map, block by block; the result has
-- the changes of the counts of free blocks and fragments.
unfoldable pub take_round : Superblock → Bytes → ℕ → ℕ → Bytes × (ℕ × ℕ)
take_round sb buf pos clear_end =
    let fpb = sb.frags_per_block in
    let base = pos - pos % fpb in
    let before = count_free_bits buf base fpb in
    let cleared = clear_block_bits buf free_off pos (clear_end - pos) in
    let after = count_free_bits cleared base fpb in
    let summed = recount_runs sb buf cleared base in
    let broken = before == fpb && not (after == fpb) in
    (
      if broken then adjust_rotation sb base (2 ^ 32 - 1) summed else summed,
      (if broken then 2 ^ 32 - 1 else 0, if broken then after else sub32 after before),
    )

module _ {W : Type 0} where
  unfoldable pub write_csum_entry_at : Image W → ℕ → ℕ → ℕ → ℕ → ℕ → ℕ → M W (Unit {0})
  write_csum_entry_at img csum_addr cg ndir nbfree nifree nffree =
      image_pwrite img
        (write_be32 (write_be32 (write_be32 (write_be32 zeroed 0 ndir) 4 nbfree) 8 nifree) 12
          nffree)
        csum_entry_size (add64 (mul64 csum_addr img.sb.frag_size) (mul64 cg csum_entry_size))

  abbrev pub write_csum_entry : Image W → ℕ → ℕ → ℕ → ℕ → ℕ → M W (Unit {0})
  write_csum_entry img cg ndir nbfree nifree nffree =
      write_csum_entry_at img img.sb.cyl_summary_addr cg ndir nbfree nifree nffree

  -- The group's block is written, and its counts into the summary area.
  unfoldable pub write_group : Image W → ℕ → Bytes → M W (Unit {0})
  write_group img cg buf = do
    image_pwrite img buf img.sb.cg_size (cg_offset img.sb cg)
    write_csum_entry img cg (read_be32 buf ndir_off) (read_be32 buf nbfree_off)
        (read_be32 buf nifree_off) (read_be32 buf nffree_off)

  -- The loop of `write_zeroes`, in pieces of 8192 bytes.
  unfoldable pub zeroes_from : ℕ → Image W → ℕ → ℕ → ℕ → M W (Unit {0})
  zeroes_from zero img offset size done = if ltb done size then out_of_fuel else pure tt
  zeroes_from (suc rounds) img offset size done =
      let chunk = if ltb 8192 (size - done) then 8192 else size - done in
      let next : M W (Unit {0}) =
        image_pwrite img zeroed chunk (add64 offset done)
        >> zeroes_from rounds img offset size (done + chunk) in
      if ltb done size then next else pure tt

  abbrev pub write_zeroes : Image W → ℕ → ℕ → M W (Unit {0})
  write_zeroes img offset size = zeroes_from size img offset size 0

  unfoldable pub take_from : ℕ → Superblock → Bytes → ℕ → ℕ → ℕ → ℕ → M W (Bytes × (ℕ × ℕ))
  take_from zero sb buf pos end nbfree nffree =
      if ltb pos end then out_of_fuel else pure (buf, (nbfree, nffree))
  take_from (suc rounds) sb buf pos end nbfree nffree =
      let clear_end = add_limit sb pos end in
      let taken = take_round sb buf pos clear_end in
      let next : M W (Bytes × (ℕ × ℕ)) =
        require (leb sb.frags_per_block 8) enotsup
        >> (require (set_run_bits buf free_off pos (clear_end - pos)) enospc
            >> take_from rounds sb taken.0 clear_end end (add32 nbfree (taken.1).0)
                (add32 nffree (taken.1).1)) in
      if ltb pos end then next else pure (buf, (nbfree, nffree))

-- The fragments that a summary area of so many bytes takes.
abbrev pub summary_frags : Superblock → ℕ → ℕ
summary_frags sb size = sub32 (add32 size sb.frag_size) 1 / sb.frag_size

module _ {W : Type 0} (os : Os W) (img : Image W) where
  unfoldable pub take_summary : ℕ → ℕ → M W (ℕ × ℕ)
  take_summary pos end = do
    malloc_or_fail os img.sb.cg_size
    buf ← image_pread img img.sb.cg_size (cg_offset img.sb 0)
    taken ← take_from (end - pos) img.sb buf pos end 0 0
    time ← now os
    write_group img 0 (
        write_be32 (add_be32 (add_be32 taken.0 nbfree_off (taken.1).0) nffree_off (taken.1).1)
          time_off time)
    pure taken.1

  unfoldable pub reserve_summary_extension : ℕ → M W (ℕ × ℕ)
  reserve_summary_extension new_cssize =
      let pos = add32 img.sb.cyl_summary_addr (summary_frags img.sb img.sb.csum_size) in
      let end = add32 img.sb.cyl_summary_addr (summary_frags img.sb new_cssize) in
      let taken : M W (ℕ × ℕ) =
        require (leb end img.sb.frags_per_group) enotsup >> take_summary pos end in
      if leb new_cssize img.sb.csum_size then pure (0, 0) else taken

  -- The buffer of a new group, and its free blocks, inodes and fragments.
  unfoldable pub build_new_cg : ℕ → ℕ → ℕ → M W (Bytes × (ℕ × (ℕ × ℕ)))
  build_new_cg cg ncyl ndblk = do
    let sb = img.sb
    let dlower = u32 (sub64 (cgsblock sb cg) (cg_base sb cg))
    let dupper = u32 (sub64 (cgdmin sb cg) (cg_base sb cg))
    require (leb ndblk sb.frags_per_group && leb dupper ndblk) enospc
    time ← now os
    let timed = write_be32 zeroed time_off time
    let headed = write_be16 (write_be32 timed cgx_off cg) ncyl_off ncyl
    let sized = write_be32 (write_be16 headed niblk_off (u16 sb.inodes_per_group)) ndblk_off ndblk
    let marked = write_be32 (write_be32 sized irotor_off 0) magic_off magic_number
    low ← of_result (add_free_frag_range sb marked 0 dlower)
    high ← of_result (add_free_frag_range sb low.0 dupper ndblk)
    let nbfree = add32 (low.1).0 (high.1).0
    let nffree = add32 (low.1).1 (high.1).1
    let counted = write_be32 (write_be32 high.0 nbfree_off nbfree) nifree_off sb.inodes_per_group
    pure (write_be32 counted nffree_off nffree, (nbfree, (sb.inodes_per_group, nffree)))

  -- The changes of the free blocks and fragments, and the data fragments that are added.
  unfoldable pub expand_old_last_cg : ℕ → ℕ → ℕ → ℕ → M W (ℕ × (ℕ × ℕ))
  expand_old_last_cg cg old_frags target_frags ncyl = do
    let sb = img.sb
    let base = cg_base sb cg
    require
        (ltb base old_frags
          && leb old_frags (add64 base sb.frags_per_group)
          && leb old_frags target_frags)
        einval
    let start = u32 (old_frags - base)
    let end = cg_frag_count sb cg target_frags
    malloc_or_fail os sb.cg_size
    buf ← image_pread img sb.cg_size (cg_offset sb cg)
    added ← of_result (add_free_frag_range sb buf start end)
    time ← now os
    let sized = write_be32 (write_be16 added.0 ncyl_off ncyl) ndblk_off end
    let counted = add_be32 (add_be32 sized nbfree_off (added.1).0) nffree_off (added.1).1
    write_group img cg (write_be32 counted time_off time)
    pure ((added.1).0, ((added.1).1, sub32 end start))
