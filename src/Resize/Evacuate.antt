-- ===== src/Resize/Evacuate.antt =====
-- Data that stands where the summary area will grow is moved away.
use nextufs_offline.Base.{
  ℕ, zero, suc, ◌+◌, ◌-◌, ◌/◌, ◌%◌, Bool, true, false, not, ◌&&◌, ◌||◌, u32, add32, sub32, mul32,
  mul64, ltb, leb, ◌==◌, if◌then◌else◌,
}
use nextufs_offline.Memory.{upd}
use nextufs_offline.Superblock.{Superblock}
use nextufs_offline.Inode.{Inode}
use nextufs_offline.Layout.{inode_read, write_inode_raw}
use nextufs_offline.Io.{
  M, ◌>>=◌, ◌>>◌, pure, fail, require, enospc, enotsup, Os, Image, image_pread, image_pwrite, now,
  malloc_or_fail,
}
use nextufs_offline.Alloc.Fragments.{allocate_frags_anycg}
use nextufs_offline.Alloc.Indirect.{on_error}
use nextufs_offline.Alloc.Runs.{free_fragment_run}
use nextufs_offline.Operations.{ignore}
use nextufs_offline.Resize.Groups.{summary_frags}

-- The fragments of the file in a direct block.
unfoldable pub inode_direct_frags : Superblock → Inode → ℕ → ℕ
inode_direct_frags sb ino slot =
    let off = mul64 slot sb.block_size in
    let remaining = ino.size - off in
    let bytes = if ltb remaining sb.block_size then remaining else sb.block_size in
    if leb ino.size off then 0 else u32 ((bytes + sb.frag_size - 1) / sb.frag_size)

unfoldable pub frag_ranges_overlap : ℕ → ℕ → ℕ → ℕ → Bool
frag_ranges_overlap a_start a_frags b_start b_frags =
    ltb a_start (add32 b_start b_frags) && ltb b_start (add32 a_start a_frags)

module _ {W : Type 0} (os : Os W) (img : Image W) where
  -- The group behind that of the fragment, round the end.
  abbrev pub next_group : ℕ → ℕ
  next_group frag =
      let cg = frag / img.sb.frags_per_group in
      if ltb 1 img.sb.cg_count then (cg + 1) % img.sb.cg_count else cg

  -- The run gets another place, outside the protected range; the inode then.
  unfoldable pub move_run : ℕ → Inode → ℕ → ℕ → ℕ → ℕ → M W Inode
  move_run inode_no ino slot frags protect_start protect_frags = do
    let old_frag = ino.db slot
    let bytes = mul64 frags img.sb.frag_size
    malloc_or_fail os bytes
    buf ← image_pread img bytes (mul64 old_frag img.sb.frag_size)
    new_frag ← allocate_frags_anycg os img (next_group old_frag) frags
    (if frag_ranges_overlap new_frag frags protect_start protect_frags
        then ignore (free_fragment_run os img new_frag frags) >> fail enospc
        else pure tt)
    on_error (image_pwrite img buf bytes (mul64 new_frag img.sb.frag_size))
        (free_fragment_run os img new_frag frags)
    time ← now os
    let changed = record ino { db = upd ino.db slot new_frag; ctime = u32 time }
    write_inode_raw img inode_no changed
    free_fragment_run os img old_frag frags
    pure changed

  -- The inode, and whether the run has moved.
  unfoldable pub move_direct_fragment_run : ℕ → Inode → ℕ → ℕ → ℕ → ℕ → M W (Inode × Bool)
  move_direct_fragment_run inode_no ino slot frags protect_start protect_frags =
      let moved : M W (Inode × Bool) =
        move_run inode_no ino slot frags protect_start protect_frags
        >>= (λ changed. pure (changed, true)) in
      if frags == 0
        || ino.db slot == 0
        || not (frag_ranges_overlap (ino.db slot) frags protect_start protect_frags)
      then pure (ino, false)
      else moved

  -- The direct blocks from a slot on, and the number of runs that have moved.
  unfoldable pub evacuate_slots : ℕ → ℕ → Inode → ℕ → ℕ → ℕ → ℕ → M W ℕ
  evacuate_slots zero inode_no ino slot protect_start protect_frags moves = pure moves
  evacuate_slots (suc left) inode_no ino slot protect_start protect_frags moves = do
    moved ←
        move_direct_fragment_run inode_no ino slot (inode_direct_frags img.sb ino slot)
          protect_start protect_frags
    evacuate_slots left inode_no moved.0 (slot + 1) protect_start protect_frags
        (if moved.1 then add32 moves 1 else moves)

  -- An indirect block of the inode stands in the protected range.
  abbrev pub blocks_summary : Inode → ℕ → ℕ → ℕ → Bool
  blocks_summary ino slot protect_start protect_frags =
      not (ino.ib slot == 0)
      && frag_ranges_overlap (ino.ib slot) img.sb.frags_per_block protect_start protect_frags

  unfoldable pub evacuate_inode : ℕ → ℕ → ℕ → ℕ → M W ℕ
  evacuate_inode inode_no protect_start protect_frags moves = do
    read ← inode_read img inode_no
    let ino = read.0
    let blocked : ℕ → Bool = λ slot. blocks_summary ino slot protect_start protect_frags
    if ino.mode == 0 || ino.nlink == 0
        then pure moves
        else require (not (blocked 0 || blocked 1 || blocked 2)) enotsup
          >> evacuate_slots 12 inode_no ino 0 protect_start protect_frags moves

  unfoldable pub evacuate_from : ℕ → ℕ → ℕ → ℕ → ℕ → M W ℕ
  evacuate_from zero inode_no protect_start protect_frags moves = pure moves
  evacuate_from (suc left) inode_no protect_start protect_frags moves =
      evacuate_inode inode_no protect_start protect_frags moves
      >>= (λ more. evacuate_from left (inode_no + 1) protect_start protect_frags more)

  -- The number of runs that have moved.
  unfoldable pub evacuate_summary_extension_range : ℕ → M W ℕ
  evacuate_summary_extension_range new_cssize =
      let old_frags = summary_frags img.sb img.sb.csum_size in
      let protect_start = add32 img.sb.cyl_summary_addr old_frags in
      let protect_frags = sub32 (summary_frags img.sb new_cssize) old_frags in
      let moved : M W ℕ =
        require (leb (add32 protect_start protect_frags) img.sb.frags_per_group) enotsup
        >> evacuate_from (mul32 img.sb.cg_count img.sb.inodes_per_group) 0 protect_start
            protect_frags 0 in
      if leb new_cssize img.sb.csum_size then pure 0 else moved
