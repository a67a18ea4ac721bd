-- ===== src/Resize/Grow.antt =====
-- The target of `resize_grow`, its tests, and what is written for it.
use nextufs_offline.Base.{
  ℕ, zero, suc, ◌+◌, ◌-◌, ◌/◌, ◌%◌, ◌^◌, Bool, true, not, ◌&&◌, u32, add32, sub32, mul64, add64,
  sub64, ltb, leb, ◌==◌, if◌then◌else◌,
}
use nextufs_offline.Memory.{Bytes, write_be32}
use nextufs_offline.Superblock.{Superblock}
use nextufs_offline.Io.{M, ◌>>=◌, ◌>>◌, pure, Os, Image, image_pwrite, now, malloc_or_fail}
use nextufs_offline.Resize.{cgsblock, cgimin, cgdmin, cg_base, cg_frag_count, cg_cylinder_count}
use nextufs_offline.Resize.Groups.{
  sblock_offset, cg_offset, csum_entry_size, summary_frags, write_csum_entry, write_zeroes,
  reserve_summary_extension, build_new_cg, expand_old_last_cg,
}

-- What the new file system has; `backing` and `slice` are the bytes of the file and of the slice.
pub record Target : Type 0 where
  pub backing : ℕ
  pub slice : ℕ
  pub frags : ℕ
  pub ncg : ℕ
  pub ncyl : ℕ
  pub cssize : ℕ

-- What the growth adds so far: data fragments in all, free blocks, inodes and fragments.
pub record Added : Type 0 where
  pub dsize : ℕ
  pub nbfree : ℕ
  pub nifree : ℕ
  pub nffree : ℕ

-- The metadata of each new group fits it.
unfoldable pub groups_fit : ℕ → Superblock → ℕ → ℕ → Bool
groups_fit zero sb cg frags = true
groups_fit (suc left) sb cg frags =
    let dupper = u32 (sub64 (cgdmin sb cg) (cg_base sb cg)) in
    let rest = groups_fit left sb (cg + 1) frags in leb dupper (cg_frag_count sb cg frags) && rest

unfoldable pub target_of : Superblock → ℕ → ℕ → Target
target_of sb backing slice =
    let frags = slice / sb.frag_size in
    let ncg = sub64 (add64 frags sb.frags_per_group) 1 / sb.frags_per_group in
    let cylinders = add64 (mul64 frags sb.cpg) sb.frags_per_group in
    let summary = sub64 (add64 (mul64 ncg csum_entry_size) sb.frag_size) 1 in
    record {
      backing = backing;
      slice = slice;
      frags = frags;
      ncg = ncg;
      ncyl = sub64 cylinders 1 / sb.frags_per_group;
      cssize = mul64 (summary / sb.frag_size) sb.frag_size;
    }

-- The tests of the target before anything is written.
unfoldable pub target_ok : Superblock → Target → Bool
target_ok sb t =
    let max32 = 2 ^ 32 - 1 in
    t.slice % sb.frag_size == 0
    && leb t.frags max32
    && leb sb.cg_count t.ncg
    && leb t.ncg max32
    && not (t.ncyl == 0)
    && leb t.ncyl max32
    && leb t.cssize max32
    && groups_fit (t.ncg - sb.cg_count) sb sb.cg_count t.frags

abbrev pub put_superblock : Superblock → Bytes → ℕ → Target → Added → Bytes
put_superblock sb old time t added =
    let timed = write_be32 old 0x20 time in
    let sized = write_be32 (write_be32 timed 0x24 t.frags) 0x28 added.dsize in
    let grouped = write_be32 (write_be32 sized 0x2c t.ncg) 0x98 sb.cyl_summary_addr in
    let summed = write_be32 (write_be32 grouped 0x9c t.cssize) 0xb0 t.ncyl in
    let blocks = write_be32 summed 0xc4 (add32 sb.free_block_count added.nbfree) in
    let inodes = write_be32 blocks 0xc8 (add32 sb.free_inode_count added.nifree) in
    let frags = write_be32 inodes 0xcc (add32 sb.free_frag_count added.nffree) in
    write_be32 frags 0xc0 sb.dir_count

module _ {W : Type 0} (os : Os W) (img : Image W) where
  -- The copies of the superblock in the groups.
  unfoldable pub write_superblocks : ℕ → ℕ → Bytes → M W (Unit {0})
  write_superblocks zero cg buf = pure tt
  write_superblocks (suc left) cg buf =
      image_pwrite img buf img.sb.super_size (mul64 (cgsblock img.sb cg) img.sb.frag_size)
      >> write_superblocks left (cg + 1) buf

  unfoldable pub patch_and_write_superblocks : Bytes → Target → Added → M W (Unit {0})
  patch_and_write_superblocks old_sb t added = do
    malloc_or_fail os img.sb.super_size
    time ← now os
    let buf = put_superblock img.sb old_sb time t added
    image_pwrite img buf img.sb.super_size sblock_offset
    write_superblocks t.ncg 0 buf

  -- The last group of the old file system takes the fragments up to its end.
  unfoldable pub grow_last_group : Target → M W Added
  grow_last_group t = do
    let last = sub32 img.sb.cg_count 1
    tail ←
        expand_old_last_cg os img last img.sb.frag_count t.frags
          (cg_cylinder_count img.sb last t.ncg t.ncyl)
    pure (record {
      dsize = add32 img.sb.data_frag_count (tail.1).1;
      nbfree = tail.0;
      nifree = 0;
      nffree = (tail.1).0;
    })

  unfoldable pub grow_summary : Target → Added → M W Added
  grow_summary t added =
      let more = sub32 (summary_frags img.sb t.cssize) (summary_frags img.sb img.sb.csum_size) in
      let start = add64 (mul64 img.sb.cyl_summary_addr img.sb.frag_size) img.sb.csum_size in
      let grown : M W Added = reserve_summary_extension os img t.cssize >>= (λ taken.
        write_zeroes img start (t.cssize - img.sb.csum_size)
        >> pure (record added {
          dsize = sub32 added.dsize more;
          nbfree = add32 added.nbfree taken.0;
          nffree = add32 added.nffree taken.1;
        })) in
      if ltb img.sb.csum_size t.cssize then grown else pure added

  unfoldable pub add_group : Target → ℕ → Added → M W Added
  add_group t cg added = do
    let sb = img.sb
    let ndblk = cg_frag_count sb cg t.frags
    built ← build_new_cg os img cg (cg_cylinder_count sb cg t.ncg t.ncyl) ndblk
    let nbfree = (built.1).0
    let nifree = ((built.1).1).0
    let nffree = ((built.1).1).1
    write_zeroes img (mul64 (cgimin sb cg) sb.frag_size) (mul64 sb.inodes_per_group 128)
    image_pwrite img built.0 sb.cg_size (cg_offset sb cg)
    write_csum_entry img cg 0 nbfree nifree nffree
    let dlower = u32 (sub64 (cgsblock sb cg) (cg_base sb cg))
    let dupper = u32 (sub64 (cgdmin sb cg) (cg_base sb cg))
    pure (record {
      dsize = add32 added.dsize (add32 dlower (sub32 ndblk dupper));
      nbfree = add32 added.nbfree nbfree;
      nifree = add32 added.nifree nifree;
      nffree = add32 added.nffree nffree;
    })

  unfoldable pub add_groups : ℕ → Target → ℕ → Added → M W Added
  add_groups zero t cg added = pure added
  add_groups (suc left) t cg added =
      add_group t cg added >>= (λ more. add_groups left t (cg + 1) more)
