-- ===== src/Alloc/InodeGroup.antt =====
-- `nextufs__allocate_inode_in_group` and `nextufs__free_inode_in_group`.
pub mod Search
pub mod Safety
pub mod Marks
use nextufs_offline.Base.{
  ℕ, zero, suc, ◌+◌, ◌/◌, ◌%◌, Bool, not, Option, none, some, add32, mul32, neg32, leb, ◌==◌,
  if◌then◌else◌,
}
use nextufs_offline.Memory.{Bytes, read_be32, write_be32}
use nextufs_offline.Bitmap.{test_bit, set_bit, clear_bit}
use nextufs_offline.Superblock.{Superblock}
use nextufs_offline.Layout.{cg_block_offset, update_summary_counts}
use nextufs_offline.Io.{
  M, ◌>>=◌, ◌>>◌, pure, fail, require, einval, enospc, Os, Image, write_exact, now,
}
use nextufs_offline.Cg.{
  time_off, ndir_off, nifree_off, irotor_off, iused_off, is_dir_mode, add_be32, sub_be32, load_cg,
}

-- The search for a clear bit from `start` round to it again; `i` rounds are done.
unfoldable pub find_inode : Bytes → ℕ → ℕ → ℕ → ℕ → Option ℕ
find_inode buf ipg start zero i = none
find_inode buf ipg start (suc left) i =
    let idx = add32 start i % ipg in
    let rest = find_inode buf ipg start left (i + 1) in
    if test_bit buf iused_off idx then rest else some idx

-- `cg_irotor`, or 0 if it lies outside the group.
unfoldable pub inode_rotor : Superblock → Bytes → ℕ
inode_rotor sb buf =
    let start = read_be32 buf irotor_off in if leb sb.inodes_per_group start then 0 else start

-- What an allocation writes into the group's buffer.
unfoldable pub mark_inode_used : Bytes → ℕ → Bool → ℕ → Bytes
mark_inode_used buf ipref is_dir time =
    let used = write_be32 (set_bit buf iused_off ipref) irotor_off ipref in
    let counted = write_be32 (sub_be32 used nifree_off 1) time_off time in
    if is_dir then add_be32 counted ndir_off 1 else counted

-- What a release writes into the group's buffer.
unfoldable pub mark_inode_free : Bytes → ℕ → Bool → ℕ → Bytes
mark_inode_free buf local_ino is_dir time =
    let freed = add_be32 (clear_bit buf iused_off local_ino) nifree_off 1 in
    let counted = write_be32 freed time_off time in
    if is_dir then sub_be32 counted ndir_off 1 else counted

module _ {W : Type 0} (os : Os W) (img : Image W) where
  unfoldable pub found_inode : Option ℕ → M W ℕ
  found_inode none = fail enospc
  found_inode (some ipref) = pure ipref

  unfoldable pub allocate_inode_in_group : ℕ → ℕ → M W ℕ
  allocate_inode_in_group cg mode = do
    buf ← load_cg os img cg
    require (not (read_be32 buf nifree_off == 0)) enospc
    let ipg = img.sb.inodes_per_group
    ipref ← found_inode (find_inode buf ipg (inode_rotor img.sb buf) ipg 0)
    time ← now os
    let marked = mark_inode_used buf ipref (is_dir_mode mode) time
    write_exact img marked img.sb.cg_size (cg_block_offset img cg)
    update_summary_counts os img cg (record {
      ndir = if is_dir_mode mode then 1 else 0;
      nbfree = 0;
      nifree = neg32 1;
      nffree = 0;
    })
    pure (add32 (mul32 cg ipg) ipref)

  unfoldable pub free_inode_in_group : ℕ → ℕ → M W (Unit {0})
  free_inode_in_group inode_no mode = do
    let cg = inode_no / img.sb.inodes_per_group
    let local_ino = inode_no % img.sb.inodes_per_group
    buf ← load_cg os img cg
    require (test_bit buf iused_off local_ino) einval
    time ← now os
    let marked = mark_inode_free buf local_ino (is_dir_mode mode) time
    write_exact img marked img.sb.cg_size (cg_block_offset img cg)
    update_summary_counts os img cg (record {
      ndir = if is_dir_mode mode then neg32 1 else 0;
      nbfree = 0;
      nifree = 1;
      nffree = 0;
    })
