-- ===== src/Layout.antt =====
-- src/core/layout.c: where cylinder groups and inodes lie, directory entries, inode writes and the
-- free counts of the superblock and of the summary area. An `off_t` is its 64-bit pattern.
use nextufs_offline.Base.{
  ℕ, ◌+◌, ◌-◌, ◌*◌, ◌/◌, ◌%◌, ◌^◌, ◌||◌, Option, none, some, bit_and, u32, add32, add64, mul64, ltb,
  leb, ◌==◌, if◌then◌else◌,
}
use nextufs_offline.Memory.{Bytes, read_be16, read_be32, write_be32}
use nextufs_offline.Superblock.{Superblock}
use nextufs_offline.Inode.{Inode, encode_inode, decode_inode}
use nextufs_offline.Io.{M, ◌>>=◌, ◌>>◌, pure, fail, einval, Os, Image, read_exact, write_exact, now}

-- `~mask` of a `uint32_t`
abbrev pub not32 : ℕ → ℕ
not32 a = 2 ^ 32 - 1 - a

unfoldable pub cgstart : Superblock → ℕ → ℕ
cgstart sb cg =
    let cgbase = mul64 sb.frags_per_group cg in
    add64 cgbase (mul64 sb.cg_delta (bit_and cg (not32 sb.cg_cyc_mask)))

-- `slice_base + (off_t)frag * frag_size`
unfoldable pub frag_offset : {W : Type 0} → Image W → ℕ → ℕ
frag_offset img frag = add64 img.slice_base (mul64 frag img.sb.frag_size)

unfoldable pub cg_block_offset : {W : Type 0} → Image W → ℕ → ℕ
cg_block_offset img cg =
    add64 img.slice_base (mul64 (add64 (cgstart img.sb cg) img.sb.cg_off) img.sb.frag_size)

unfoldable pub inode_offset : {W : Type 0} → Image W → ℕ → ℕ
inode_offset img inode_no =
    let sb = img.sb in
    let cg = inode_no / sb.inodes_per_group in
    let inum_in_group = inode_no % sb.inodes_per_group in
    let cgimin = add64 (cgstart sb cg) sb.ino_off in
    let frag_addr =
      add64 cgimin (mul64 (inum_in_group / sb.inodes_per_block) (2 ^ sb.frag_shift)) in
    let inode_slot = inum_in_group % sb.inodes_per_block in
    if sb.inodes_per_group == 0 || sb.frags_per_group == 0 || sb.inodes_per_block == 0
    then 2 ^ 64 - 1
    else add64 (add64 img.slice_base (mul64 frag_addr sb.frag_size)) (inode_slot * 128)

-- `& ~3U` rounds down to a multiple of 4 and keeps 32 bits.
unfoldable pub dirent_size : ℕ → ℕ
dirent_size name_len = 8 + u32 (name_len + 1 + 3) / 4 * 4

-- `struct nextufs_dirent_view`; `name` is the offset of the name in the buffer.
pub record DirentView : Type 0 where
  pub ino : ℕ
  pub reclen : ℕ
  pub namlen : ℕ
  pub name : ℕ

abbrev pub dirent_at : Bytes → ℕ → DirentView
dirent_at buf off = record {
  ino = read_be32 buf off;
  reclen = read_be16 buf (off + 4);
  namlen = read_be16 buf (off + 6);
  name = off + 8;
}

-- `none` is the -1 of a record that does not lie in the buffer.
unfoldable pub read_dirent : Bytes → ℕ → ℕ → Option DirentView
read_dirent buf size off =
    let ent = dirent_at buf off in
    if ltb size (off + 8)
    then none
    else if ltb ent.reclen 8 || ltb size (off + ent.reclen) || ltb size (off + 8 + ent.namlen)
    then none
    else some ent

-- The superblock's counts, as `nextufs__update_summary_counts` rewrites them. A delta is the
-- 32-bit pattern of an `int32_t`.
pub record Deltas : Type 0 where
  pub ndir : ℕ
  pub nbfree : ℕ
  pub nifree : ℕ
  pub nffree : ℕ

-- `v = read_be32(p); write_be32(p, v + d)`
unfoldable pub bump_be32 : Bytes → ℕ → ℕ → Bytes
bump_be32 buf p d = write_be32 buf p (add32 (read_be32 buf p) d)

unfoldable pub bump_counts : Bytes → ℕ → ℕ → ℕ → ℕ → Deltas → Bytes
bump_counts buf p q r s d =
    bump_be32 (bump_be32 (bump_be32 (bump_be32 buf p d.ndir) q d.nbfree) r d.nifree) s d.nffree

module _ {W : Type 0} (os : Os W) (img : Image W) where
  unfoldable pub update_superblock : Deltas → M W (Unit {0})
  update_superblock d = do
    sbuf ← read_exact img 2048 (add64 img.slice_base 0x2000)
    let bumped = bump_counts sbuf 0x0c0 0x0c4 0x0c8 0x0cc d
    time ← now os
    write_exact img (write_be32 bumped 0x20 time) 2048 (add64 img.slice_base 0x2000)

  unfoldable pub update_csum : ℕ → Deltas → M W (Unit {0})
  update_csum cg d = do
    let cs_off = add64 (frag_offset img img.sb.cyl_summary_addr) (cg * 16)
    csum_buf ← read_exact img 16 cs_off
    write_exact img (bump_counts csum_buf 0 4 8 12 d) 16 cs_off

  unfoldable pub update_summary_counts : ℕ → Deltas → M W (Unit {0})
  update_summary_counts cg d = update_superblock d >> update_csum cg d

module _ {W : Type 0} (img : Image W) where
  -- An offset with its top bit set is negative.
  unfoldable pub write_inode_raw : ℕ → Inode → M W (Unit {0})
  write_inode_raw inode_no ino =
      let off = inode_offset img inode_no in
      if leb (2 ^ 63) off then fail einval else write_exact img (encode_inode ino) 128 off

  -- `nextufs_inode_read` of src/core/image.c, which also hands out the offset.
  unfoldable pub inode_read : ℕ → M W (Inode × ℕ)
  inode_read inode_no =
      let off = inode_offset img inode_no in
      if leb (2 ^ 63) off
      then fail einval
      else do ibuf ← read_exact img 128 off; pure (decode_inode ibuf, off)
