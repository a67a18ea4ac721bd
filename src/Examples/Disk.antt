-- ===== src/Examples/Disk.antt =====
-- The toy image: one cylinder group of 32 fragments, its block at fragment 16. Blocks are of 8
-- fragments; the first block is in use, the second has 3 free fragments, the others are free.
use nextufs_offline.Base.{ℕ, ◌+◌, ◌-◌, true, some, leb, ltb, ◌==◌, ◌&&◌, if◌then◌else◌}
use nextufs_offline.Memory.{Bytes}
use nextufs_offline.Superblock.{Superblock}
use nextufs_offline.Io.{ok, M, Os, Image}
use nextufs_offline.Cg.{
  ndblk_off, nbfree_off, nifree_off, nffree_off, frsum_off, iused_off, magic_off, free_off,
}

abbrev pub disk_read : ℕ → ℕ → M Bytes Bytes
disk_read size off w = (ok (λ j. w (off + j)), w)

abbrev pub disk_write : Bytes → ℕ → ℕ → M Bytes (Unit {0})
disk_write buf size off w =
    (ok tt, λ j. if leb off j && ltb j (off + size) then buf (j - off) else w j)

abbrev pub toy_os : Os Bytes
toy_os = record { malloc = λ n w. (true, w); time = λ w. (7, w) }

abbrev pub toy_sb : Superblock
toy_sb = record {
  sb_off = 0;
  cg_off = 16;
  ino_off = 20;
  data_off = 0;
  cg_delta = 0;
  cg_cyc_mask = 0xffff_ffff;
  write_time = 0;
  frag_count = 32;
  data_frag_count = 0;
  cg_count = 1;
  block_size = 8192;
  frag_size = 1024;
  frags_per_block = 8;
  minfree = 0;
  rotdelay = 0;
  rps = 0;
  block_mask = 0;
  frag_mask = 0;
  block_shift = 0;
  frag_shift_calc = 0;
  maxcontig = 0;
  maxbpg = 0;
  frag_shift = 0;
  fsbtodb = 0;
  super_size = 0;
  csum_mask = 0;
  csum_shift = 0;
  nindir = 0;
  inodes_per_block = 64;
  sectors_per_frag = 1;
  optim = 0;
  cyl_summary_addr = 24;
  csum_size = 0;
  cg_size = 2048;
  tracks_per_cyl = 0;
  sectors_per_track = 16;
  sectors_per_cyl = 16;
  ncyl = 0;
  cpg = 0;
  inodes_per_group = 16;
  frags_per_group = 32;
  dir_count = 0;
  free_block_count = 0;
  free_inode_count = 0;
  free_frag_count = 0;
  state = 0;
  fs_magic = 0;
}

abbrev pub toy_img : Image Bytes
toy_img = record {
  backend_ops =
      some
        (record { read = some disk_read; write = some disk_write; fsync = some (λ w. (ok tt, w)) });
  writable = true;
  slice_base = 0;
  sb = toy_sb;
}

-- The block of the group, byte by byte where it is not zero.
abbrev pub toy_cg : Bytes
toy_cg j =
    if j == ndblk_off + 3
    then 32
    else if j == nbfree_off + 3
    then 2
    else if j == nifree_off + 3
    then 10
    else if j == nffree_off + 3
    then 3
    else if j == frsum_off 3 + 3
    then 1
    else if j == iused_off
    then 0x3f
    else if j == magic_off + 1
    then 0x09
    else if j == magic_off + 2
    then 0x02
    else if j == magic_off + 3
    then 0x55
    else if j == free_off + 1
    then 0x1c
    else if leb (free_off + 2) j && ltb j (free_off + 4)
    then 0xff
    else 0

abbrev pub toy_disk : Bytes
toy_disk j = if leb 16384 j && ltb j (16384 + 2048) then toy_cg (j - 16384) else 0
