-- ===== src/Examples/Numbers.antt =====
-- The numbers of a file system of 1000 fragments, with a reserve of 10 percent.
use nextufs_offline.Base.{◌+◌, ◌-◌, ◌*◌, ◌/◌, ◌≡◌, refl, arith}
use nextufs_offline.Superblock.{Superblock}
use nextufs_offline.Access.{StatVfs}
use nextufs_offline.Access.Bounds.{fs_statvfs_bounds}
use nextufs_offline.Examples.Code.{code}
use nextufs_offline.Examples.Disk.{toy_sb}

abbrev counted_sb : Superblock
counted_sb = record toy_sb {
  data_frag_count = 1000;
  minfree = 10;
  free_block_count = 50;
  free_frag_count = 7;
}

abbrev counted : StatVfs
counted = record {
  bsize = 8192;
  frsize = 1024;
  blocks = 1000;
  bfree = 407;
  bavail = 307;
  files = 16;
  ffree = 0;
  favail = 0;
  namemax = 255;
}

statvfs_example : (407 ≡ 50 * 8 + 7) × (307 ≡ 407 - 1000 * 10 / 100) × (16 ≡ 1 * 16)
unfolding code
statvfs_example =
    fs_statvfs_bounds counted_sb counted
      (record {
        free_block_count = omega arith;
        frags_per_block = omega arith;
        free_frag_count = omega arith;
        data_frag_count = omega arith;
        minfree = omega arith;
        cg_count = omega arith;
        inodes_per_group = omega arith;
      })
      refl
