-- ===== src/Examples/Maps.antt =====
-- The searches, the counts of a group and the inode's bytes at concrete buffers.
use nextufs_offline.Base.{◌+◌, ◌≡◌, arith}
use nextufs_offline.Memory.{Bytes}
use nextufs_offline.Bitmap.{set_bit}
use nextufs_offline.Inode.{Inode, decode_inode, encode_inode}
use nextufs_offline.Inode.RoundTrip.{Same, decode-encode_inode}
use nextufs_offline.Cg.{free_off}
use nextufs_offline.Alloc.Fragments.Laws.{free_total}
use nextufs_offline.Alloc.Runs.{give_back}
use nextufs_offline.Alloc.Runs.Laws.{free_total-give_back}
use nextufs_offline.Examples.Code.{code}
use nextufs_offline.Examples.Disk.{toy_sb, toy_cg}

abbrev two_freed : Bytes
two_freed = set_bit (set_bit toy_cg free_off 8) free_off 9

give_back_example :
    free_total 8 (give_back toy_sb toy_cg two_freed 8 2 7) ≡ free_total 8 two_freed + 2
unfolding code
give_back_example =
    free_total-give_back toy_sb toy_cg two_freed 8 2 7 (omega arith) (omega arith) (omega arith)
      (omega arith) (λ e. cc e)

abbrev some_inode : Inode
some_inode = record {
  mode = 0x81a4;
  nlink = 1;
  uid = 5;
  gid = 6;
  size = 3000;
  atime = 1;
  mtime = 2;
  ctime = 3;
  db = λ i. i + 100;
  ib = λ i. i;
  flags = 0;
  blocks = 6;
  gen = 9;
}

inode_example : Same (decode_inode (encode_inode some_inode)) some_inode
inode_example = decode-encode_inode some_inode (record {
  mode = omega arith;
  nlink = omega arith;
  uid = omega arith;
  gid = omega arith;
  size = omega arith;
  atime = omega arith;
  mtime = omega arith;
  ctime = omega arith;
  db = λ i h. omega arith;
  ib = λ i h. omega arith;
  flags = omega arith;
  blocks = omega arith;
  gen = omega arith;
})
