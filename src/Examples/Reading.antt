-- ===== src/Examples/Reading.antt =====
-- File data and directories of the toy image are read.
use nextufs_offline.Base.{◌<◌, ℕ, ◌+◌, ◌-◌, ◌≤◌, ◌≡◌, refl, arith, min}
use nextufs_offline.Memory.{Bytes, zeroed, copy}
use nextufs_offline.Inode.{Inode}
use nextufs_offline.Io.Returns.{IsReturning, IsTotal, pure-IsReturning}
use nextufs_offline.File.Reading.{IsRead, inode_read_data_ok}
use nextufs_offline.File.Symlink.{
  store_inline_symlink, decode_inline_symlink, decode_inline_symlink-store_inline_symlink,
}
use nextufs_offline.Directory.{find_name_cb}
use nextufs_offline.Examples.Code.{code}
use nextufs_offline.Examples.Disk.{toy_img, toy_disk}

-- Of 7 bytes, in fragment 16.
abbrev small_file : Inode
small_file = record {
  mode = 0x81a4;
  nlink = 1;
  uid = 0;
  gid = 0;
  size = 7;
  atime = 0;
  mtime = 0;
  ctime = 0;
  db = λ i. 16;
  ib = λ i. 0;
  flags = 0;
  blocks = 2;
  gen = 0;
}

abbrev five_read : Bytes
five_read = copy zeroed 0 (λ j. toy_disk (16384 + 2 + j)) 5

read_example :
    (5 ≡ min 9 (7 - 2))
    × ((j : ℕ) → 5 ≤ j → five_read j ≡ zeroed j)
    × IsRead toy_img small_file five_read 2 0 5 0 toy_disk toy_disk
unfolding code
read_example =
    inode_read_data_ok toy_img small_file 2 zeroed 9 5 five_read toy_disk toy_disk (omega arith)
      refl

find_cb-IsReturning :
    (ino : ℕ) (name : Bytes) (len : ℕ)
    → IsReturning (find_name_cb {W = Bytes} zeroed 1 ino name len)
unfolding code
find_cb-IsReturning ino name len = pure-IsReturning _

pub backend-IsTotal : IsTotal toy_img
unfolding code
backend-IsTotal = record { read = λ size off w h. cc h; write = λ buf size off w h. cc h }

abbrev fast_link : Inode
fast_link = record small_file { mode = 0xa1ff; flags = 1 }

abbrev target : Bytes
target j = 47

link_example :
    (b : Bytes) × (decode_inline_symlink (store_inline_symlink fast_link target 7) zeroed 20
      ≡ (7, b))
    × ((k : ℕ) → k < 7 → b k ≡ target k)
    × (b 7 ≡ 0)
unfolding code
link_example =
    decode_inline_symlink-store_inline_symlink fast_link target zeroed 7 20 refl refl (omega arith)
      (omega arith) (omega arith) (λ k. omega arith)
