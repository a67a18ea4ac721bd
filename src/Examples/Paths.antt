-- ===== src/Examples/Paths.antt =====
-- A root directory with one file, `a`.
use nextufs_offline.Base.{ℕ, ◌+◌, arith, List, [], ◌∷◌}
use nextufs_offline.Memory.{Bytes, upd, zeroed}
use nextufs_offline.Inode.{decode_inode}
use nextufs_offline.Io.Returns.{IsReturning}
use nextufs_offline.Path.{Node, path_lookup}
use nextufs_offline.Path.Totality.{path_lookup-IsReturning}
use nextufs_offline.Examples.Disk.{toy_os, toy_img}
use nextufs_offline.Examples.Reading.{backend-IsTotal}

-- `"//a/"`
abbrev file_path : List ℕ
file_path = 0x2f ∷ 0x2f ∷ 0x61 ∷ 0x2f ∷ []

-- The inodes 2 and 3, and a directory block at fragment 10.
abbrev two_inodes : Bytes
two_inodes = upd (upd (upd (upd (upd zeroed 20736 0x40) 20750 2) 20779 10) 20864 0x81) 20865 0xa4

abbrev path_disk : Bytes
path_disk = upd (upd (upd (upd two_inodes 10243 3) 10244 2) 10247 1) 10248 0x61

abbrev file_node : Node
file_node = record {
  inode_no = 3;
  inode_off = 20864;
  inode = decode_inode (λ j. path_disk (20864 + j));
}

path_returns_example : IsReturning (path_lookup toy_os toy_img file_path)
path_returns_example =
    path_lookup-IsReturning toy_os toy_img backend-IsTotal (omega arith) file_path
