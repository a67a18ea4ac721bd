-- ===== src/Examples/Inodes.antt =====
-- Inodes of the toy image are taken and given back: 0 to 5 are in use.
use nextufs_offline.Base.{◌≡◌, refl, arith, true}
use nextufs_offline.Memory.{Bytes}
use nextufs_offline.Io.{ok}
use nextufs_offline.Alloc.InodeGroup.{
  mark_inode_used, mark_inode_free, allocate_inode_in_group, free_inode_in_group,
}
use nextufs_offline.Alloc.InodeGroup.Safety.{
  IsInodeTaken, IsInodeFreed, allocate_inode_in_group-IsInodeTaken,
  free_inode_in_group-IsInodeFreed,
}
use nextufs_offline.Examples.Code.{code}
use nextufs_offline.Examples.Disk.{toy_os, toy_img, toy_cg, toy_disk}

first_inode : (allocate_inode_in_group toy_os toy_img 0 0x41ed toy_disk).0 ≡ ok 6
unfolding code
first_inode = refl

take_inode_example : IsInodeTaken toy_os toy_img 0 6 toy_disk
unfolding code
take_inode_example =
    allocate_inode_in_group-IsInodeTaken toy_os toy_img 0 0x41ed 6 toy_disk
      (allocate_inode_in_group toy_os toy_img 0 0x41ed toy_disk).1 (omega arith) (omega arith) refl

free_inode_example : IsInodeFreed toy_os toy_img 4 toy_disk
unfolding code
free_inode_example =
    free_inode_in_group-IsInodeFreed toy_os toy_img 4 0x81a4 toy_disk
      (free_inode_in_group toy_os toy_img 4 0x81a4 toy_disk).1 refl

abbrev cycled : Bytes
cycled = mark_inode_free (mark_inode_used toy_cg 7 true 3) 7 true 4
