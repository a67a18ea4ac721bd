-- ===== src/Examples/Walk.antt =====
-- The walk over the groups of the toy image, which has one.
use nextufs_offline.Base.{◌+◌, refl, arith, ◌==◌, if◌then◌else◌}
use nextufs_offline.Memory.{Bytes}
use nextufs_offline.Io.Returns.{IsReturning, IsTotal}
use nextufs_offline.Cg.{nbfree_off}
use nextufs_offline.Alloc.Fragments.{allocate_frags_anycg}
use nextufs_offline.Alloc.Fragments.Walk.{
  AllFull, IsFirstFit, allocate_frags_anycg-IsFirstFit, allocate_frags_anycg-AllFull,
}
use nextufs_offline.Alloc.Fragments.Totality.{allocate_frags_anycg-IsReturning}
use nextufs_offline.Examples.Code.{code}
use nextufs_offline.Examples.Disk.{toy_os, toy_img, toy_disk}

-- The group counts no whole free block.
abbrev no_blocks : Bytes
no_blocks j = if j == 16384 + nbfree_off + 3 then 0 else toy_disk j

walk_example :
    IsFirstFit toy_os toy_img 0 3 1 0 10 toy_disk
      (allocate_frags_anycg toy_os toy_img 0 3 toy_disk).1
unfolding code
walk_example =
    allocate_frags_anycg-IsFirstFit toy_os toy_img 0 3 10 toy_disk
      (allocate_frags_anycg toy_os toy_img 0 3 toy_disk).1 refl

walk_enospc_example :
    AllFull toy_os toy_img 0 8 1 0 no_blocks (allocate_frags_anycg toy_os toy_img 0 8 no_blocks).1
unfolding code
walk_enospc_example =
    allocate_frags_anycg-AllFull toy_os toy_img 0 8 no_blocks
      (allocate_frags_anycg toy_os toy_img 0 8 no_blocks).1 refl

toy-IsTotal : IsTotal toy_img
unfolding code
toy-IsTotal = record { read = λ size off w h. cc h; write = λ buf size off w h. cc h }

returns_example : IsReturning (allocate_frags_anycg toy_os toy_img 0 3)
returns_example =
    allocate_frags_anycg-IsReturning toy_os toy_img toy-IsTotal 0 3 (omega arith) (omega arith)
