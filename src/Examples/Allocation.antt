-- ===== src/Examples/Allocation.antt =====
-- Fragments of the toy image are taken and given back.
use nextufs_offline.Base.{◌≤◌, ◌≡◌, refl, arith}
use nextufs_offline.Memory.{Bytes, read_be32}
use nextufs_offline.Io.{ok}
use nextufs_offline.Cg.{ndblk_off, load_cg}
use nextufs_offline.Alloc.Fragments.{allocate_frags_in_group}
use nextufs_offline.Alloc.Fragments.Safety.{IsAllocated, allocate_frags_in_group-IsAllocated}
use nextufs_offline.Examples.Code.{code}
use nextufs_offline.Examples.Disk.{toy_os, toy_img, toy_disk}

-- Three fragments come from the partial block, at fragment 10.
take_three : (allocate_frags_in_group toy_os toy_img 0 3 toy_disk).0 ≡ ok 10
unfolding code
take_three = refl

-- A whole block is split where the partial one is too small.
take_five : (allocate_frags_in_group toy_os toy_img 0 5 toy_disk).0 ≡ ok 16
unfolding code
take_five = refl

allocate_example :
    (buf : Bytes) × (w₁ : Bytes) × (load_cg toy_os toy_img 0 toy_disk ≡ (ok buf, w₁))
    × (read_be32 buf ndblk_off ≤ 32)
    × IsAllocated toy_os toy_img 0 buf 3 (read_be32 buf ndblk_off) 10
unfolding code
allocate_example =
    allocate_frags_in_group-IsAllocated toy_os toy_img 0 3 10 toy_disk
      (allocate_frags_in_group toy_os toy_img 0 3 toy_disk).1 (omega arith) (omega arith) refl
