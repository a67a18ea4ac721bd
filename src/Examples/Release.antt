-- ===== src/Examples/Release.antt =====
-- Runs of the toy image are given back, refused and extended.
use nextufs_offline.Base.{◌+◌, ◌≡◌, refl, arith}
use nextufs_offline.Io.{err, einval}
use nextufs_offline.Cg.{load_cg}
use nextufs_offline.Alloc.Runs.{free_fragment_run, extend_fragment_run}
use nextufs_offline.Alloc.Runs.Safety.{
  IsReleased, IsExtended, free_fragment_run-IsReleased, free_fragment_run_twice,
  extend_fragment_run-IsExtended,
}
use nextufs_offline.Examples.Code.{code}
use nextufs_offline.Examples.Disk.{toy_os, toy_img, toy_disk}

release_example : IsReleased toy_os toy_img 8 2 toy_disk
unfolding code
release_example =
    free_fragment_run-IsReleased toy_os toy_img 8 2 toy_disk
      (free_fragment_run toy_os toy_img 8 2 toy_disk).1 (omega arith) refl

-- Fragment 9 is in use and fragment 10 is free.
release_twice_example :
    free_fragment_run toy_os toy_img 9 2 toy_disk
    ≡ (err einval, (load_cg toy_os toy_img 0 toy_disk).1)
unfolding code
release_twice_example =
    free_fragment_run_twice toy_os toy_img 9 2 10 (λ j. toy_disk (16384 + j)) toy_disk
      (load_cg toy_os toy_img 0 toy_disk).1 (omega arith) (omega arith) refl (omega arith)
      (omega arith) refl

extend_example : IsExtended toy_os toy_img 8 2 4 toy_disk
unfolding code
extend_example =
    extend_fragment_run-IsExtended toy_os toy_img 8 2 4 toy_disk
      (extend_fragment_run toy_os toy_img 8 2 4 toy_disk).1 (omega arith) refl
