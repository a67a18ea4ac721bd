-- ===== src/Examples/Checker.antt =====
-- The checker's tables at the second block of the toy map, whose fragments 2 to 4 are free.
use nextufs_offline.Base.{
  ℕ, ◌+◌, ◌*◌, ◌<◌, ◌≡◌, refl, arith, inl, inr, some, ◌==◌, if◌then◌else◌, holds_upto,
  holds_upto-at, same, same_eq,
}
use nextufs_offline.Memory.{zeroed}
use nextufs_offline.Bitmap.{set_run_bits, count_free_runs_in_block, test_bit}
use nextufs_offline.Cg.{free_off}
use nextufs_offline.Fsck.{isblock, fragacct}
use nextufs_offline.Fsck.Blocks.{isblock-set_run_bits}
use nextufs_offline.Fsck.Accounting.{fragacct-count_free_runs_in_block}
use nextufs_offline.Examples.Code.{code}
use nextufs_offline.Examples.Disk.{toy_cg}

isblock_example :
    isblock 4 (λ j. if j == 1 then 0xf0 else 0) 3
    ≡ some (set_run_bits (λ j. if j == 1 then 0xf0 else 0) 0 (3 * 4) 4)
isblock_example =
    isblock-set_run_bits (λ j. if j == 1 then 0xf0 else 0) 4 3 (λ j. ground arith)
      (inr (inr (inl refl)))

same_bits : (k : ℕ) → k < 8 → test_bit toy_cg free_off (8 + k) ≡ test_bit (λ j. 0x1c) 0 k
unfolding code holds_upto same
same_bits k h = same_eq _ _ (
    holds_upto-at (λ k. same (test_bit toy_cg free_off (8 + k)) (test_bit (λ j. 0x1c) 0 k)) 8 k h
      refl)

fragacct_example : fragacct 8 0x1c zeroed 1 3 ≡ count_free_runs_in_block toy_cg free_off 8 8 3
fragacct_example =
    fragacct-count_free_runs_in_block toy_cg free_off 8 8 0x1c 3 (inr (inr (inr refl)))
      (omega arith) (omega arith) same_bits
