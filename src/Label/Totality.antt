-- ===== src/Label/Totality.antt =====
-- The scans over the copies of a label end.
use nextufs_offline.Base.{
  ℕ, zero, suc, ◌+◌, ◌*◌, ◌<◌, ◌≡◌, arith, Bool, true, false, not, ◌&&◌, ◌==◌, u32, ltb, leb, ◌/◌,
  ◌%◌, if◌then◌else◌,
}
use nextufs_offline.Memory.{Bytes}
use nextufs_offline.Io.{M, einval, efbig, enotsup}
use nextufs_offline.Io.Returns.{
  IsReturning, pure-IsReturning, if-IsReturning, bind-IsReturning, require-IsReturning,
  require-then-IsReturning,
}
use nextufs_offline.Fd.{Fd, write_exact_fd}
use nextufs_offline.Fd.Totality.{IsTotalFd, read_exact_fd-IsReturning, write_exact_fd-IsReturning}
use nextufs_offline.Label.{part_count, strcmp_zero, fs_type, validate_size, scan_limit, sector_size}
use nextufs_offline.Label.Patch.{
  check_label, validate_one_label_copy, patch_label, patch_one_label_partition_size, patched_label,
  scan_from, scan_rounds, label_validate_single_slice, label_patch_slice_size, secsize_of,
  is_label_at, root_ok, root_off, root_base, label_partition_present, count_present,
}

scan_from-IsReturning :
    {W : Type 0} (fuel : ℕ) (each : ℕ → M W Bool) (off count : ℕ)
    → ((o : ℕ) → IsReturning (each o))
    → scan_limit < off + fuel * sector_size + validate_size
    → IsReturning (scan_from fuel each off count)
unfolding scan_from
scan_from-IsReturning zero each off count total far =
    let last : leb (off + validate_size) scan_limit ≡ false = ground arith in
    rw last (pure-IsReturning count)
scan_from-IsReturning (suc fuel) each off count total far =
    if-IsReturning (leb (off + validate_size) scan_limit) _ _
      (bind-IsReturning _ _ (total off) (λ found.
        scan_from-IsReturning fuel each (off + sector_size) (if found then suc count else count)
          total (omega arith)))
      (pure-IsReturning count)

module _ {W : Type 0} (fd : Fd W) (total : IsTotalFd fd) where
  check_label-IsReturning :
      (m : Bytes) (label_off slice_base : ℕ)
      → IsReturning (check_label {W = W} m label_off slice_base)
  unfolding check_label
  check_label-IsReturning m label_off slice_base =
      if-IsReturning (is_label_at m label_off) _ _
        (require-then-IsReturning (root_ok m) einval _ (λ a.
          require-then-IsReturning (label_partition_present m (root_off m)) einval _ (λ b.
            require-then-IsReturning (count_present part_count m 0 == 1) enotsup _ (λ c.
              require-then-IsReturning (strcmp_zero m (root_off m + 0x23) fs_type) enotsup _ (λ d.
                require-then-IsReturning (root_base m == slice_base) einval _
                  (λ e. pure-IsReturning true))))))
        (pure-IsReturning false)

  -- Where the system calls return, the check of the labels of a disk returns.
  pub label_validate_single_slice-IsReturning :
      (slice_base : ℕ) → IsReturning (label_validate_single_slice fd slice_base)
  unfolding label_validate_single_slice validate_one_label_copy
  label_validate_single_slice-IsReturning slice_base =
      bind-IsReturning _ _
        (scan_from-IsReturning scan_rounds (validate_one_label_copy fd slice_base) 0 0
          (λ o.
            bind-IsReturning _ _ (read_exact_fd-IsReturning fd total validate_size o)
              (λ m. check_label-IsReturning m o slice_base))
          (omega arith))
        (λ matched. require-IsReturning (not (matched == 0)) einval)

  patch_label-IsReturning :
      (m : Bytes) (label_off slice_base slice_bytes : ℕ)
      → IsReturning (patch_label fd m label_off slice_base slice_bytes)
  unfolding patch_label
  patch_label-IsReturning m label_off slice_base slice_bytes =
      let size_blocks = u32 (slice_bytes / secsize_of m) in
      if-IsReturning
        (is_label_at m label_off
          && root_ok m
          && not (secsize_of m == 0)
          && slice_bytes % secsize_of m == 0)
        _ _
        (require-then-IsReturning (not (ltb 0xff_ffff size_blocks)) efbig _ (λ small.
          if-IsReturning (root_base m == slice_base) _ _
            (bind-IsReturning
              (write_exact_fd fd (patched_label m size_blocks) validate_size label_off) _
              (write_exact_fd-IsReturning fd total (patched_label m size_blocks) validate_size
                label_off)
              (λ u. pure-IsReturning true))
            (pure-IsReturning false)))
        (pure-IsReturning false)

  -- Where the system calls return, the change of the size of a slice returns.
  pub label_patch_slice_size-IsReturning :
      (slice_base slice_bytes : ℕ) → IsReturning (label_patch_slice_size fd slice_base slice_bytes)
  unfolding label_patch_slice_size patch_one_label_partition_size
  label_patch_slice_size-IsReturning slice_base slice_bytes =
      bind-IsReturning _ _
        (scan_from-IsReturning scan_rounds
          (patch_one_label_partition_size fd slice_base slice_bytes) 0 0
          (λ o.
            bind-IsReturning _ _ (read_exact_fd-IsReturning fd total validate_size o)
              (λ m. patch_label-IsReturning m o slice_base slice_bytes))
          (omega arith))
        (λ patched.
          require-then-IsReturning (not (patched == 0)) einval _
            (λ found. pure-IsReturning patched))
