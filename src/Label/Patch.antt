-- ===== src/Label/Patch.antt =====
-- The scans of src/core/label.c over all copies of the label of a disk: the check that there is one
-- slice, and the change of its size.
use nextufs_offline.Base.{
  ℕ, zero, suc, ◌+◌, ◌-◌, ◌/◌, ◌%◌, Bool, true, false, not, ◌&&◌, ◌||◌, u32, add64, mul64, ltb, leb,
  ◌==◌, if◌then◌else◌,
}
use nextufs_offline.Memory.{Bytes, read_be16, read_be32, write_be16}
use nextufs_offline.Io.{M, ◌>>=◌, ◌>>◌, pure, require, out_of_fuel, einval, efbig, enotsup}
use nextufs_offline.Fd.{Fd, read_exact_fd, write_exact_fd}
use nextufs_offline.Label.{
  sector_size, scan_limit, validate_size, part_count, dl_v3, disktab_off, v3_cksum_off, cksum_size,
  dt_secsize_off, dt_front_off, dt_rootpart_off, partition_off, letter_a, read_be24, write_be24,
  checksum_be16, summed, fs_type, strcmp_zero, all_bytes,
}
use nextufs_offline.Label.Decode.{is_version}

-- `label_partition_present`
unfoldable pub label_partition_present : Bytes → ℕ → Bool
label_partition_present m p =
    let base = read_be24 m p in
    let size = read_be24 m (p + 3) in
    let bsize = read_be16 m (p + 6) in
    let fsize = read_be16 m (p + 8) in
    not (
      base == 0xff_ffff
      || size == 0
      || size == 0xff_ffff
      || bsize == 0
      || bsize == 0xffff
      || fsize == 0
      || fsize == 0xffff
      || all_bytes m (p + 0x23) 8 0)

unfoldable pub count_present : ℕ → Bytes → ℕ → ℕ
count_present zero m i = 0
count_present (suc left) m i =
    let rest = count_present left m (i + 1) in
    if label_partition_present m (partition_off i) then suc rest else rest

-- The tests that make a buffer a label at this offset.
abbrev pub is_label_at : Bytes → ℕ → Bool
is_label_at m off = is_version (read_be32 m 0) && mul64 (read_be32 m 4) sector_size == off

abbrev pub secsize_of : Bytes → ℕ
secsize_of m = read_be16 m (disktab_off + dt_secsize_off)

abbrev pub rootpart_of : Bytes → ℕ
rootpart_of m = m (disktab_off + dt_rootpart_off)

abbrev pub root_ok : Bytes → Bool
root_ok m = leb letter_a (rootpart_of m) && ltb (rootpart_of m) (letter_a + part_count)

-- The entry of the root partition.
abbrev pub root_off : Bytes → ℕ
root_off m = partition_off (rootpart_of m - letter_a)

-- Where the root partition begins, in bytes.
abbrev pub root_base : Bytes → ℕ
root_base m =
    mul64 (add64 (read_be16 m (disktab_off + dt_front_off)) (read_be24 m (root_off m)))
      (secsize_of m)

-- The label with another size of its root partition.
unfoldable pub patched_label : Bytes → ℕ → Bytes
patched_label m size_blocks =
    let sized = write_be24 m (root_off m + 3) size_blocks in
    if read_be32 m 0 == dl_v3
    then write_be16 sized v3_cksum_off (checksum_be16 (summed sized) cksum_size)
    else sized

-- More rounds than a scan takes.
abbrev pub scan_rounds : ℕ
scan_rounds = 256

module _ {W : Type 0} where
  -- The tests of `validate_one_label_copy` behind its read.
  unfoldable pub check_label : Bytes → ℕ → ℕ → M W Bool
  check_label m label_off slice_base =
      let checks : M W Bool = (do
        require (root_ok m) einval
        require (label_partition_present m (root_off m)) einval
        require (count_present part_count m 0 == 1) enotsup
        require (strcmp_zero m (root_off m + 0x23) fs_type) enotsup
        require (root_base m == slice_base) einval
        pure true) in
      if is_label_at m label_off then checks else pure false

  unfoldable pub validate_one_label_copy : Fd W → ℕ → ℕ → M W Bool
  validate_one_label_copy fd slice_base label_off = do
    m ← read_exact_fd fd validate_size label_off
    check_label m label_off slice_base

  -- What `patch_one_label_partition_size` does behind its read.
  unfoldable pub patch_label : Fd W → Bytes → ℕ → ℕ → ℕ → M W Bool
  patch_label fd m label_off slice_base slice_bytes =
      let size_blocks = u32 (slice_bytes / secsize_of m) in
      let change : M W Bool =
        write_exact_fd fd (patched_label m size_blocks) validate_size label_off >> pure true in
      let sized : M W Bool = (do
        require (not (ltb 0xff_ffff size_blocks)) efbig
        if root_base m == slice_base then change else pure false) in
      if is_label_at m label_off
        && root_ok m
        && not (secsize_of m == 0)
        && slice_bytes % secsize_of m == 0
      then sized
      else pure false

  unfoldable pub patch_one_label_partition_size : Fd W → ℕ → ℕ → ℕ → M W Bool
  patch_one_label_partition_size fd slice_base slice_bytes label_off = do
    m ← read_exact_fd fd validate_size label_off
    patch_label fd m label_off slice_base slice_bytes

  -- The loop of both scans; `count` copies are found so far.
  unfoldable pub scan_from : ℕ → (ℕ → M W Bool) → ℕ → ℕ → M W ℕ
  scan_from zero each off count =
      if leb (off + validate_size) scan_limit then out_of_fuel else pure count
  scan_from (suc fuel) each off count =
      let round : M W ℕ = (do
        found ← each off
        scan_from fuel each (off + sector_size) (if found then suc count else count)) in
      if leb (off + validate_size) scan_limit then round else pure count

  -- `nextufs_label_validate_single_slice_fd`
  unfoldable pub label_validate_single_slice : Fd W → ℕ → M W (Unit {0})
  label_validate_single_slice fd slice_base = do
    matched ← scan_from scan_rounds (validate_one_label_copy fd slice_base) 0 0
    require (not (matched == 0)) einval

  -- `nextufs_label_patch_slice_size_fd`, with the number of copies that it reports.
  unfoldable pub label_patch_slice_size : Fd W → ℕ → ℕ → M W ℕ
  label_patch_slice_size fd slice_base slice_bytes = do
    patched ← scan_from scan_rounds (patch_one_label_partition_size fd slice_base slice_bytes) 0 0
    require (not (patched == 0)) einval
    pure patched
