-- ===== src/Label/Decode.antt =====
-- `nextufs_label_decode` and `nextufs_label_pick_slice` of src/core/label.c.
use nextufs_offline.Base.{
  ℕ, zero, suc, ◌+◌, ◌-◌, ◌%◌, Bool, false, not, ◌&&◌, ◌||◌, Option, none, some, add64, mul64, ltb,
  leb, ◌==◌, if◌then◌else◌,
}
use nextufs_offline.Memory.{Bytes, shift, read_be16, read_be32}
use nextufs_offline.Label.{
  sector_size, decode_size, part_count, dl_v1, dl_v2, dl_v3, disktab_off, v3_cksum_off, cksum_off,
  cksum_size, dt_secsize_off, dt_front_off, dt_rootpart_off, dt_partition_size, partition_off,
  letter_a, read_be24, checksum_be16, summed, fs_type, strcmp_zero, copy_cstr_field, all_bytes,
}

-- `struct nextufs_label_partition`
pub record LabelPartition : Type 0 where
  pub present : Bool
  pub base_blocks : ℕ
  pub size_blocks : ℕ
  pub block_size : ℕ
  pub frag_size : ℕ
  pub fstype : Bytes

-- `struct nextufs_disk_label`
pub record DiskLabel : Type 0 where
  pub label_off : ℕ
  pub version : ℕ
  pub label_blkno : ℕ
  pub secsize : ℕ
  pub front : ℕ
  pub name : Bytes
  pub rootpartition : ℕ
  pub part : ℕ → LabelPartition
  pub checksum : ℕ
  pub checksum_valid : Bool
  pub checksum_present : Bool

-- `nextufs_label_is_version`
abbrev pub is_version : ℕ → Bool
is_version version = version == dl_v1 || version == dl_v2 || version == dl_v3

-- The test of a partition in `nextufs_label_decode`.
unfoldable pub partition_used : Bytes → ℕ → Bool
partition_used m p =
    let base_blocks = read_be24 m p in
    let size_blocks = read_be24 m (p + 3) in
    let block_size = read_be16 m (p + 6) in
    let frag_size = read_be16 m (p + 8) in
    not (all_bytes m p dt_partition_size 0)
    && not (all_bytes m p dt_partition_size 0xff)
    && not (base_blocks == 0xff_ffff)
    && not (size_blocks == 0)
    && not (size_blocks == 0xff_ffff)
    && not (block_size == 0)
    && not (block_size == 0xffff)
    && not (frag_size == 0)
    && not (frag_size == 0xffff)
    && leb frag_size block_size
    && not (copy_cstr_field 9 (shift m (p + 0x23)) 8 0 == 0)

unfoldable pub decode_partition : Bytes → ℕ → LabelPartition
decode_partition m p = record {
  present = partition_used m p;
  base_blocks = read_be24 m p;
  size_blocks = read_be24 m (p + 3);
  block_size = read_be16 m (p + 6);
  frag_size = read_be16 m (p + 8);
  fstype = copy_cstr_field 9 (shift m (p + 0x23)) 8;
}

unfoldable pub stored_checksum : Bytes → ℕ
stored_checksum m =
    if read_be32 m 0 == dl_v3 then read_be16 m v3_cksum_off else read_be16 m cksum_off

unfoldable pub checksum_holds : Bytes → Bool
checksum_holds m =
    if read_be32 m 0 == dl_v3
    then checksum_be16 (summed m) cksum_size == stored_checksum m
    else false

-- What `nextufs_label_decode` stores in the structure.
unfoldable pub label_fields : Bytes → ℕ → DiskLabel
label_fields m off = record {
  label_off = off;
  version = read_be32 m 0;
  label_blkno = read_be32 m 4;
  secsize = read_be16 m (disktab_off + dt_secsize_off);
  front = read_be16 m (disktab_off + dt_front_off);
  name = copy_cstr_field 25 (shift m 0x0c) 24;
  rootpartition = m (disktab_off + dt_rootpart_off);
  part = λ i. decode_partition m (partition_off i);
  checksum = stored_checksum m;
  checksum_valid = checksum_holds m;
  checksum_present = not (stored_checksum m == 0);
}

-- `nextufs_label_decode`; `none` where it returns -1.
unfoldable pub label_decode : Bytes → ℕ → ℕ → Option DiskLabel
label_decode m size off =
    let dl = label_fields m off in
    if ltb size decode_size
    then none
    else if not (is_version dl.version)
    then none
    else if dl.secsize == 0 || not (dl.secsize % sector_size == 0)
    then none
    else if not (mul64 dl.label_blkno sector_size == off)
    then none
    else if dl.checksum_present && not dl.checksum_valid
    then none
    else some dl

abbrev pub usable : LabelPartition → Bool
usable part = part.present && not (part.size_blocks == 0)

-- The base and the size of a slice, in bytes.
abbrev pub slice_of : DiskLabel → ℕ → ℕ × ℕ
slice_of dl i = (
  mul64 (add64 dl.front (dl.part i).base_blocks) dl.secsize,
  mul64 (dl.part i).size_blocks dl.secsize,
)

unfoldable pub pick_by_type : ℕ → DiskLabel → ℕ → Option (ℕ × ℕ)
pick_by_type zero dl i = none
pick_by_type (suc left) dl i =
    let rest = pick_by_type left dl (i + 1) in
    if usable (dl.part i) && strcmp_zero (dl.part i).fstype 0 fs_type
    then some (slice_of dl i)
    else rest

-- `nextufs_label_pick_slice`; `none` where it returns -1.
unfoldable pub pick_slice : DiskLabel → Option (ℕ × ℕ)
pick_slice dl =
    let i = dl.rootpartition - letter_a in
    let by_type = pick_by_type part_count dl 0 in
    if leb letter_a dl.rootpartition
      && ltb dl.rootpartition (letter_a + part_count)
      && usable (dl.part i)
    then some (slice_of dl i)
    else by_type
