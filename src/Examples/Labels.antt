-- ===== src/Examples/Labels.antt =====
-- A label for a disk of 1000 blocks with a slice of 840, and a file that begins with it.
use nextufs_offline.Base.{
  ℕ, ◌+◌, ◌*◌, ◌≤◌, ◌≡◌, refl, arith, Bool, true, [], ◌∷◌, some, ltb, if◌then◌else◌, mul64,
}
use nextufs_offline.Memory.{Bytes}
use nextufs_offline.Text.{CString, literal}
use nextufs_offline.Label.{sector_size, validate_size, scan_limit, checksum_be16, partition_off}
use nextufs_offline.Label.Decode.{
  DiskLabel, label_fields, label_decode, pick_slice, slice_of, decode_partition,
}
use nextufs_offline.Label.Build.{label_bytes}
use nextufs_offline.Label.Patch.{patched_label}
use nextufs_offline.Label.Checksum.{words_sum, end_around, checksum_be16_lem}
use nextufs_offline.Label.Fields.{decode_intro, used_intro}
use nextufs_offline.Label.RoundTrip.{built-IsLabel, built-IsPartition, decode-label_bytes}
use nextufs_offline.Label.Resize.{decode-patched_label}
use nextufs_offline.Label.Scan.{IsChecked, label_validate_single_slice_ok}
use nextufs_offline.Examples.Code.{code}
use nextufs_offline.Examples.Virtual.{memory_fd, memory_fd-IsFile, file_of}

-- `"disk"`
abbrev disk : CString
disk = literal (0x64 ∷ 0x69 ∷ 0x73 ∷ 0x6b ∷ [])

abbrev disk_label : Bytes
disk_label = label_bytes 0 1000 840 7 disk

abbrev ones : Bytes
ones j = 0xff

checksum_example : checksum_be16 ones (2 * 3) ≡ end_around (words_sum ones 0 3)
checksum_example = checksum_be16_lem ones 3 (λ j lt. omega arith)

label_example :
    (dl : DiskLabel) × (label_decode (label_bytes 7680 1000 840 7 disk) 8192 7680 ≡ some dl)
    × (pick_slice dl ≡ some (163840, 840 * 1024))
label_example =
    decode-label_bytes 7680 1000 840 7 disk 8192 (omega arith) refl (omega arith) (omega arith)
      (omega arith)

root_letter : (label_fields disk_label 0).rootpartition ≡ 97 + 0
unfolding code
root_letter = refl

resize_example :
    (dl : DiskLabel) × (label_decode (patched_label disk_label 500) 8192 0 ≡ some dl)
    × (pick_slice dl
        ≡ some (
          (slice_of (label_fields disk_label 0) 0).0,
          mul64 500 (label_fields disk_label 0).secsize,
        ))
unfolding label_fields decode_partition
resize_example =
    decode-patched_label disk_label 8192 0 0 500 (label_fields disk_label 0)
      (decode_intro disk_label 8192 0 (omega arith)
        (built-IsLabel 0 1000 840 7 disk refl (omega arith)))
      root_letter (omega arith)
      (used_intro disk_label (partition_off 0)
        (built-IsPartition 0 1000 840 7 disk (omega arith) (omega arith)))
      (omega arith) (omega arith)

abbrev labelled : Bytes
labelled j = if ltb j 768 then disk_label j else 0

validate_example :
    ((k : ℕ)
      → k * sector_size + validate_size ≤ scan_limit
      → (found : Bool) × IsChecked labelled 163840 (k * sector_size) found)
    × ((o : ℕ) × IsChecked labelled 163840 o true)
unfolding code
validate_example =
    label_validate_single_slice_ok memory_fd file_of memory_fd-IsFile 163840 labelled labelled refl
