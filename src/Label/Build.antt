-- ===== src/Label/Build.antt =====
-- `write_label_copy` and `nextufs_label_write_path` of src/core/label.c.
use nextufs_offline.Base.{
  ℕ, zero, suc, ◌+◌, ◌*◌, ◌/◌, not, ◌||◌, List, [], ◌∷◌, u32, u16, ltb, if◌then◌else◌,
}
use nextufs_offline.Memory.{Bytes, upd, clear, zeroed, write_be16, write_be32}
use nextufs_offline.Io.{M, ◌>>=◌, ◌>>◌, pure, require, efbig}
use nextufs_offline.Fd.{Fd, write_exact_fd}
use nextufs_offline.Text.{CString, literal}
use nextufs_offline.Label.{
  sector_size, dl_v3, disktab_off, v3_cksum_off, cksum_size, partition_off, write_be24,
  checksum_be16, fs_type, put_string,
}

-- `memset(m + off, 0xff, n)`
unfoldable pub fill_ff : Bytes → ℕ → ℕ → Bytes
fill_ff m off n j = if ltb j off then m j else if ltb j (off + n) then 0xff else m j

unfoldable pub label_head : ℕ → ℕ → CString → Bytes
label_head off total_blocks label =
    let versioned = write_be32 zeroed 0 dl_v3 in
    let placed = write_be32 versioned 4 (u32 (off / sector_size)) in
    put_string (write_be32 placed 8 total_blocks) 0x0c 24 label

-- `"nextufs"`, `"fixed_rw_scsi"`, `"sdmach"` and `"localhost"`
abbrev pub disk_name : List ℕ
disk_name = 0x6e ∷ 0x65 ∷ 0x78 ∷ 0x74 ∷ 0x75 ∷ 0x66 ∷ 0x73 ∷ []

abbrev pub disk_type : List ℕ
disk_type =
    0x66 ∷ 0x69 ∷ 0x78 ∷ 0x65 ∷ 0x64 ∷ 0x5f ∷ 0x72 ∷ 0x77 ∷ 0x5f ∷ 0x73 ∷ 0x63 ∷ 0x73 ∷ 0x69 ∷ []

abbrev pub boot_file : List ℕ
boot_file = 0x73 ∷ 0x64 ∷ 0x6d ∷ 0x61 ∷ 0x63 ∷ 0x68 ∷ []

abbrev pub host_name : List ℕ
host_name = 0x6c ∷ 0x6f ∷ 0x63 ∷ 0x61 ∷ 0x6c ∷ 0x68 ∷ 0x6f ∷ 0x73 ∷ 0x74 ∷ []

-- The disktab up to the table of partitions; 160 blocks of 1024 bytes lie in front.
unfoldable pub put_disktab : Bytes → ℕ → Bytes
put_disktab m ncyl =
    let dt = disktab_off in
    let named =
      put_string (put_string m dt 24 (literal disk_name)) (dt + 0x018) 24 (literal disk_type) in
    let secsize = write_be16 named (dt + 0x032) 1024 in
    let ntracks = write_be16 secsize (dt + 0x036) 4 in
    let nsectors = write_be16 ntracks (dt + 0x03a) 32 in
    let ncylinders = write_be16 nsectors (dt + 0x03e) ncyl in
    let rpm = write_be16 ncylinders (dt + 0x042) 3600 in
    let front = write_be16 rpm (dt + 0x044) 160 in
    let back = write_be16 front (dt + 0x046) 0 in
    let boot0 = write_be32 (write_be32 back (dt + 0x056) 32) (dt + 0x05a) 96 in
    let booted = put_string boot0 (dt + 0x058) 24 (literal boot_file) in
    let hosted = put_string booted (dt + 0x070) 32 (literal host_name) in
    upd (upd hosted (dt + 0x090) 0x61) (dt + 0x091) 0x62

-- The table of partitions: one entry in use, and all bits set in the others.
unfoldable pub put_partitions : Bytes → ℕ → Bytes
put_partitions m slice_blocks =
    let p = partition_off 0 in
    let blank = clear (fill_ff m p (8 * 0x40)) p 0x40 in
    let sized = write_be24 (write_be24 blank p 0) (p + 0x03) slice_blocks in
    let blocks = write_be16 (write_be16 sized (p + 0x06) 8192) (p + 0x08) 1024 in
    let cpg = write_be16 (upd blocks (p + 0x0a) 0x74) (p + 0x0c) 16 in
    let density = write_be16 cpg (p + 0x0e) 4096 in
    let flags = upd (upd (upd density (p + 0x10) 10) (p + 0x11) 1) (p + 0x22) 1 in
    put_string flags (p + 0x23) 8 (literal fs_type)

-- The checksum is that of the label with block number and checksum 0.
unfoldable pub put_checksum : Bytes → ℕ → Bytes
put_checksum m off =
    let blank = clear (clear m 0x04 4) v3_cksum_off 2 in
    write_be32 (write_be16 blank v3_cksum_off (checksum_be16 blank cksum_size)) 0x04
      (u32 (off / sector_size))

-- The buffer that `write_label_copy` writes.
unfoldable pub label_bytes : ℕ → ℕ → ℕ → ℕ → CString → Bytes
label_bytes off total_blocks slice_blocks ncyl label =
    put_checksum
      (put_partitions (put_disktab (label_head off total_blocks label) ncyl) slice_blocks) off

module _ {W : Type 0} where
  unfoldable pub write_label_copy : Fd W → ℕ → ℕ → ℕ → ℕ → CString → M W (Unit {0})
  write_label_copy fd off total_blocks slice_blocks ncyl label =
      write_exact_fd fd (label_bytes off total_blocks slice_blocks ncyl label) 0x300 off

  -- `left` more copies, from copy `i` on.
  unfoldable pub write_copies : ℕ → Fd W → ℕ → ℕ → ℕ → CString → ℕ → M W (Unit {0})
  write_copies zero fd total_blocks slice_blocks ncyl label i = pure tt
  write_copies (suc left) fd total_blocks slice_blocks ncyl label i =
      write_label_copy fd (i * 7680) total_blocks slice_blocks ncyl label
      >> write_copies left fd total_blocks slice_blocks ncyl label (i + 1)

  -- `nextufs_label_write_path`; `opened` is the call of `open` for this path, `close` that for its descriptor.
  unfoldable pub label_write_path : M W (Fd W) → (Fd W → W → W) → ℕ → ℕ → CString → M W (Unit {0})
  label_write_path opened close image_bytes slice_bytes label = do
    let total_blocks = u32 (image_bytes / 1024)
    let slice_blocks = u32 (slice_bytes / 1024)
    let ncyl32 = total_blocks / (4 * 32)
    require (not (ltb 0xff_ffff total_blocks || ltb 0xff_ffff slice_blocks)) efbig
    require (not (ltb 0xffff ncyl32)) efbig
    fd ← opened
    (λ w.
        let r = write_copies 4 fd total_blocks slice_blocks (u16 ncyl32) label 0 w in
        (r.0, close fd r.1))
