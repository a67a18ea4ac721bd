-- ===== src/Label/RoundTrip.antt =====
-- A label that `write_label_copy` has built is one that the code accepts.
use nextufs_offline.Base.{
  ℕ, ◌+◌, ◌*◌, ◌/◌, ◌%◌, ◌^◌, ◌≤◌, ◌<◌, ◌≡◌, refl, ◌∙◌, ap, arith, true, some, inr, u8, u16, u32,
  mul64, ==_self,
}
use nextufs_offline.Memory.{Bytes, upd, copy, clear, read_be16, read_be32, write_be16, write_be32}
use nextufs_offline.Memory.Laws.{
  read-write_be16, read-write_be32, write_be16_elsewhere, write_be32_elsewhere,
}
use nextufs_offline.Text.{CString}
use nextufs_offline.Label.{
  decode_size, sector_size, dl_v3, disktab_off, dt_secsize_off, dt_front_off, dt_rootpart_off,
  partition_off, letter_a, cksum_size, v3_cksum_off, put_string, read_be24, write_be24,
  checksum_be16, summed,
}
use nextufs_offline.Label.Decode.{
  DiskLabel, stored_checksum, checksum_holds, label_fields, label_decode, pick_slice, slice_of,
  decode_partition,
}
use nextufs_offline.Label.Build.{
  fill_ff, label_head, put_disktab, put_partitions, put_checksum, label_bytes,
}
use nextufs_offline.Label.Checksum.{checksum_be16_cong}
use nextufs_offline.Label.Fields.{IsLabel, IsPartition, decode_intro, pick_intro}

-- The bytes that the checksum does not depend on are the ones that `put_checksum` writes last.
summed-put_checksum :
    (m : Bytes) (off j : ℕ)
    → j < cksum_size
    → summed (put_checksum m off) j ≡ clear (clear m 4 4) v3_cksum_off 2 j
unfolding summed put_checksum clear copy
summed-put_checksum m off j lt =
    let blank = clear (clear m 4 4) v3_cksum_off 2 in
    let sum = checksum_be16 blank cksum_size in
    ground (
      arith,
      write_be32_elsewhere (write_be16 blank v3_cksum_off sum) 4 (u32 (off / sector_size)) j,
      write_be16_elsewhere blank v3_cksum_off sum j,
    )

module _ (off total_blocks slice_blocks ncyl : ℕ) (label : CString) where
  abbrev built : Bytes
  built = label_bytes off total_blocks slice_blocks ncyl label

  -- The fields that the writer sets, as the reader finds them.
  built_fields :
      (read_be32 built 0 ≡ dl_v3)
      × (read_be16 built (disktab_off + dt_secsize_off) ≡ 1024)
      × (read_be16 built (disktab_off + dt_front_off) ≡ 160)
      × (built (disktab_off + dt_rootpart_off) ≡ letter_a)
  unfolding label_bytes put_checksum put_partitions put_disktab label_head fill_ff put_string clear
      copy upd write_be16 write_be24 write_be32 read_be16 read_be32
  built_fields = (refl, refl, refl, refl)

  built_partition :
      (read_be24 built (partition_off 0) ≡ 0)
      × (read_be16 built (partition_off 0 + 6) ≡ 8192)
      × (read_be16 built (partition_off 0 + 8) ≡ 1024)
      × (built (partition_off 0 + 0x23) ≡ 0x34)
  unfolding label_bytes put_checksum put_partitions put_disktab label_head fill_ff put_string clear
      copy upd write_be16 write_be24 write_be32 read_be16 read_be24
  built_partition = (refl, refl, refl, refl)

  built_size : slice_blocks < 2 ^ 24 → read_be24 built (partition_off 0 + 3) ≡ slice_blocks
  unfolding label_bytes put_checksum put_partitions put_disktab label_head fill_ff put_string clear
      copy upd write_be16 write_be24 write_be32 read_be24
  built_size lt =
      let bytes : read_be24 built (partition_off 0 + 3)
          ≡ u8 (slice_blocks / 2 ^ 16) * 2 ^ 16
            + u8 (slice_blocks / 2 ^ 8) * 2 ^ 8
            + u8 slice_blocks =
        refl in
      bytes ∙ omega (arith, lt)

  built_place : off / sector_size < 2 ^ 32 → read_be32 built 4 ≡ off / sector_size
  unfolding label_bytes put_checksum
  built_place lt = read-write_be32 _ 4 (u32 (off / sector_size)) ∙ omega (arith, lt)

  abbrev filled : Bytes
  filled = put_partitions (put_disktab (label_head off total_blocks label) ncyl) slice_blocks

  abbrev blank : Bytes
  blank = clear (clear filled 4 4) v3_cksum_off 2

  stored_bytes : read_be16 built v3_cksum_off ≡ u16 (checksum_be16 blank cksum_size)
  unfolding label_bytes put_checksum write_be32 upd read_be16
  stored_bytes = read-write_be16 blank v3_cksum_off (checksum_be16 blank cksum_size)

  built_checksum : stored_checksum built ≡ checksum_be16 blank cksum_size
  unfolding stored_checksum checksum_be16
  built_checksum = rw (built_fields.0) (stored_bytes ∙ omega arith)

  built_sum : checksum_holds built ≡ true
  unfolding checksum_holds label_bytes
  built_sum =
      let same =
        checksum_be16_cong (summed built) blank cksum_size (summed-put_checksum filled off) in
      rw (built_fields.0, same, built_checksum) (==_self (checksum_be16 blank cksum_size))

  pub built-IsLabel : off % sector_size ≡ 0 → off / sector_size < 2 ^ 32 → IsLabel built off
  built-IsLabel aligned near = record {
    versioned = rw (built_fields.0) refl;
    sectors_pos = ground (arith, built_fields);
    sectors = rw (built_fields.1) refl;
    placed = rw (built_place near) (omega (arith, aligned, near));
    summed_up = inr built_sum;
  }

  pub built-IsPartition :
      0 < slice_blocks → slice_blocks < 0xff_ffff → IsPartition built (partition_off 0)
  built-IsPartition pos lt =
      let size = built_size (omega arith) in
      record {
        base = ground (arith, built_partition);
        size_pos = ground (arith, size);
        size_used = ground (arith, size);
        block_pos = ground (arith, built_partition);
        block_used = ground (arith, built_partition);
        frag_pos = ground (arith, built_partition);
        frag_used = ground (arith, built_partition);
        frag_fits = omega (arith, built_partition);
        typed = ground (arith, built_partition);
      }

  built_slice :
      slice_blocks < 0xff_ffff → slice_of (label_fields built off) 0 ≡ (163840, slice_blocks * 1024)
  unfolding label_fields decode_partition
  built_slice lt =
      let size = built_size (omega arith) in
      let blocks : mul64 slice_blocks 1024 ≡ slice_blocks * 1024 = omega (arith, lt) in
      rw (built_fields.1, built_fields.2, built_partition.0, size, blocks) refl

  -- A label written for an offset of whole sectors in the range of the field, with a slice of 1 to
  -- 2^24 - 2 blocks, is accepted at that offset, and its slice begins behind the front porch of
  -- 160 KiB and has the blocks asked for.
  pub decode-label_bytes :
      (size : ℕ)
      → decode_size ≤ size
      → off % sector_size ≡ 0
      → off / sector_size < 2 ^ 32
      → 0 < slice_blocks
      → slice_blocks < 0xff_ffff
      → (dl : DiskLabel) × (label_decode built size off ≡ some dl)
        × (pick_slice dl ≡ some (163840, slice_blocks * 1024))
  decode-label_bytes size le aligned near pos lt = (
    label_fields built off,
    decode_intro built size off le (built-IsLabel aligned near),
    pick_intro built off 0 (built_fields.3) (omega arith) (built-IsPartition pos lt)
        ∙ ap some (built_slice lt),
  )
