-- ===== src/Label/Resize.antt =====
-- A label whose slice `nextufs_label_patch_slice_size_fd` has changed is still one that the code
-- accepts.
use nextufs_offline.Base.{
  ℕ, ◌+◌, ◌^◌, ◌≤◌, ◌<◌, ◌≡◌, ◌⊎◌, refl, ◌∙◌, sym, ap, arith, true, false, some, inl, inr, mul64,
  ◌==◌, ==_self, Bool-cases,
}
use nextufs_offline.Memory.{Bytes, copy, clear, read_be16, read_be32, write_be16}
use nextufs_offline.Memory.Laws.{Outside, read-write_be16, write_be16_elsewhere}
use nextufs_offline.Label.{
  part_count, dl_v3, disktab_off, dt_secsize_off, dt_front_off, dt_rootpart_off, partition_off,
  letter_a, cksum_size, cksum_off, v3_cksum_off, read_be24, write_be24, checksum_be16, summed,
}
use nextufs_offline.Label.Decode.{
  DiskLabel, stored_checksum, checksum_holds, label_fields, decode_partition, label_decode,
  pick_slice, slice_of,
}
use nextufs_offline.Label.Patch.{root_off, patched_label}
use nextufs_offline.Label.Words.{
  write_be24_elsewhere, read-write_be24, read_be16_cong, read_be24_cong, read_be32_cong,
}
use nextufs_offline.Label.Checksum.{checksum_be16_cong}
use nextufs_offline.Label.Fields.{
  IsLabel, IsPartition, used_elim, decode_intro, decode_elim, pick_intro,
}

-- A new checksum does not change what is summed up.
summed-write_be16 : (m : Bytes) (v j : ℕ) → summed (write_be16 m v3_cksum_off v) j ≡ summed m j
unfolding summed clear copy
summed-write_be16 m v j = ground (arith, write_be16_elsewhere m v3_cksum_off v j)

module _ (m : Bytes) (size_blocks : ℕ) where
  abbrev patched : Bytes
  patched = patched_label m size_blocks

  abbrev sized : Bytes
  sized = write_be24 m (root_off m + 3) size_blocks

  patched-sized : (j : ℕ) → Outside j v3_cksum_off 2 → patched j ≡ sized j
  unfolding patched_label
  patched-sized j h = elim (Bool-cases (read_be32 m 0 == dl_v3)) [
    | inl e ↦
        rw e (write_be16_elsewhere sized v3_cksum_off (checksum_be16 (summed sized) cksum_size) j h)
    | inr e ↦ rw e refl
  ]

  patched_elsewhere :
      (j : ℕ) → Outside j (root_off m + 3) 3 → Outside j v3_cksum_off 2 → patched j ≡ m j
  patched_elsewhere j h h' =
      patched-sized j h' ∙ write_be24_elsewhere m (root_off m + 3) size_blocks j h

  -- The part in front of the table of partitions.
  patched_head : (j : ℕ) → j < partition_off 0 → patched j ≡ m j
  patched_head j lt = patched_elsewhere j (inl (omega arith)) (inl (omega arith))

  patched_fields :
      (read_be32 patched 0 ≡ read_be32 m 0)
      × (read_be32 patched 4 ≡ read_be32 m 4)
      × (read_be16 patched (disktab_off + dt_secsize_off)
          ≡ read_be16 m (disktab_off + dt_secsize_off))
      × (read_be16 patched (disktab_off + dt_front_off) ≡ read_be16 m (disktab_off + dt_front_off))
      × (patched (disktab_off + dt_rootpart_off) ≡ m (disktab_off + dt_rootpart_off))
  patched_fields =
      let b = λ (j : ℕ) (lt : j < partition_off 0). patched_head j lt in
      (
        read_be32_cong patched m 0 (b 0 (omega arith)) (b 1 (omega arith)) (b 2 (omega arith))
            (b 3 (omega arith)),
        read_be32_cong patched m 4 (b 4 (omega arith)) (b 5 (omega arith)) (b 6 (omega arith))
            (b 7 (omega arith)),
        read_be16_cong patched m 94 (b 94 (omega arith)) (b 95 (omega arith)),
        read_be16_cong patched m 112 (b 112 (omega arith)) (b 113 (omega arith)),
        b 188 (omega arith),
      )

  -- The checksum of a version 3 label.
  patched_v3 :
      (read_be32 m 0 == dl_v3) ≡ true
      → patched ≡ write_be16 sized v3_cksum_off (checksum_be16 (summed sized) cksum_size)
  unfolding patched_label
  patched_v3 e = rw e refl

  new_sum :
      (read_be32 m 0 == dl_v3) ≡ true
      → checksum_be16 (summed patched) cksum_size ≡ checksum_be16 (summed sized) cksum_size
  new_sum e =
      let sum = checksum_be16 (summed sized) cksum_size in
      ap (λ (x : Bytes). checksum_be16 (summed x) cksum_size) (patched_v3 e)
      ∙ checksum_be16_cong (summed (write_be16 sized v3_cksum_off sum)) (summed sized) cksum_size
          (λ j lt. summed-write_be16 sized sum j)

  new_checksum :
      (read_be32 m 0 == dl_v3) ≡ true
      → read_be16 patched v3_cksum_off ≡ checksum_be16 (summed sized) cksum_size
  unfolding checksum_be16
  new_checksum e =
      ap (λ (x : Bytes). read_be16 x v3_cksum_off) (patched_v3 e)
      ∙ read-write_be16 sized v3_cksum_off (checksum_be16 (summed sized) cksum_size)
      ∙ omega arith

  module _ (i : ℕ) (root : m (disktab_off + dt_rootpart_off) ≡ letter_a + i)
      (lt : i < part_count) where
    root_off_lem : root_off m ≡ partition_off i
    root_off_lem = omega (arith, root)

    -- The bytes of the entry but those of the size.
    patched_entry :
        (k : ℕ)
        → (k < 3) ⊎ (6 ≤ k)
        → k < 46
        → patched (partition_off i + k) ≡ m (partition_off i + k)
    patched_entry k other small =
        patched_elsewhere (partition_off i + k) (ground (arith, root_off_lem)) (ground arith)

    old_checksum : read_be16 patched cksum_off ≡ read_be16 m cksum_off
    old_checksum =
        read_be16_cong patched m cksum_off
          (patched_elsewhere cksum_off (inr (omega (arith, root_off_lem))) (inr (omega arith)))
          (patched_elsewhere (cksum_off + 1) (inr (omega (arith, root_off_lem)))
            (inr (omega arith)))

    patched_size : size_blocks < 2 ^ 24 → read_be24 patched (partition_off i + 3) ≡ size_blocks
    patched_size small =
        let p = partition_off i + 3 in
        read_be24_cong patched sized p (patched-sized p (ground arith))
          (patched-sized (p + 1) (ground arith)) (patched-sized (p + 2) (ground arith))
        ∙ ap (λ (q : ℕ). read_be24 (write_be24 m (q + 3) size_blocks) p) root_off_lem
        ∙ read-write_be24 m p size_blocks small

    patched_others :
        (read_be24 patched (partition_off i) ≡ read_be24 m (partition_off i))
        × (read_be16 patched (partition_off i + 6) ≡ read_be16 m (partition_off i + 6))
        × (read_be16 patched (partition_off i + 8) ≡ read_be16 m (partition_off i + 8))
        × (patched (partition_off i + 0x23) ≡ m (partition_off i + 0x23))
    patched_others =
        let p = partition_off i in
        let b = λ (j k : ℕ) (e : j ≡ p + k) (other : (k < 3) ⊎ (6 ≤ k)) (small : k < 46).
          ap patched e ∙ patched_entry k other small ∙ ap m (sym e) in
        (
          read_be24_cong patched m p (b p 0 (omega arith) (inl (omega arith)) (omega arith))
              (b (p + 1) 1 refl (inl (omega arith)) (omega arith))
              (b (p + 2) 2 refl (inl (omega arith)) (omega arith)),
          read_be16_cong patched m (p + 6) (b (p + 6) 6 refl (inr (omega arith)) (omega arith))
              (b (p + 6 + 1) 7 (omega arith) (inr (omega arith)) (omega arith)),
          read_be16_cong patched m (p + 8) (b (p + 8) 8 refl (inr (omega arith)) (omega arith))
              (b (p + 8 + 1) 9 (omega arith) (inr (omega arith)) (omega arith)),
          patched_entry 0x23 (inr (omega arith)) (omega arith),
        )

    patched-IsPartition :
        0 < size_blocks
        → size_blocks < 0xff_ffff
        → IsPartition m (partition_off i)
        → IsPartition patched (partition_off i)
    patched-IsPartition pos small part =
        let size = patched_size (omega arith) in
        let kept = patched_others in
        record {
          base = ground (arith, part.base, kept);
          size_pos = ground (arith, size);
          size_used = ground (arith, size);
          block_pos = ground (arith, part.block_pos, kept);
          block_used = ground (arith, part.block_used, kept);
          frag_pos = ground (arith, part.frag_pos, kept);
          frag_used = ground (arith, part.frag_used, kept);
          frag_fits = omega (arith, part.frag_fits, kept);
          typed = ground (arith, part.typed, kept);
        }

    patched_slice :
        (off : ℕ)
        → size_blocks < 0xff_ffff
        → slice_of (label_fields patched off) i
          ≡ ((slice_of (label_fields m off) i).0, mul64 size_blocks (label_fields m off).secsize)
    unfolding label_fields decode_partition
    patched_slice off small =
        let size = patched_size (omega arith) in
        let kept = patched_others in rw (patched_fields.2, patched_fields.3, kept.0, size) refl

    patched_sum :
        (stored_checksum m ≡ 0) ⊎ (checksum_holds m ≡ true)
        → (stored_checksum patched ≡ 0) ⊎ (checksum_holds patched ≡ true)
    unfolding stored_checksum checksum_holds
    patched_sum h = elim (Bool-cases (read_be32 m 0 == dl_v3)) [
      | inl e ↦ inr (
          rw (patched_fields.0, e, new_sum e, new_checksum e)
            (==_self (checksum_be16 (summed sized) cksum_size)))
      | inr e ↦ inl (
          rw (patched_fields.0, e, old_checksum)
            (elim h [
              | inl zero_sum ↦ rw e at zero_sum
              | inr holds ↦ let no : false ≡ true = rw e at holds in cc
            ]))
    ]

    patched-IsLabel : (off : ℕ) → IsLabel m off → IsLabel patched off
    patched-IsLabel off label = record {
      versioned = rw (patched_fields.0) label.versioned;
      sectors_pos = rw (patched_fields.2) label.sectors_pos;
      sectors = rw (patched_fields.2) label.sectors;
      placed = rw (patched_fields.1) label.placed;
      summed_up = patched_sum label.summed_up;
    }

-- A label that the code accepts, with a root partition in use, is accepted with a new size of its
-- root partition, of 1 to 2^24 - 2 blocks: the slice begins where it did and has the new size.
pub decode-patched_label :
    (m : Bytes) (size off i size_blocks : ℕ) (dl : DiskLabel)
    → label_decode m size off ≡ some dl
    → dl.rootpartition ≡ letter_a + i
    → i < part_count
    → (dl.part i).present ≡ true
    → 0 < size_blocks
    → size_blocks < 0xff_ffff
    → (dl' : DiskLabel) × (label_decode (patched_label m size_blocks) size off ≡ some dl')
      × (pick_slice dl' ≡ some ((slice_of dl i).0, mul64 size_blocks dl.secsize))
unfolding label_fields decode_partition
decode-patched_label m size off i size_blocks dl h root lt present pos small =
    let (le, label, e) = decode_elim m size off dl h in
    let root' = ap (λ (x : DiskLabel). x.rootpartition) (sym e) ∙ root in
    let part =
      used_elim m (partition_off i)
        (ap (λ (x : DiskLabel). (x.part i).present) (sym e) ∙ present) in
    (
      label_fields (patched_label m size_blocks) off,
      decode_intro (patched_label m size_blocks) size off le
          (patched-IsLabel m size_blocks i root' lt off label),
      pick_intro (patched_label m size_blocks) off i ((patched_fields m size_blocks).4 ∙ root') lt
            (patched-IsPartition m size_blocks i root' lt pos small part)
          ∙ ap some (patched_slice m size_blocks i root' lt off small)
          ∙ ap (λ (x : DiskLabel). some ((slice_of x i).0, mul64 size_blocks x.secsize)) (sym e),
    )
