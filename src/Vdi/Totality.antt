-- ===== src/Vdi/Totality.antt =====
-- Reads and writes of a VDI end.
use native.Mathlib.Nat.{mod-lt}
use nextufs_offline.Base.{
  ℕ, zero, suc, ◌+◌, ◌-◌, ◌*◌, ◌/◌, ◌%◌, ◌≤◌, ◌<◌, ◌≡◌, refl, arith, false, not, ◌||◌, ◌==◌, ltb,
  leb, Option, none, some, add32, add64, mul64, u32, if◌then◌else◌, inl, inr, Bool-cases,
}
use nextufs_offline.Memory.{Bytes, copy, shift, zeroed}
use nextufs_offline.Io.{M, ◌>>=◌, ◌>>◌, eio, enospc, Os, read_exact, malloc_or_fail}
use nextufs_offline.Io.Returns.{
  IsReturning, pure-IsReturning, if-IsReturning, bind-IsReturning, or_fail-IsReturning,
  require-then-IsReturning, malloc_or_fail-IsReturning,
}
use nextufs_offline.Fd.{write_exact_fd}
use nextufs_offline.Fd.Totality.{IsTotalFd, read_exact_fd-IsReturning, write_exact_fd-IsReturning}
use nextufs_offline.Vdi.{
  Vdi, VdiState, Parent, unallocated, blocks_alloc_off, zero_entry, lift_vdi, vdi_allocated,
  set_entry, read_parent, read_mapped, vdi_read_from, vdi_read, vdi_write_from, vdi_write,
  vdi_write_le32, inherited, write_mapped, write_extra, allocate_block, materialize_block,
  round_chunk, in_disk, data_file_off, block_file_off,
}

lift_vdi-IsReturning : {W A : Type 0} (m : M W A) → IsReturning m → IsReturning (lift_vdi m)
lift_vdi-IsReturning m h st = h st.world

lift_vdi-then :
    {W A B : Type 0} (m : M W A) (k : A → M (VdiState W) B)
    → IsReturning m
    → ((a : A) → IsReturning (k a))
    → IsReturning (lift_vdi m >>= k)
lift_vdi-then m k h = bind-IsReturning (lift_vdi m) k (lift_vdi-IsReturning m h)

module _ {W : Type 0} (vdi : Vdi W) (total : IsTotalFd vdi.fd) (pos : 0 < vdi.block_size)
    (parents : (p : Parent W) (size off : ℕ)
      → vdi.parent ≡ some p
      → IsReturning (read_exact p.image size off)) where
  -- A round moves at least one byte.
  round_chunk_pos : (g left : ℕ) → 0 < left → 0 < round_chunk vdi g left
  round_chunk_pos g left lt = ground (arith, mod-lt g pos)

  read_parent-IsReturning :
      (o : Option (Parent W)) (g chunk : ℕ)
      → vdi.parent ≡ o
      → IsReturning (read_parent vdi o g chunk)
  unfolding read_parent
  read_parent-IsReturning none g chunk e = pure-IsReturning zeroed
  read_parent-IsReturning (some p) g chunk e =
      if-IsReturning (leb p.image_size g) _ _ (pure-IsReturning zeroed) (
        bind-IsReturning _ _ (or_fail-IsReturning eio _ (parents p _ g e))
          (λ b. pure-IsReturning (copy zeroed 0 b _)))

  read_mapped-IsReturning :
      (entry g off chunk : ℕ) → IsReturning (read_mapped vdi entry g off chunk)
  unfolding read_mapped
  read_mapped-IsReturning entry g off chunk =
      if-IsReturning (entry == unallocated) _ _ (read_parent-IsReturning vdi.parent g chunk refl) (
        if-IsReturning (entry == zero_entry) _ _ (pure-IsReturning zeroed) (
          or_fail-IsReturning eio _
            (read_exact_fd-IsReturning vdi.fd total chunk (data_file_off vdi entry off))))

  vdi_read_from-IsReturning :
      (fuel size offset done : ℕ) (out : Bytes)
      → size ≤ fuel + done
      → IsReturning (vdi_read_from vdi fuel size offset done out)
  unfolding vdi_read_from
  vdi_read_from-IsReturning zero size offset done out le =
      let last : ltb done size ≡ false = ground arith in rw last (pure-IsReturning out)
  vdi_read_from-IsReturning (suc fuel) size offset done out le = elim (Bool-cases (ltb done size)) [
    | inr e ↦ rw e (pure-IsReturning out)
    | inl e ↦
        let g = add64 offset done in
        let chunk = round_chunk vdi g (size - done) in
        let moved : 0 < chunk = round_chunk_pos g (size - done) (ground arith) in
        rw e (
          require-then-IsReturning (ltb (u32 (g / vdi.block_size)) vdi.block_count) eio _
            (λ known st.
              bind-IsReturning
                (lift_vdi (
                  read_mapped vdi (st.block_map (u32 (g / vdi.block_size))) g (g % vdi.block_size)
                    chunk))
                _
                (lift_vdi-IsReturning
                  (read_mapped vdi (st.block_map (u32 (g / vdi.block_size))) g (g % vdi.block_size)
                    chunk)
                  (read_mapped-IsReturning (st.block_map (u32 (g / vdi.block_size))) g
                    (g % vdi.block_size) chunk))
                (λ b.
                  vdi_read_from-IsReturning fuel size offset (done + chunk) (copy out done b chunk)
                    (omega (arith, le, moved)))
                st))
  ]

  -- Where the calls of the system and the reads of the parent return, and the size of a block is not
  -- 0, a read of a VDI returns.
  pub vdi_read-IsReturning : (size offset : ℕ) → IsReturning (vdi_read vdi size offset)
  unfolding vdi_read
  vdi_read-IsReturning size offset =
      require-then-IsReturning (in_disk vdi size offset) eio _
        (λ inside. vdi_read_from-IsReturning size size offset 0 zeroed (omega arith))

  module _ (os : Os W) where
    inherited-IsReturning :
        (o : Option (Parent W)) (entry g : ℕ)
        → vdi.parent ≡ o
        → IsReturning (inherited vdi o entry g)
    unfolding inherited
    inherited-IsReturning none entry g e = pure-IsReturning zeroed
    inherited-IsReturning (some p) entry g e =
        if-IsReturning (entry == unallocated) _ _ (parents p vdi.block_size g e)
          (pure-IsReturning zeroed)

    write_extra-IsReturning : (off : ℕ) → IsReturning (write_extra vdi os off)
    unfolding write_extra
    write_extra-IsReturning off = if-IsReturning (vdi.block_extra == 0) _ _ (pure-IsReturning tt) (
        bind-IsReturning _ _ (malloc_or_fail-IsReturning os vdi.block_extra)
          (λ u. write_exact_fd-IsReturning vdi.fd total zeroed vdi.block_extra off))

    vdi_write_le32-IsReturning : (off value : ℕ) → IsReturning (vdi_write_le32 vdi off value)
    unfolding vdi_write_le32
    vdi_write_le32-IsReturning off value = write_exact_fd-IsReturning vdi.fd total _ 4 off

    -- The writes to the map and to the header.
    numbers-IsReturning :
        (index new_entry : ℕ)
        → IsReturning (
            lift_vdi (vdi_write_le32 vdi (add64 vdi.map_offset (index * 4)) new_entry)
            >> (set_entry index new_entry
                >> (vdi_allocated
                    >>= (λ count. lift_vdi (vdi_write_le32 vdi blocks_alloc_off count)))))
    numbers-IsReturning index new_entry =
        lift_vdi-then (vdi_write_le32 vdi (add64 vdi.map_offset (index * 4)) new_entry) _
          (vdi_write_le32-IsReturning (add64 vdi.map_offset (index * 4)) new_entry)
          (λ a st.
            lift_vdi-IsReturning (vdi_write_le32 vdi blocks_alloc_off (add32 st.blocks_allocated 1))
              (vdi_write_le32-IsReturning blocks_alloc_off (add32 st.blocks_allocated 1))
              (set_entry index new_entry st).1)

    allocate_block-IsReturning :
        (index map_entry new_entry : ℕ)
        → IsReturning (allocate_block vdi os index map_entry new_entry)
    unfolding allocate_block
    allocate_block-IsReturning index map_entry new_entry =
        let file_off = block_file_off vdi new_entry in
        let guest_off = mul64 index vdi.block_size in
        let room = if vdi.block_size == 0 then 1 else vdi.block_size in
        lift_vdi-then (malloc_or_fail os room) _ (malloc_or_fail-IsReturning os room) (λ a.
          lift_vdi-then (inherited vdi vdi.parent map_entry guest_off) _
            (inherited-IsReturning vdi.parent map_entry guest_off refl)
            (λ block.
              lift_vdi-then (write_extra vdi os file_off) _ (write_extra-IsReturning file_off) (λ b.
                lift_vdi-then
                  (write_exact_fd vdi.fd block vdi.block_size (add64 file_off vdi.block_extra)) _
                  (write_exact_fd-IsReturning vdi.fd total block vdi.block_size
                    (add64 file_off vdi.block_extra))
                  (λ c. numbers-IsReturning index new_entry))))

    materialize_block-IsReturning : (index : ℕ) → IsReturning (materialize_block vdi os index)
    unfolding materialize_block
    materialize_block-IsReturning index st =
        if-IsReturning (st.block_map index == unallocated || st.block_map index == zero_entry) _ _
          (require-then-IsReturning (not (leb vdi.block_count st.blocks_allocated)) enospc _
            (λ room. allocate_block-IsReturning index (st.block_map index) st.blocks_allocated))
          (pure-IsReturning tt) st

    write_mapped-IsReturning :
        (entry off : ℕ) (buf : Bytes) (chunk : ℕ)
        → IsReturning (write_mapped vdi entry off buf chunk)
    unfolding write_mapped
    write_mapped-IsReturning entry off buf chunk =
        require-then-IsReturning (not (entry == unallocated || entry == zero_entry)) eio _
          (λ placed.
            write_exact_fd-IsReturning vdi.fd total buf chunk (data_file_off vdi entry off))

    vdi_write_from-IsReturning :
        (fuel : ℕ) (buf : Bytes) (size offset done : ℕ)
        → size ≤ fuel + done
        → IsReturning (vdi_write_from vdi os fuel buf size offset done)
    unfolding vdi_write_from
    vdi_write_from-IsReturning zero buf size offset done le =
        let last : ltb done size ≡ false = ground arith in rw last (pure-IsReturning tt)
    vdi_write_from-IsReturning (suc fuel) buf size offset done le =
        elim (Bool-cases (ltb done size)) [
          | inr e ↦ rw e (pure-IsReturning tt)
          | inl e ↦
              let g = add64 offset done in
              let index = u32 (g / vdi.block_size) in
              let chunk = round_chunk vdi g (size - done) in
              let moved : 0 < chunk = round_chunk_pos g (size - done) (ground arith) in
              rw e (
                require-then-IsReturning (ltb index vdi.block_count) eio _ (λ known.
                  bind-IsReturning (materialize_block vdi os index) _
                    (materialize_block-IsReturning index)
                    (λ u st.
                      bind-IsReturning
                        (lift_vdi (
                          write_mapped vdi (st.block_map index) (g % vdi.block_size)
                            (shift buf done) chunk))
                        _
                        (lift_vdi-IsReturning
                          (write_mapped vdi (st.block_map index) (g % vdi.block_size)
                            (shift buf done) chunk)
                          (write_mapped-IsReturning (st.block_map index) (g % vdi.block_size)
                            (shift buf done) chunk))
                        (λ u'.
                          vdi_write_from-IsReturning fuel buf size offset (done + chunk)
                            (omega (arith, le, moved)))
                        st)))
        ]

    -- Where the calls of the system and the reads of the parent return, and the size of a block is
    -- not 0, a write to a VDI returns.
    pub vdi_write-IsReturning :
        (buf : Bytes) (size offset : ℕ) → IsReturning (vdi_write vdi os buf size offset)
    unfolding vdi_write
    vdi_write-IsReturning buf size offset =
        require-then-IsReturning (in_disk vdi size offset) eio _
          (λ inside. vdi_write_from-IsReturning size buf size offset 0 (omega arith))
