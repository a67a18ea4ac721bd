-- ===== src/Vdi.antt =====
-- The two backends of src/core/image.c: a raw file, and a VirtualBox VDI, whose blocks are found
-- through a map and may be missing, or lie in a parent image.
pub mod Reading
pub mod Placing
pub mod Materialize
pub mod Writing
pub mod Totality
pub mod View
use nextufs_offline.Base.{
  ℕ, zero, suc, ◌+◌, ◌-◌, ◌*◌, ◌/◌, ◌%◌, ◌^◌, Bool, not, ◌||◌, ◌&&◌, Option, none, some, u32, u8,
  add32, add64, mul64, sub64, ltb, leb, ◌==◌, if◌then◌else◌,
}
use nextufs_offline.Memory.{Bytes, upd, copy, shift, zeroed}
use nextufs_offline.Io.{
  ok, M, ◌>>=◌, ◌>>◌, pure, fail, require, or_fail, out_of_fuel, eio, enospc, Os, Image, Backend,
  read_exact, malloc_or_fail,
}
use nextufs_offline.Fd.{Fd, read_exact_fd, write_exact_fd}

-- `nextufs_raw_backend_ops`
abbrev pub raw_backend_ops : {W : Type 0} → Fd W → Backend W
raw_backend_ops fd = record {
  read = some (read_exact_fd fd);
  write = some (write_exact_fd fd);
  fsync = some fd.fsync;
}

abbrev pub unallocated : ℕ
unallocated = 0xffff_ffff

abbrev pub zero_entry : ℕ
zero_entry = 0xffff_fffe

abbrev pub blocks_alloc_off : ℕ
blocks_alloc_off = 0x184

-- The parent of a differencing image, and its `image_size`.
pub record Parent (W : Type 0) : Type 0 where
  pub image : Image W
  pub image_size : ℕ

-- The fields of `struct nextufs_vdi_backend` that no operation changes; `parent` is `none` where
-- `has_parent` is 0.
pub record Vdi (W : Type 0) : Type 0 where
  pub fd : Fd W
  pub map_offset : ℕ
  pub data_offset : ℕ
  pub block_size : ℕ
  pub block_extra : ℕ
  pub block_count : ℕ
  pub disk_size : ℕ
  pub parent : Option (Parent W)

-- The fields that a write changes, and the world.
pub record VdiState (W : Type 0) : Type 0 where
  pub block_map : ℕ → ℕ
  pub blocks_allocated : ℕ
  pub world : W

-- A call that leaves the fields alone.
abbrev pub lift_vdi : {W A : Type 0} → M W A → M (VdiState W) A
lift_vdi m st = ((m st.world).0, record st { world = (m st.world).1 })

abbrev pub vdi_map : {W : Type 0} → M (VdiState W) (ℕ → ℕ)
vdi_map st = (ok st.block_map, st)

abbrev pub vdi_allocated : {W : Type 0} → M (VdiState W) ℕ
vdi_allocated st = (ok st.blocks_allocated, st)

abbrev pub set_entry : {W : Type 0} → ℕ → ℕ → M (VdiState W) (Unit {0})
set_entry block_index entry st = (
  ok tt,
  record st {
    block_map = upd st.block_map block_index entry;
    blocks_allocated = add32 st.blocks_allocated 1;
  },
)

-- A little-endian number.
abbrev pub le32 : ℕ → Bytes
le32 value =
    upd (upd (upd (upd zeroed 0 (u8 value)) 1 (u8 (value / 2 ^ 8))) 2 (u8 (value / 2 ^ 16))) 3
      (u8 (value / 2 ^ 24))

module _ {W : Type 0} (vdi : Vdi W) where
  abbrev pub stride : ℕ
  stride = vdi.block_size + vdi.block_extra

  -- Where the data of an allocated block begins, less its extra area.
  abbrev pub block_file_off : ℕ → ℕ
  block_file_off entry = add64 vdi.data_offset (mul64 entry stride)

  abbrev pub data_file_off : ℕ → ℕ → ℕ
  data_file_off entry block_off = add64 (add64 (block_file_off entry) vdi.block_extra) block_off

  -- A block that is missing: the parent's bytes as far as it goes, and zeros.
  unfoldable pub read_parent : Option (Parent W) → ℕ → ℕ → M W Bytes
  read_parent none guest_off chunk = pure zeroed
  read_parent (some p) guest_off chunk =
      let remaining = p.image_size - guest_off in
      let parent_chunk = if ltb remaining chunk then remaining else chunk in
      let got : M W Bytes =
        or_fail eio (read_exact p.image parent_chunk guest_off)
        >>= (λ b. pure (copy zeroed 0 b parent_chunk)) in
      if leb p.image_size guest_off then pure zeroed else got

  unfoldable pub read_mapped : ℕ → ℕ → ℕ → ℕ → M W Bytes
  read_mapped map_entry guest_off block_off chunk =
      if map_entry == unallocated
      then read_parent vdi.parent guest_off chunk
      else if map_entry == zero_entry
      then pure zeroed
      else or_fail eio (read_exact_fd vdi.fd chunk (data_file_off map_entry block_off))

  -- The length of the round that begins at `guest_off`, of the bytes left.
  abbrev pub round_chunk : ℕ → ℕ → ℕ
  round_chunk guest_off left =
      let room = vdi.block_size - guest_off % vdi.block_size in if ltb left room then left else room

  unfoldable pub vdi_read_from : ℕ → ℕ → ℕ → ℕ → Bytes → M (VdiState W) Bytes
  vdi_read_from zero size offset done out = if ltb done size then out_of_fuel else pure out
  vdi_read_from (suc fuel) size offset done out =
      let guest_off = add64 offset done in
      let block_index = u32 (guest_off / vdi.block_size) in
      let chunk = round_chunk guest_off (size - done) in
      let round : M (VdiState W) Bytes = (do
        require (ltb block_index vdi.block_count) eio
        map ← vdi_map
        b ← lift_vdi (read_mapped (map block_index) guest_off (guest_off % vdi.block_size) chunk)
        vdi_read_from fuel size offset (done + chunk) (copy out done b chunk)) in
      if ltb done size then round else pure out

  -- `offset < 0 || offset + size > disk_size`
  abbrev pub in_disk : ℕ → ℕ → Bool
  in_disk size offset = not (leb (2 ^ 63) offset || ltb vdi.disk_size (add64 offset size))

  -- `nextufs_vdi_backend_read`
  unfoldable pub vdi_read : ℕ → ℕ → M (VdiState W) Bytes
  vdi_read size offset = do
    require (in_disk size offset) eio
    vdi_read_from size size offset 0 zeroed

  -- `nextufs_vdi_write_le32`
  unfoldable pub vdi_write_le32 : ℕ → ℕ → M W (Unit {0})
  vdi_write_le32 off value = write_exact_fd vdi.fd (le32 value) 4 off

  -- The first contents of a block that is about to be allocated: the whole of the parent's block,
  -- also where the parent is shorter.
  unfoldable pub inherited : Option (Parent W) → ℕ → ℕ → M W Bytes
  inherited none map_entry guest_off = pure zeroed
  inherited (some p) map_entry guest_off =
      if map_entry == unallocated then read_exact p.image vdi.block_size guest_off else pure zeroed

  -- The chunk of a block that has its place in the file.
  unfoldable pub write_mapped : ℕ → ℕ → Bytes → ℕ → M W (Unit {0})
  write_mapped map_entry block_off buf chunk = do
    require (not (map_entry == unallocated || map_entry == zero_entry)) eio
    write_exact_fd vdi.fd buf chunk (data_file_off map_entry block_off)

  module _ (os : Os W) where
    unfoldable pub write_extra : ℕ → M W (Unit {0})
    write_extra file_off =
        let extra : M W (Unit {0}) =
          malloc_or_fail os vdi.block_extra
          >> write_exact_fd vdi.fd zeroed vdi.block_extra file_off in
        if vdi.block_extra == 0 then pure tt else extra

    -- The part behind the guards of `nextufs_vdi_materialize_block`; the map is written before the
    -- count.
    unfoldable pub allocate_block : ℕ → ℕ → ℕ → M (VdiState W) (Unit {0})
    allocate_block block_index map_entry new_entry = do
      lift_vdi (malloc_or_fail os (if vdi.block_size == 0 then 1 else vdi.block_size))
      block ← lift_vdi (inherited vdi.parent map_entry (mul64 block_index vdi.block_size))
      lift_vdi (write_extra (block_file_off new_entry))
      lift_vdi (
          write_exact_fd vdi.fd block vdi.block_size
            (add64 (block_file_off new_entry) vdi.block_extra))
      lift_vdi (vdi_write_le32 (add64 vdi.map_offset (block_index * 4)) new_entry)
      set_entry block_index new_entry
      count ← vdi_allocated
      lift_vdi (vdi_write_le32 blocks_alloc_off count)

    -- `nextufs_vdi_materialize_block`
    unfoldable pub materialize_block : ℕ → M (VdiState W) (Unit {0})
    materialize_block block_index = do
      map ← vdi_map
      let map_entry = map block_index
      count ← vdi_allocated
      if map_entry == unallocated || map_entry == zero_entry
          then (require (not (leb vdi.block_count count)) enospc
              >> allocate_block block_index map_entry count)
          else pure tt

    unfoldable pub vdi_write_from : ℕ → Bytes → ℕ → ℕ → ℕ → M (VdiState W) (Unit {0})
    vdi_write_from zero buf size offset done = if ltb done size then out_of_fuel else pure tt
    vdi_write_from (suc fuel) buf size offset done =
        let guest_off = add64 offset done in
        let block_index = u32 (guest_off / vdi.block_size) in
        let chunk = round_chunk guest_off (size - done) in
        let round : M (VdiState W) (Unit {0}) = (do
          require (ltb block_index vdi.block_count) eio
          materialize_block block_index
          map ← vdi_map
          lift_vdi
              (write_mapped (map block_index) (guest_off % vdi.block_size) (shift buf done) chunk)
          vdi_write_from fuel buf size offset (done + chunk)) in
        if ltb done size then round else pure tt

    -- `nextufs_vdi_backend_write`
    unfoldable pub vdi_write : Bytes → ℕ → ℕ → M (VdiState W) (Unit {0})
    vdi_write buf size offset = do
      require (in_disk size offset) eio
      vdi_write_from size buf size offset 0

    -- `nextufs_vdi_backend_ops`
    abbrev pub vdi_backend_ops : Backend (VdiState W)
    vdi_backend_ops = record {
      read = some vdi_read;
      write = some vdi_write;
      fsync = some (lift_vdi vdi.fd.fsync);
    }
