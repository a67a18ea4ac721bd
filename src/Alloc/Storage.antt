-- ===== src/Alloc/Storage.antt =====
-- `nextufs__allocate_data_for_inode` and `nextufs__free_file_storage`.
use nextufs_offline.Base.{
  ℕ, zero, suc, ◌+◌, ◌-◌, ◌/◌, Bool, ◌&&◌, not, bit_and, u32, add32, add64, mul32, mul64, ltb, leb,
  ◌==◌, if◌then◌else◌,
}
use nextufs_offline.Memory.{Bytes, zeroed, shift, copy}
use nextufs_offline.Superblock.{Superblock}
use nextufs_offline.Inode.{Inode}
use nextufs_offline.Layout.{frag_offset, not32}
use nextufs_offline.Io.{
  ok, M, ◌>>=◌, ◌>>◌, pure, out_of_fuel, Os, Image, write_exact, malloc_or_fail,
}
use nextufs_offline.Alloc.Fragments.{allocate_frags_anycg}
use nextufs_offline.Alloc.Runs.{free_fragment_run}
use nextufs_offline.Alloc.Indirect.{
  Files, lift, on_error, add_frags, modify_inode, get_inode, set_ib, resolve_inode_data_block,
  set_inode_data_block, free_indirect_metadata_tree,
}

-- `remaining > block_size ? block_size : remaining`
unfoldable pub chunk_of : Superblock → ℕ → ℕ
chunk_of sb remaining = if ltb sb.block_size remaining then sb.block_size else remaining

-- The fragments of a logical block: a tail may be shorter only among the direct blocks.
unfoldable pub frags_of : Superblock → ℕ → ℕ → ℕ
frags_of sb logical_block chunk =
    if leb 12 logical_block
    then sb.frags_per_block
    else u32 ((chunk + sb.frag_size - 1) / sb.frag_size)

-- A symbolic link whose target lies in the inode.
unfoldable pub is_fast_link : Inode → Bool
is_fast_link ino = (bit_and ino.mode 0xf000 == 0xa000) && not (bit_and ino.flags 1 == 0)

abbrev pub drop_link : Inode → Inode
drop_link ino = record ino {
  db = zeroed;
  ib = zeroed;
  flags = bit_and ino.flags (not32 1);
  size = 0;
  blocks = 0;
}

module _ {W : Type 0} (os : Os W) (img : Image W) where
  -- The data blocks from `logical_block` on.
  unfoldable pub free_data_blocks : ℕ → ℕ → ℕ → M (Files W) (Unit {0})
  free_data_blocks zero remaining logical_block = if ltb 0 remaining then out_of_fuel else pure tt
  free_data_blocks (suc fuel) remaining logical_block =
      let chunk = chunk_of img.sb remaining in
      let frags = frags_of img.sb logical_block chunk in
      let round : M (Files W) (Unit {0}) = (do
        ino ← get_inode
        data_frag ← lift (resolve_inode_data_block img ino logical_block)
        if data_frag == 0 then pure tt else lift (free_fragment_run os img data_frag frags)
        free_data_blocks fuel (remaining - chunk) (add32 logical_block 1)) in
      if ltb 0 remaining then round else pure tt

  unfoldable pub free_slots : ℕ → ℕ → M (Files W) (Unit {0})
  free_slots zero slot = pure tt
  free_slots (suc left) slot = do
    ino ← get_inode
    lift (free_indirect_metadata_tree os img slot (ino.ib slot))
    modify_inode (set_ib slot 0)
    free_slots left (slot + 1)

  unfoldable pub free_blocks : M (Files W) (Unit {0})
  free_blocks = do
    ino ← get_inode
    free_data_blocks ino.size ino.size 0
    modify_inode (λ n. record n { db = zeroed })
    free_slots 3 0
    modify_inode (λ n. record n { size = 0; blocks = 0 })

  unfoldable pub free_file_storage : M (Files W) (Unit {0})
  free_file_storage = do
    ino ← get_inode
    if is_fast_link ino then modify_inode drop_link else free_blocks

  -- One block of the data: space, its entry in the inode, the inode's size and count, the bytes.
  unfoldable pub allocate_one_block : ℕ → Bytes → ℕ → ℕ → M (Files W) (Unit {0})
  allocate_one_block preferred_cg bytes logical_block chunk = do
    let frags_needed = frags_of img.sb logical_block chunk
    alloc_frag ← lift (allocate_frags_anycg os img preferred_cg frags_needed)
    on_error (set_inode_data_block os img logical_block alloc_frag preferred_cg)
        (lift (free_fragment_run os img alloc_frag frags_needed))
    add_frags frags_needed
    (λ s. (
      ok tt,
      record s {
        ino = record s.ino {
          size = add64 (mul64 logical_block img.sb.block_size) chunk;
          blocks = mul32 s.frags img.sb.sectors_per_frag;
        };
      },
    ))
    let alloc_bytes = mul64 frags_needed img.sb.frag_size
    lift (malloc_or_fail os alloc_bytes)
    let block = copy zeroed 0 (shift bytes (mul64 logical_block img.sb.block_size)) chunk
    lift (write_exact img block alloc_bytes (frag_offset img alloc_frag))

  unfoldable pub allocate_blocks : ℕ → ℕ → Bytes → ℕ → ℕ → M (Files W) (Unit {0})
  allocate_blocks zero preferred_cg bytes remaining logical_block =
      if ltb 0 remaining then out_of_fuel else pure tt
  allocate_blocks (suc fuel) preferred_cg bytes remaining logical_block =
      let chunk = chunk_of img.sb remaining in
      let round : M (Files W) (Unit {0}) = (do
        allocate_one_block preferred_cg bytes logical_block chunk
        allocate_blocks fuel preferred_cg bytes (remaining - chunk) (add32 logical_block 1)) in
      if ltb 0 remaining then round else pure tt

  -- All storage is released where a block cannot be had. The count of fragments starts at 0.
  unfoldable pub allocate_data_for_inode : ℕ → Bytes → ℕ → M (Files W) (Unit {0})
  allocate_data_for_inode preferred_cg bytes len = do
    (λ s. (ok tt, record s { frags = 0 }))
    on_error (allocate_blocks len preferred_cg bytes len 0) free_file_storage
    (λ s. (
      ok tt,
      record s {
        ino = record s.ino { size = len; blocks = mul32 s.frags img.sb.sectors_per_frag };
      },
    ))
