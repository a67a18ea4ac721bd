-- ===== src/Alloc/Indirect.antt =====
-- The indirect blocks of a file: their entries, the path to a data block, and its release.
use nextufs_offline.Base.{
  ℕ, zero, suc, ◌+◌, ◌-◌, ◌/◌, ◌%◌, ltb, ◌==◌, if◌then◌else◌, add32, add64, mul64, sub64,
}
use nextufs_offline.Memory.{zeroed, upd, read_be32, write_be32}
use nextufs_offline.Superblock.{Superblock}
use nextufs_offline.Inode.{Inode}
use nextufs_offline.Layout.{frag_offset}
use nextufs_offline.Io.{
  ok, err, hang, M, ◌>>=◌, ◌>>◌, pure, fail, require, einval, efbig, Os, Image, read_exact,
  write_exact, malloc_or_fail,
}
use nextufs_offline.Alloc.Fragments.{allocate_full_block_anycg}
use nextufs_offline.Alloc.Runs.{free_fragment_run}

abbrev pub entries_per_block : Superblock → ℕ
entries_per_block sb = sb.block_size / 4

-- `span = 1; for (i = 1; i < level; i++) span *= entries_per_block`, at level `suc l`.
unfoldable pub span_of : ℕ → ℕ → ℕ
span_of epb zero = 1
span_of epb (suc l) = mul64 (span_of epb l) epb

-- What the out parameters `ino_out` and `metadata_frags_out` hold beside the outside world. They
-- keep their changes also where a call fails.
pub record Files (W : Type 0) : Type 0 where
  pub world : W
  pub ino : Inode
  pub frags : ℕ

-- A call that touches neither out parameter.
abbrev pub lift : {W A : Type 0} → M W A → M (Files W) A
lift m s = ((m s.world).0, record s { world = (m s.world).1 })

-- A clean-up on failure, whose own result is dropped.
abbrev pub on_error : {S A B : Type 0} → M S A → M S B → M S A
on_error m handler s = elim (m s).0 [
  | ok a ↦ (ok a, (m s).1)
  | err e ↦ (err e, (handler (m s).1).1)
  | hang ↦ (hang, (m s).1)
]

abbrev pub add_frags : {W : Type 0} → ℕ → M (Files W) (Unit {0})
add_frags n s = (ok tt, record s { frags = add32 s.frags n })

abbrev pub modify_inode : {W : Type 0} → (Inode → Inode) → M (Files W) (Unit {0})
modify_inode f s = (ok tt, record s { ino = f s.ino })

abbrev pub get_inode : {W : Type 0} → M (Files W) Inode
get_inode s = (ok s.ino, s)

unfoldable pub set_db : ℕ → ℕ → Inode → Inode
set_db i v ino = record ino { db = upd ino.db i v }

unfoldable pub set_ib : ℕ → ℕ → Inode → Inode
set_ib i v ino = record ino { ib = upd ino.ib i v }

module _ {W : Type 0} (img : Image W) where
  abbrev pub entry_offset : ℕ → ℕ → ℕ
  entry_offset block_frag entry_index = add64 (frag_offset img block_frag) (mul64 entry_index 4)

  unfoldable pub read_indirect_entry : ℕ → ℕ → M W ℕ
  read_indirect_entry block_frag entry_index = do
    require (ltb entry_index (entries_per_block img.sb)) einval
    raw ← read_exact img 4 (entry_offset block_frag entry_index)
    pure (read_be32 raw 0)

  unfoldable pub write_indirect_entry : ℕ → ℕ → ℕ → M W (Unit {0})
  write_indirect_entry block_frag entry_index entry_value = do
    require (ltb entry_index (entries_per_block img.sb)) einval
    write_exact img (write_be32 zeroed 0 entry_value) 4 (entry_offset block_frag entry_index)

  -- `nextufs__resolve_indirect_data_block`; a missing block of the path gives 0.
  unfoldable pub resolve_indirect_data_block : ℕ → ℕ → ℕ → M W ℕ
  resolve_indirect_data_block block_frag zero logical_index = fail einval
  resolve_indirect_data_block block_frag (suc zero) logical_index =
      if block_frag == 0 then pure 0 else read_indirect_entry block_frag logical_index
  resolve_indirect_data_block block_frag (suc (suc l)) logical_index =
      let span = span_of (entries_per_block img.sb) (suc l) in
      let descend : M W ℕ =
        read_indirect_entry block_frag (logical_index / span)
        >>= (λ next_frag. resolve_indirect_data_block next_frag (suc l) (logical_index % span)) in
      if block_frag == 0 then pure 0 else descend

  -- The slots from `slot` on; `span` blocks are reached through the next one.
  unfoldable pub resolve_slots : ℕ → Inode → ℕ → ℕ → ℕ → M W ℕ
  resolve_slots zero ino slot span local_index = fail efbig
  resolve_slots (suc left) ino slot span local_index =
      if ltb local_index span
      then resolve_indirect_data_block (ino.ib slot) (slot + 1) local_index
      else resolve_slots left ino (slot + 1) (mul64 span (entries_per_block img.sb))
          (sub64 local_index span)

  unfoldable pub resolve_inode_data_block : Inode → ℕ → M W ℕ
  resolve_inode_data_block ino logical_block =
      if ltb logical_block 12
      then pure (ino.db logical_block)
      else resolve_slots 3 ino 0 (entries_per_block img.sb) (logical_block - 12)

module _ {W : Type 0} (os : Os W) (img : Image W) where
  -- `nextufs__allocate_zeroed_full_block`: the block is given back if it cannot be cleared.
  unfoldable pub allocate_zeroed_full_block : ℕ → M W ℕ
  allocate_zeroed_full_block preferred_cg = do
    frag ← allocate_full_block_anycg os img preferred_cg
    on_error
        (malloc_or_fail os img.sb.block_size
          >> write_exact img zeroed img.sb.block_size (frag_offset img frag))
        (free_fragment_run os img frag img.sb.frags_per_block)
    pure frag

  -- A missing block of the path is allocated and entered, or given back where that fails.
  unfoldable pub enter_block : ℕ → ℕ → ℕ → M (Files W) ℕ
  enter_block block_frag entry_index preferred_cg = do
    new_frag ← lift (allocate_zeroed_full_block preferred_cg)
    lift (
        on_error (write_indirect_entry img block_frag entry_index new_frag)
          (free_fragment_run os img new_frag img.sb.frags_per_block))
    add_frags img.sb.frags_per_block
    pure new_frag

  unfoldable pub next_block : ℕ → ℕ → ℕ → M (Files W) ℕ
  next_block block_frag entry_index preferred_cg = do
    next_frag ← lift (read_indirect_entry img block_frag entry_index)
    if next_frag == 0 then enter_block block_frag entry_index preferred_cg else pure next_frag

  unfoldable pub set_indirect_data_block : ℕ → ℕ → ℕ → ℕ → ℕ → M (Files W) (Unit {0})
  set_indirect_data_block block_frag zero logical_index data_frag preferred_cg = fail einval
  set_indirect_data_block block_frag (suc zero) logical_index data_frag preferred_cg =
      lift (write_indirect_entry img block_frag logical_index data_frag)
  set_indirect_data_block block_frag (suc (suc l)) logical_index data_frag preferred_cg =
      let span = span_of (entries_per_block img.sb) (suc l) in
      next_block block_frag (logical_index / span) preferred_cg >>= (λ next_frag.
        set_indirect_data_block next_frag (suc l) (logical_index % span) data_frag preferred_cg)

  -- The root block of a slot, allocated where the inode has none.
  unfoldable pub enter_root : ℕ → ℕ → M (Files W) ℕ
  enter_root slot preferred_cg = do
    root_frag ← lift (allocate_zeroed_full_block preferred_cg)
    modify_inode (set_ib slot root_frag)
    add_frags img.sb.frags_per_block
    pure root_frag

  unfoldable pub root_block : ℕ → ℕ → M (Files W) ℕ
  root_block slot preferred_cg = do
    ino ← get_inode
    if ino.ib slot == 0 then enter_root slot preferred_cg else pure (ino.ib slot)

  unfoldable pub set_slots : ℕ → ℕ → ℕ → ℕ → ℕ → ℕ → M (Files W) (Unit {0})
  set_slots zero slot span local_index data_frag preferred_cg = fail efbig
  set_slots (suc left) slot span local_index data_frag preferred_cg =
      if ltb local_index span
      then root_block slot preferred_cg >>= (λ root_frag.
        set_indirect_data_block root_frag (slot + 1) local_index data_frag preferred_cg)
      else set_slots left (slot + 1) (mul64 span (entries_per_block img.sb))
          (sub64 local_index span) data_frag preferred_cg

  unfoldable pub set_inode_data_block : ℕ → ℕ → ℕ → M (Files W) (Unit {0})
  set_inode_data_block logical_block data_frag preferred_cg =
      if ltb logical_block 12
      then modify_inode (set_db logical_block data_frag)
      else set_slots 3 0 (entries_per_block img.sb) (logical_block - 12) data_frag preferred_cg

  -- The loop over the entries of a block, `i` of them done; `free_child` frees one subtree.
  unfoldable pub free_children : (ℕ → M W (Unit {0})) → ℕ → ℕ → ℕ → M W (Unit {0})
  free_children free_child block_frag zero i = pure tt
  free_children free_child block_frag (suc left) i = do
    child_frag ← read_indirect_entry img block_frag i
    if child_frag == 0 then pure tt else free_child child_frag
    free_children free_child block_frag left (i + 1)

  -- `nextufs__free_indirect_metadata_tree` at level `suc l`: the blocks below first.
  unfoldable pub free_indirect_metadata_tree : ℕ → ℕ → M W (Unit {0})
  free_indirect_metadata_tree zero block_frag =
      if block_frag == 0
      then pure tt
      else free_fragment_run os img block_frag img.sb.frags_per_block
  free_indirect_metadata_tree (suc l) block_frag =
      if block_frag == 0
      then pure tt
      else free_children (free_indirect_metadata_tree l) block_frag (entries_per_block img.sb) 0
        >> free_fragment_run os img block_frag img.sb.frags_per_block
