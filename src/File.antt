-- ===== src/File.antt =====
-- src/core/image.c: reading the data of a file.
pub mod Reading
pub mod Symlink
use nextufs_offline.Base.{
  ℕ, zero, suc, ◌+◌, ◌-◌, ◌/◌, ◌%◌, ◌||◌, ltb, leb, ◌==◌, if◌then◌else◌, add64, mul64, sub64,
}
use nextufs_offline.Memory.{Bytes, copy, clear}
use nextufs_offline.Inode.{Inode}
use nextufs_offline.Layout.{frag_offset}
use nextufs_offline.Io.{M, ◌>>=◌, pure, fail, or_fail, out_of_fuel, einval, eio, Image, read_exact}
use nextufs_offline.Alloc.Indirect.{entries_per_block, span_of, read_indirect_entry}

module _ {W : Type 0} (img : Image W) where
  -- At level `l`; unlike the resolver of src/core/alloc.c, a missing root is an error.
  unfoldable pub resolve_indirect_block_frag : ℕ → ℕ → ℕ → M W ℕ
  resolve_indirect_block_frag block_frag zero logical_index = fail einval
  resolve_indirect_block_frag block_frag (suc zero) logical_index =
      if block_frag == 0 || entries_per_block img.sb == 0
      then fail einval
      else or_fail eio (read_indirect_entry img block_frag logical_index)
  resolve_indirect_block_frag block_frag (suc (suc l)) logical_index =
      let span = span_of (entries_per_block img.sb) (suc l) in
      let descend : M W ℕ =
        or_fail eio (read_indirect_entry img block_frag (logical_index / span)) >>= (λ next_frag.
          let rest = resolve_indirect_block_frag next_frag (suc l) (logical_index % span) in
          if next_frag == 0 then pure 0 else rest) in
      if block_frag == 0 || entries_per_block img.sb == 0 then fail einval else descend

  unfoldable pub resolve_file_slots : ℕ → Inode → ℕ → ℕ → ℕ → M W ℕ
  resolve_file_slots zero ino slot span index = fail einval
  resolve_file_slots (suc left) ino slot span index =
      if ltb index span
      then resolve_indirect_block_frag (ino.ib slot) (slot + 1) index
      else resolve_file_slots left ino (slot + 1) (mul64 span (entries_per_block img.sb))
          (sub64 index span)

  unfoldable pub resolve_file_block_frag : Inode → ℕ → M W ℕ
  resolve_file_block_frag ino logical_block =
      if ltb logical_block 12
      then pure (ino.db logical_block)
      else resolve_file_slots 3 ino 0 (entries_per_block img.sb) (logical_block - 12)

  -- The bytes of one block; a hole reads as zeros.
  unfoldable pub read_chunk : ℕ → ℕ → ℕ → ℕ → Bytes → M W Bytes
  read_chunk data_frag block_offset done chunk buf =
      if data_frag == 0
      then pure (clear buf done chunk)
      else read_exact img chunk (add64 (frag_offset img data_frag) block_offset)
        >>= (λ bytes. pure (copy buf done bytes chunk))

  unfoldable pub read_blocks : ℕ → Inode → ℕ → ℕ → ℕ → ℕ → Bytes → M W (ℕ × Bytes)
  read_blocks zero ino block_offset done remaining logical_block buf =
      if ltb 0 remaining then out_of_fuel else pure (done, buf)
  read_blocks (suc fuel) ino block_offset done remaining logical_block buf =
      let room = img.sb.block_size - block_offset in
      let chunk = if ltb remaining room then remaining else room in
      let round : M W (ℕ × Bytes) = (do
        data_frag ← resolve_file_block_frag ino logical_block
        buf' ← read_chunk data_frag block_offset done chunk buf
        read_blocks fuel ino 0 (done + chunk) (remaining - chunk) (logical_block + 1) buf') in
      if ltb 0 remaining then round else pure (done, buf)

  -- `nextufs_inode_read_data`: the bytes read, and the caller's buffer with them.
  unfoldable pub inode_read_data : Inode → ℕ → Bytes → ℕ → M W (ℕ × Bytes)
  inode_read_data ino start buf buf_size =
      let left = ino.size - start in
      let wanted = if ltb buf_size left then buf_size else left in
      if leb ino.size start
      then pure (0, buf)
      else read_blocks wanted ino (start % img.sb.block_size) 0 wanted (start / img.sb.block_size)
          buf
