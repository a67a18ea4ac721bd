-- ===== src/Directory.antt =====
-- src/core/directory.c: the records of a directory are handed to a callback in order.
pub mod Totality
use nextufs_offline.Base.{
  ℕ, zero, suc, ◌+◌, ◌-◌, not, ◌&&◌, Option, none, some, ltb, ◌==◌, if◌then◌else◌, mul64,
}
use nextufs_offline.Memory.{Bytes, zeroed, shift}
use nextufs_offline.Inode.{Inode}
use nextufs_offline.Layout.{DirentView, read_dirent, inode_read}
use nextufs_offline.Io.{M, ◌>>=◌, ◌>>◌, pure, or_fail, out_of_fuel, eio, Os, Image, malloc_or_fail}
use nextufs_offline.File.{inode_read_data}
use nextufs_offline.Dirent.{same_bytes}

-- `remaining < block_size ? remaining : block_size`
abbrev pub block_chunk : {W : Type 0} → Image W → ℕ → ℕ
block_chunk img remaining = if ltb remaining img.sb.block_size then remaining else img.sb.block_size

-- A callback gets inode number, name and length; `some r` is a positive return that ends the
-- iteration, an error a negative one.
module _ {W R : Type 0} (cb : ℕ → Bytes → ℕ → M W (Option R)) where
  unfoldable pub visit : Bytes → DirentView → M W (Option R)
  visit buf ent =
      if not (ent.ino == 0) && not (ent.namlen == 0)
      then cb ent.ino (shift buf ent.name) ent.namlen
      else pure none

  unfoldable pub go_on : M W (Option R) → Option R → M W (Option R)
  go_on rest none = rest
  go_on rest (some r) = pure (some r)

  -- A record that does not lie in the block ends the block.
  unfoldable pub at_record : (ℕ → M W (Option R)) → Bytes → Option DirentView → M W (Option R)
  at_record rest buf none = pure none
  at_record rest buf (some ent) = visit buf ent >>= go_on (rest ent.reclen)

  unfoldable pub visit_block : ℕ → Bytes → ℕ → ℕ → M W (Option R)
  visit_block zero buf chunk off = if ltb off chunk then out_of_fuel else pure none
  visit_block (suc fuel) buf chunk off =
      let found =
        at_record (λ reclen. visit_block fuel buf chunk (off + reclen)) buf
          (read_dirent buf chunk off) in
      if ltb off chunk then found else pure none

  unfoldable pub visit_blocks : Image W → ℕ → Inode → ℕ → ℕ → M W (Option R)
  visit_blocks img zero dirino remaining block_index =
      if ltb 0 remaining then out_of_fuel else pure none
  visit_blocks img (suc fuel) dirino remaining block_index =
      let chunk = block_chunk img remaining in
      let round : M W (Option R) =
        or_fail eio (inode_read_data img dirino (mul64 block_index img.sb.block_size) zeroed chunk)
        >>= (λ got.
            visit_block chunk got.1 chunk 0
            >>= go_on (visit_blocks img fuel dirino (remaining - chunk) (block_index + 1))) in
      if ltb 0 remaining then round else pure none

  unfoldable pub directory_iterate : Os W → Image W → Inode → M W (Option R)
  directory_iterate os img dirino =
      malloc_or_fail os img.sb.block_size >> visit_blocks img dirino.size dirino dirino.size 0

-- `find_name_cb`
unfoldable pub find_name_cb : {W : Type 0} → Bytes → ℕ → ℕ → Bytes → ℕ → M W (Option ℕ)
find_name_cb target target_len ino name name_len =
    pure
      (if (target_len == name_len) && same_bytes name 0 target 0 name_len then some ino else none)

unfoldable pub found_or_zero : {W : Type 0} → Option ℕ → M W ℕ
found_or_zero none = pure 0
found_or_zero (some ino) = pure ino

module _ {W : Type 0} (os : Os W) (img : Image W) where
  -- 0 where no record has the name.
  unfoldable pub find_name_in_directory : Inode → Bytes → ℕ → M W ℕ
  find_name_in_directory dirino target target_len =
      directory_iterate (find_name_cb target target_len) os img dirino >>= found_or_zero

  -- The inode of each record is read before the callback is called.
  unfoldable pub dir_node_cb :
      {R : Type 0} → (ℕ → Inode → Bytes → ℕ → M W (Option R)) → ℕ → Bytes → ℕ → M W (Option R)
  dir_node_cb cb ino name name_len = inode_read img ino >>= (λ node. cb ino node.0 name name_len)

  unfoldable pub directory_iterate_nodes :
      {R : Type 0} → (ℕ → Inode → Bytes → ℕ → M W (Option R)) → Inode → M W (Option R)
  directory_iterate_nodes cb dirino = directory_iterate (dir_node_cb cb) os img dirino
