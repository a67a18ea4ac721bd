-- ===== src/Mutate/Insert.antt =====
-- `nextufs__insert_dirent`.
use nextufs_offline.Base.{
  ℕ, zero, suc, ◌+◌, ◌-◌, not, ◌&&◌, Option, none, some, u16, sub64, mul64, ltb, leb, ◌==◌,
  if◌then◌else◌,
}
use nextufs_offline.Memory.{Bytes, zeroed, write_be16}
use nextufs_offline.Layout.{DirentView, read_dirent, dirent_size, frag_offset}
use nextufs_offline.Io.{
  M, ◌>>=◌, ◌>>◌, fail, or_fail, out_of_fuel, require, einval, eio, enospc, Os, Image, write_exact,
  malloc_or_fail,
}
use nextufs_offline.Alloc.Fragments.{Found, hit, exhausted, no_fuel}
use nextufs_offline.Alloc.Indirect.{Files, lift, get_inode}
use nextufs_offline.File.{inode_read_data}
use nextufs_offline.Dirent.{write_dirent_raw}
use nextufs_offline.Directory.{block_chunk}
use nextufs_offline.Mutate.{dirblksiz, update_node_times, grow_directory_by_dirblk}

-- The record at `off`: a free one with room is taken over whole, a used one is cut to its size and
-- its slack becomes the new record. The outer `none` is a record without room, the inner one a
-- name that is too long. The subtraction is that of `size_t`.
unfoldable pub insert_at : Bytes → DirentView → ℕ → ℕ → Bytes → ℕ → Option (Option Bytes)
insert_at block ent off ino name name_len =
    let need = dirent_size name_len in
    let used = dirent_size ent.namlen in
    let slack = sub64 ent.reclen used in
    let whole = write_dirent_raw block off ino ent.reclen name name_len in
    let cut =
      write_dirent_raw (write_be16 block (off + 4) (u16 used)) (off + used) ino (u16 slack) name
        name_len in
    if (ent.ino == 0) && leb need ent.reclen
    then some whole
    else if not (ent.ino == 0) && leb need slack
    then some cut
    else none

-- The records from `off` on; one that does not lie in the block ends it.
unfoldable pub insert_in_block : ℕ → Bytes → ℕ → ℕ → ℕ → Bytes → ℕ → Found (Option Bytes)
insert_in_block zero block chunk off ino name name_len =
    if ltb off chunk then no_fuel else exhausted
insert_in_block (suc fuel) block chunk off ino name name_len =
    let found : Found (Option Bytes) = elim (read_dirent block chunk off) [
      | none ↦ exhausted
      | some ent ↦ elim (insert_at block ent off ino name name_len) [
        | none ↦ insert_in_block fuel block chunk (off + ent.reclen) ino name name_len
        | some b ↦ hit b
      ]
    ] in
    if ltb off chunk then found else exhausted

module _ {W : Type 0} (os : Os W) (img : Image W) (inode_no new_inode : ℕ) (name : Bytes)
    (name_len : ℕ) where
  -- The changed block goes back to its place, and the node's times change.
  unfoldable pub commit_insert : ℕ → ℕ → Option Bytes → M (Files W) (Unit {0})
  commit_insert block_index chunk none = fail einval
  commit_insert block_index chunk (some block) = do
    ino ← get_inode
    require (ltb block_index 12) enospc
    lift (or_fail eio (write_exact img block chunk (frag_offset img (ino.db block_index))))
    update_node_times os img inode_no

  -- No block has room: a new directory block holds the record alone.
  unfoldable pub insert_in_new_block : M (Files W) (Unit {0})
  insert_in_new_block = do
    require (leb (dirent_size name_len) dirblksiz) enospc
    new_off ← or_fail enospc (grow_directory_by_dirblk os img inode_no)
    elim (write_dirent_raw zeroed 0 new_inode dirblksiz name name_len) [
      | none ↦ fail einval
      | some block ↦ lift (or_fail eio (write_exact img block dirblksiz new_off))
    ]

  unfoldable pub insert_in_blocks : ℕ → ℕ → ℕ → M (Files W) (Unit {0})
  insert_in_blocks zero remaining block_index =
      if ltb 0 remaining then out_of_fuel else insert_in_new_block
  insert_in_blocks (suc fuel) remaining block_index =
      let chunk = block_chunk img remaining in
      let round : M (Files W) (Unit {0}) = (do
        ino ← get_inode
        got ← lift (
            or_fail eio
              (inode_read_data img ino (mul64 block_index img.sb.block_size) zeroed chunk))
        elim (insert_in_block chunk got.1 chunk 0 new_inode name name_len) [
          | hit b ↦ commit_insert block_index chunk b
          | exhausted ↦ insert_in_blocks fuel (remaining - chunk) (block_index + 1)
          | no_fuel ↦ out_of_fuel
        ]) in
      if ltb 0 remaining then round else insert_in_new_block

  unfoldable pub insert_dirent : M (Files W) (Unit {0})
  insert_dirent = do
    lift (malloc_or_fail os img.sb.block_size)
    ino ← get_inode
    insert_in_blocks ino.size ino.size 0
