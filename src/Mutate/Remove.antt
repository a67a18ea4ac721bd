-- ===== src/Mutate/Remove.antt =====
-- `nextufs__remove_dirent`.
use nextufs_offline.Base.{
  ℕ, zero, suc, ◌+◌, ◌-◌, Bool, not, ◌&&◌, ◌||◌, Option, none, some, u16, mul64, ltb, leb, ◌==◌,
  if◌then◌else◌,
}
use nextufs_offline.Memory.{Bytes, zeroed, shift, write_be16, write_be32}
use nextufs_offline.Layout.{DirentView, read_dirent, frag_offset}
use nextufs_offline.Io.{
  M, ◌>>=◌, ◌>>◌, pure, fail, or_fail, out_of_fuel, require, einval, eio, enoent, Os, Image,
  write_exact, malloc_or_fail,
}
use nextufs_offline.Alloc.Fragments.{Found, hit, exhausted, no_fuel}
use nextufs_offline.Alloc.Indirect.{Files, lift, get_inode}
use nextufs_offline.File.{inode_read_data}
use nextufs_offline.Dirent.{same_bytes}
use nextufs_offline.Directory.{block_chunk}
use nextufs_offline.Mutate.{dirblksiz, update_node_times}

-- The name at `p` is "." or "..".
unfoldable pub is_dot : Bytes → ℕ → ℕ → Bool
is_dot block p len =
    (len == 1) && (block p == b'.') || (len == 2) && (block p == b'.') && (block (p + 1) == b'.')

-- The record is merged into the used one before it in its directory block, or made free where
-- there is none. `prev` is the offset of that record.
unfoldable pub unlink_record : Bytes → ℕ → ℕ → Option ℕ → DirentView → ℕ → Option Bytes
unlink_record block base size none ent off = some (write_be32 block (base + off) 0)
unlink_record block base size (some prev) ent off =
    elim (read_dirent (shift block base) size prev) [
      | none ↦ none
      | some prev_ent ↦
          some (write_be16 block (base + prev + 4) (u16 (prev_ent.reclen + ent.reclen)))
    ]

-- A hit is the changed block with the removed inode, or `none` for a refusal.
unfoldable pub remove_in_dirblk :
    ℕ → Bytes → ℕ → ℕ → ℕ → Option ℕ → Bytes → ℕ → Found (Option (Bytes × ℕ))
remove_in_dirblk zero block base size off prev name name_len =
    if ltb off size then no_fuel else exhausted
remove_in_dirblk (suc fuel) block base size off prev name name_len =
    let found : Found (Option (Bytes × ℕ)) = elim (read_dirent (shift block base) size off) [
      | none ↦ exhausted
      | some ent ↦
          let named =
            not (ent.ino == 0)
            && (ent.namlen == name_len)
            && same_bytes block (base + ent.name) name 0 name_len in
          let unlinked : Found (Option (Bytes × ℕ)) =
            elim (unlink_record block base size prev ent off) [
              | none ↦ hit none
              | some b ↦ hit (some (b, ent.ino))
            ] in
          let rest =
            remove_in_dirblk fuel block base size (off + ent.reclen)
              (if ent.ino == 0 then prev else some off) name name_len in
          if named
          then (if is_dot block (base + ent.name) name_len then hit none else unlinked)
          else rest
    ] in
    if ltb off size then found else exhausted

-- The directory blocks of one block of the file, from `base` on.
unfoldable pub remove_in_block : ℕ → Bytes → ℕ → ℕ → Bytes → ℕ → Found (Option (Bytes × ℕ))
remove_in_block zero block chunk base name name_len = if ltb base chunk then no_fuel else exhausted
remove_in_block (suc fuel) block chunk base name name_len =
    let left = chunk - base in
    let size = if ltb dirblksiz left then dirblksiz else left in
    let found : Found (Option (Bytes × ℕ)) =
      elim (remove_in_dirblk size block base size 0 none name name_len) [
        | hit r ↦ hit r
        | exhausted ↦ remove_in_block fuel block chunk (base + dirblksiz) name name_len
        | no_fuel ↦ no_fuel
      ] in
    if ltb base chunk then found else exhausted

module _ {W : Type 0} (os : Os W) (img : Image W) (inode_no : ℕ) (name : Bytes) (name_len : ℕ) where
  unfoldable pub commit_remove : ℕ → ℕ → Option (Bytes × ℕ) → M (Files W) ℕ
  commit_remove data_frag chunk none = fail einval
  commit_remove data_frag chunk (some (block, removed)) = do
    lift (or_fail eio (write_exact img block chunk (frag_offset img data_frag)))
    update_node_times os img inode_no
    pure removed

  unfoldable pub remove_in_blocks : ℕ → ℕ → ℕ → M (Files W) ℕ
  remove_in_blocks zero remaining block_index = if ltb 0 remaining then out_of_fuel else fail enoent
  remove_in_blocks (suc fuel) remaining block_index =
      let chunk = block_chunk img remaining in
      let round : M (Files W) ℕ = (do
        ino ← get_inode
        got ← lift (
            or_fail eio
              (inode_read_data img ino (mul64 block_index img.sb.block_size) zeroed chunk))
        require (not (leb 12 block_index || ino.db block_index == 0)) einval
        elim (remove_in_block chunk got.1 chunk 0 name name_len) [
          | hit r ↦ commit_remove (ino.db block_index) chunk r
          | exhausted ↦ remove_in_blocks fuel (remaining - chunk) (block_index + 1)
          | no_fuel ↦ out_of_fuel
        ]) in
      if ltb 0 remaining then round else fail enoent

  -- The inode number of the removed record.
  unfoldable pub remove_dirent : M (Files W) ℕ
  remove_dirent = do
    lift (malloc_or_fail os img.sb.block_size)
    ino ← get_inode
    remove_in_blocks ino.size ino.size 0
