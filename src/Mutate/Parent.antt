-- ===== src/Mutate/Parent.antt =====
-- "." and "..": new directories, the test that a directory holds nothing else, and the parent.
use nextufs_offline.Base.{
  ℕ, zero, suc, ◌+◌, ◌-◌, Bool, true, false, not, ◌&&◌, Option, none, some, u16, mul64, ltb, leb,
  ◌==◌, if◌then◌else◌,
}
use nextufs_offline.Memory.{Bytes, zeroed, write_be32}
use nextufs_offline.Inode.{Inode}
use nextufs_offline.Layout.{DirentView, read_dirent, dirent_size, frag_offset}
use nextufs_offline.Io.{
  ok, err, hang, M, ◌>>=◌, ◌>>◌, pure, fail, or_fail, out_of_fuel, require, einval, eio, enotdir,
  Os, Image, write_exact, malloc_or_fail,
}
use nextufs_offline.Cg.{is_dir_mode}
use nextufs_offline.Alloc.Indirect.{Files, lift, get_inode}
use nextufs_offline.File.{inode_read_data}
use nextufs_offline.Dirent.{write_dirent_raw}
use nextufs_offline.Directory.{block_chunk}
use nextufs_offline.Mutate.{dirblksiz, update_node_times}

abbrev dots : Bytes
dots j = b'.'

-- The name of a record is "." or "..".
abbrev pub is_self_name : Bytes → DirentView → Bool
is_self_name block ent = (ent.namlen == 1) && (block ent.name == b'.')

abbrev pub is_parent_name : Bytes → DirentView → Bool
is_parent_name block ent =
    (ent.namlen == 2) && (block ent.name == b'.') && (block (ent.name + 1) == b'.')

-- The buffer of `nextufs__write_new_directory_block`.
unfoldable pub new_directory_block : ℕ → ℕ → Option Bytes
new_directory_block self_ino parent_ino =
    elim (write_dirent_raw zeroed 0 self_ino (u16 (dirent_size 1)) dots 1) [
      | none ↦ none
      | some b ↦
          write_dirent_raw b (dirent_size 1) parent_ino (u16 (dirblksiz - dirent_size 1)) dots 2
    ]

-- What `nextufs__directory_is_empty` has seen; `none` is its early return of 0.
abbrev pub Seen : Type 0
Seen = Option (Bool × Bool)

unfoldable pub see : ℕ → ℕ → Bytes → DirentView → Bool → Bool → Seen
see self_ino parent_ino block ent dot dotdot =
    if ent.ino == 0
    then some (dot, dotdot)
    else if is_self_name block ent
    then (if ent.ino == self_ino then some (true, dotdot) else none)
    else if is_parent_name block ent
    then (if ent.ino == parent_ino then some (dot, true) else none)
    else none

-- The loops of `nextufs__directory_is_empty` on one block; the fuel is the block's size, and
-- without any left the directory counts as not empty.
unfoldable pub see_block : ℕ → ℕ → ℕ → Bytes → ℕ → ℕ → Bool → Bool → Seen
see_block zero self_ino parent_ino block chunk off dot dotdot =
    if ltb off chunk then none else some (dot, dotdot)
see_block (suc fuel) self_ino parent_ino block chunk off dot dotdot =
    let seen : Seen = elim (read_dirent block chunk off) [
      | none ↦ none
      | some ent ↦ elim (see self_ino parent_ino block ent dot dotdot) [
        | none ↦ none
        | some (d, dd) ↦ see_block fuel self_ino parent_ino block chunk (off + ent.reclen) d dd
      ]
    ] in
    if ltb off chunk then seen else some (dot, dotdot)

module _ {W : Type 0} (os : Os W) (img : Image W) where
  unfoldable pub write_new_directory_block : ℕ → ℕ → ℕ → M W (Unit {0})
  write_new_directory_block frag_addr self_ino parent_ino =
      elim (new_directory_block self_ino parent_ino) [
        | none ↦ fail einval
        | some b ↦ write_exact img b dirblksiz (frag_offset img frag_addr)
      ]

  unfoldable pub see_blocks : ℕ → ℕ → ℕ → Inode → ℕ → ℕ → Bool → Bool → M W Bool
  see_blocks zero self_ino parent_ino ino remaining block_index dot dotdot =
      if ltb 0 remaining then out_of_fuel else pure (dot && dotdot)
  see_blocks (suc fuel) self_ino parent_ino ino remaining block_index dot dotdot =
      let chunk = block_chunk img remaining in
      let round : M W Bool =
        inode_read_data img ino (mul64 block_index img.sb.block_size) zeroed chunk >>= (λ got.
          elim (see_block chunk self_ino parent_ino got.1 chunk 0 dot dotdot) [
            | none ↦ pure false
            | some (d, dd) ↦
                see_blocks fuel self_ino parent_ino ino (remaining - chunk) (block_index + 1) d dd
          ]) in
      if ltb 0 remaining then round else pure (dot && dotdot)

  -- An error counts as not empty.
  unfoldable pub false_on_error : M W Bool → M W Bool
  false_on_error m w = elim (m w).0 [
    | ok b ↦ (ok b, (m w).1)
    | err e ↦ (ok false, (m w).1)
    | hang ↦ (hang, (m w).1)
  ]

  unfoldable pub directory_is_empty : ℕ → Inode → ℕ → M W Bool
  directory_is_empty inode_no ino parent_ino =
      if is_dir_mode ino.mode
      then false_on_error (
          malloc_or_fail os img.sb.block_size
          >> see_blocks ino.size inode_no parent_ino ino ino.size 0 false false)
      else pure false

  abbrev entry : Bytes → ℕ → M W DirentView
  entry block off = elim (read_dirent block dirblksiz off) [
    | none ↦ fail einval
    | some ent ↦ pure ent
  ]

  -- The inode of "..", which must follow a "." of the directory itself.
  unfoldable pub read_directory_parent_inode : ℕ → Inode → M W ℕ
  read_directory_parent_inode inode_no ino = do
    require (is_dir_mode ino.mode && leb dirblksiz ino.size) enotdir
    got ← or_fail eio (inode_read_data img ino 0 zeroed dirblksiz)
    self ← entry got.1 0
    require ((self.ino == inode_no) && is_self_name got.1 self) einval
    parent ← entry got.1 self.reclen
    require (is_parent_name got.1 parent) einval
    pure parent.ino

  unfoldable pub update_directory_parent_inode : ℕ → ℕ → M (Files W) (Unit {0})
  update_directory_parent_inode inode_no parent_inode = do
    ino ← get_inode
    require (is_dir_mode ino.mode && leb dirblksiz ino.size && not (ino.db 0 == 0)) enotdir
    got ← lift (or_fail eio (inode_read_data img ino 0 zeroed dirblksiz))
    self ← lift (entry got.1 0)
    parent ← lift (entry got.1 self.reclen)
    require (is_parent_name got.1 parent) einval
    lift (
        write_exact img (write_be32 got.1 self.reclen parent_inode) dirblksiz
          (frag_offset img (ino.db 0)))
    update_node_times os img inode_no
