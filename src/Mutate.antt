-- ===== src/Mutate.antt =====
-- src/mutate/dir_mutate.c: records are entered into and removed from a directory. The node of the
-- source is the inode number, an argument here, and the inode, kept in `Files`.
pub mod Insert
pub mod Remove
pub mod Erased
pub mod Empty
pub mod Parent
use nextufs_offline.Base.{
  ℕ, zero, suc, ◌+◌, ◌-◌, ◌*◌, ◌/◌, ◌%◌, ◌^◌, not, ◌||◌, u32, add32, sub32, add64, mul32, ltb, leb,
  ◌==◌, if◌then◌else◌,
}
use nextufs_offline.Inode.{Inode}
use nextufs_offline.Layout.{frag_offset, write_inode_raw, inode_read}
use nextufs_offline.Io.{
  Result, ok, err, hang, M, ◌>>=◌, ◌>>◌, pure, fail, require, einval, enospc, efbig, Os, Image, now,
}
use nextufs_offline.Alloc.Fragments.{allocate_frags_anycg}
use nextufs_offline.Alloc.Runs.{extend_fragment_run, reallocate_fragment_run}
use nextufs_offline.Alloc.Indirect.{Files, lift, modify_inode, get_inode, set_db}

abbrev pub dirblksiz : ℕ
dirblksiz = 1024

abbrev pub set_times : ℕ → Inode → Inode
set_times t ino = record ino { mtime = u32 t; ctime = u32 t; atime = u32 t }

abbrev pub set_size : ℕ → ℕ → Inode → Inode
set_size size more_blocks ino = record ino { size = size; blocks = add32 ino.blocks more_blocks }

module _ {W : Type 0} (os : Os W) (img : Image W) where
  -- The inode is written and read back.
  unfoldable pub update_node_times : ℕ → M (Files W) (Unit {0})
  update_node_times inode_no = do
    time ← lift (now os)
    modify_inode (set_times time)
    ino ← get_inode
    lift (write_inode_raw img inode_no ino)
    again ← lift (inode_read img inode_no)
    modify_inode (λ old. again.0)

  -- A full group of the directory's own sends the run to another place.
  unfoldable pub extend_or_move : ℕ → ℕ → ℕ → ℕ → M W ℕ
  extend_or_move frag old_frags new_frags preferred_cg w =
      let extended = extend_fragment_run os img frag old_frags new_frags w in
      elim extended.0 [
        | ok _ ↦ (ok frag, extended.1)
        | err enospc ↦
            reallocate_fragment_run os img frag old_frags new_frags preferred_cg extended.1
        | err e ↦ (err e, extended.1)
        | hang ↦ (hang, extended.1)
      ]

  -- The last block of the directory gets room for one more directory block.
  unfoldable pub grow_last_block : ℕ → ℕ → ℕ → ℕ → M (Files W) ℕ
  grow_last_block inode_no logical_block old_frags new_frags = do
    ino ← get_inode
    let old_frag = ino.db logical_block
    require (not (old_frag == 0)) einval
    alloc_frag ←
        (if ltb old_frags new_frags
          then lift
              (extend_or_move old_frag old_frags new_frags (inode_no / img.sb.inodes_per_group))
          else pure old_frag)
    modify_inode (set_db logical_block alloc_frag)
    pure alloc_frag

  -- A directory that ends with a block gets a new one, of a single fragment.
  unfoldable pub grow_new_block : ℕ → ℕ → M (Files W) ℕ
  grow_new_block inode_no logical_block = do
    alloc_frag ← lift (allocate_frags_anycg os img (inode_no / img.sb.inodes_per_group) 1)
    modify_inode (set_db logical_block alloc_frag)
    pure alloc_frag

  -- `nextufs__grow_directory_by_dirblk`: the offset of the new directory block.
  unfoldable pub grow_directory_by_dirblk : ℕ → M (Files W) ℕ
  grow_directory_by_dirblk inode_no = do
    ino ← get_inode
    let old_size = ino.size
    require (old_size % dirblksiz == 0) einval
    let logical_block = u32 (old_size / img.sb.block_size)
    require (ltb logical_block 12) efbig
    let inblock = old_size % img.sb.block_size
    let old_frags = u32 ((inblock + img.sb.frag_size - 1) / img.sb.frag_size)
    let new_frags =
        if inblock == 0
        then 1
        else u32 ((inblock + dirblksiz + img.sb.frag_size - 1) / img.sb.frag_size)
    alloc_frag ←
        (if inblock == 0
          then grow_new_block inode_no logical_block
          else grow_last_block inode_no logical_block old_frags new_frags)
    modify_inode (
        set_size (add64 old_size dirblksiz)
          (mul32 (sub32 new_frags (if inblock == 0 then 0 else old_frags)) img.sb.sectors_per_frag))
    update_node_times inode_no
    pure (add64 (frag_offset img alloc_frag) inblock)
