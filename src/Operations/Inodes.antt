-- ===== src/Operations/Inodes.antt =====
-- The steps that the operations of src/mutate/mutate.c share: inodes are given up, rewritten and
-- discarded, and directories are climbed.
use nextufs_offline.Base.{
  ℕ, zero, suc, ◌+◌, ◌-◌, ◌^◌, Bool, true, false, not, ◌||◌, u16, u32, bit_and, ◌==◌, if◌then◌else◌,
}
use nextufs_offline.Memory.{Bytes, zeroed}
use nextufs_offline.Inode.{Inode}
use nextufs_offline.Layout.{write_inode_raw, inode_read}
use nextufs_offline.Io.{
  ok, err, hang, M, ◌>>=◌, ◌>>◌, pure, require, out_of_fuel, einval, Os, Image, now,
}
use nextufs_offline.Alloc.InodeGroup.{free_inode_in_group}
use nextufs_offline.Alloc.Indirect.{Files, lift, modify_inode, get_inode}
use nextufs_offline.Alloc.Storage.{free_file_storage, allocate_data_for_inode}
use nextufs_offline.Mutate.{set_times}
use nextufs_offline.Mutate.Parent.{read_directory_parent_inode}
use nextufs_offline.Path.{Node, root_inode}
use nextufs_offline.Operations.{blank_inode, run_on}

-- FIFOs, devices and sockets have no storage.
abbrev pub is_special : ℕ → Bool
is_special mode =
    let ifmt = bit_and mode 0xf000 in
    ifmt == 0x1000 || ifmt == 0x2000 || ifmt == 0x6000 || ifmt == 0xc000

abbrev pub clear_inode_layout : Inode → Inode
clear_inode_layout ino = record ino { db = zeroed; ib = zeroed; size = 0; blocks = 0 }

module _ {W : Type 0} (os : Os W) (img : Image W) where
  -- The last link is gone: storage, inode and bit are given up.
  unfoldable pub give_up_inode : ℕ → Inode → M W (Unit {0})
  give_up_inode inode_no ino = do
    freed ← (if is_special ino.mode then pure (tt, ino) else run_on ino (free_file_storage os img))
    write_inode_raw img inode_no blank_inode
    free_inode_in_group os img inode_no (freed.1).mode

  unfoldable pub remove_linked_inode : Node → M W (Unit {0})
  remove_linked_inode target = do
    require (not (target.inode.nlink == 0)) einval
    let left = target.inode.nlink - 1
    let ino = record target.inode { nlink = left }
    let kept : M W (Unit {0}) =
        now os >>= (λ time. write_inode_raw img target.inode_no (record ino { ctime = u32 time }))
    if left == 0 then give_up_inode target.inode_no ino else kept

  -- The parent's inode, with one link less.
  unfoldable pub remove_dir_inode : ℕ → Inode → Node → M W Inode
  remove_dir_inode parent_no parent target = do
    freed ← run_on target.inode (free_file_storage os img)
    write_inode_raw img target.inode_no blank_inode
    free_inode_in_group os img target.inode_no (freed.1).mode
    time ← now os
    let changed = record parent {
      nlink = u16 (parent.nlink + 2 ^ 16 - 1);
      ctime = u32 time;
      mtime = u32 time;
    }
    write_inode_raw img parent_no changed
    pure changed

  -- New contents first, then the inode, then the old storage is given up.
  unfoldable pub rewrite_inode_contents : ℕ → ℕ → Bytes → ℕ → M (Files W) (Unit {0})
  rewrite_inode_contents inode_no preferred_cg bytes len = do
    old ← get_inode
    modify_inode clear_inode_layout
    allocate_data_for_inode os img preferred_cg bytes len
    time ← lift (now os)
    modify_inode (set_times time)
    ino ← get_inode
    lift (write_inode_raw img inode_no ino)
    lift (run_on old (free_file_storage os img) >> pure tt)

  unfoldable pub discard_new_inode : ℕ → M (Files W) (Unit {0})
  discard_new_inode inode_no = do
    free_file_storage os img
    lift (write_inode_raw img inode_no blank_inode)
    ino ← get_inode
    lift (free_inode_in_group os img inode_no ino.mode)
    modify_inode clear_inode_layout

  -- `nextufs_node_get_by_inode` of src/core/node.c
  unfoldable pub node_get_by_inode : ℕ → M W Node
  node_get_by_inode inode_no = do
    read ← inode_read img inode_no
    pure (record { inode_no = inode_no; inode_off = read.1; inode = read.0 })

  -- Where a call fails, the answer is 0.
  unfoldable pub or_false : {A : Type 0} → M W A → (A → M W Bool) → M W Bool
  or_false m k w = elim (m w).0 [
    | ok a ↦ k a (m w).1
    | err e ↦ (ok false, (m w).1)
    | hang ↦ (hang, (m w).1)
  ]

  -- `nextufs__directory_has_ancestor`; its loop has no bound, and `hang` says that it is still
  -- running after so many rounds.
  unfoldable pub directory_has_ancestor : ℕ → Node → ℕ → M W Bool
  directory_has_ancestor zero cur ancestor = out_of_fuel
  directory_has_ancestor (suc rounds) cur ancestor =
      let up : M W Bool =
        or_false (read_directory_parent_inode os img cur.inode_no cur.inode) (λ parent.
          let above =
            or_false (node_get_by_inode parent)
              (λ next. directory_has_ancestor rounds next ancestor) in
          if parent == cur.inode_no then pure false else above) in
      if cur.inode_no == ancestor
      then pure true
      else if cur.inode_no == root_inode
      then pure false
      else up
