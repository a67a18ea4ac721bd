-- ===== src/Operations/Remove.antt =====
-- Entries are removed: `nextufs_path_unlink` and `nextufs_path_rmdir`.
use nextufs_offline.Base.{ℕ, false, not, List, Option, ◌==◌, if◌then◌else◌}
use nextufs_offline.Text.{nth, length}
use nextufs_offline.Inode.{Inode}
use nextufs_offline.Io.{
  M, ◌>>=◌, ◌>>◌, pure, require, einval, enotdir, eisdir, eperm, enotempty, Os, Image, image_fsync,
}
use nextufs_offline.Access.{w_ok}
use nextufs_offline.Cg.{is_dir_mode}
use nextufs_offline.Mutate.Remove.{remove_dirent}
use nextufs_offline.Mutate.Parent.{directory_is_empty}
use nextufs_offline.Path.{path_lookup, path_lookup_nofollow}
use nextufs_offline.Path.Split.{path_split}
use nextufs_offline.Operations.{
  WriteCtx, sticky_ok, is_dot_name, require_user_access, require_parent_mutation,
  require_ctx_ids_fit, with_ctx, with_image, run_on,
}
use nextufs_offline.Operations.Inodes.{remove_linked_inode, remove_dir_inode}

module _ {W : Type 0} (os : Os W) where
  -- The entry goes, and has to be that of the inode; the parent's inode afterwards.
  unfoldable pub leave_name : Image W → ℕ → Inode → List ℕ → ℕ → M W Inode
  leave_name img parent_no parent name inode_no = do
    removed ← run_on parent (remove_dirent os img parent_no (nth name) (length name))
    require (removed.0 == inode_no) einval
    pure removed.1

  unfoldable pub unlink_at : WriteCtx → Image W → List ℕ → List ℕ × List ℕ → M W (Unit {0})
  unlink_at ctx img path split = do
    parent ← path_lookup os img split.0
    require (is_dir_mode parent.inode.mode) enotdir
    require_parent_mutation ctx parent.inode
    target ← path_lookup_nofollow os img path
    require (not (is_dir_mode target.inode.mode)) eisdir
    require (sticky_ok ctx parent.inode target.inode) eperm
    require_user_access ctx target.inode w_ok
    leave_name img parent.inode_no parent.inode split.1 target.inode_no
    remove_linked_inode os img target
    image_fsync img

  unfoldable pub rmdir_at : WriteCtx → Image W → List ℕ → List ℕ × List ℕ → M W (Unit {0})
  rmdir_at ctx img path split = do
    parent ← path_lookup os img split.0
    require_parent_mutation ctx parent.inode
    target ← path_lookup_nofollow os img path
    require (is_dir_mode target.inode.mode) enotdir
    require (sticky_ok ctx parent.inode target.inode) eperm
    empty ←
        (if target.inode.nlink == 2
          then directory_is_empty os img target.inode_no target.inode parent.inode_no
          else pure false)
    require empty enotempty
    left ← leave_name img parent.inode_no parent.inode split.1 target.inode_no
    remove_dir_inode os img parent.inode_no left target
    image_fsync img

  module _ (opened : M W (Image W)) (close : Image W → W → W) where
    unfoldable pub path_unlink : Option WriteCtx → List ℕ → M W (Unit {0})
    path_unlink octx path = with_ctx octx (λ ctx. do
      require_ctx_ids_fit ctx
      split ← path_split path 4096 256
      require (not (is_dot_name split.1)) einval
      with_image opened close (λ img. unlink_at ctx img path split))

    unfoldable pub path_rmdir : Option WriteCtx → List ℕ → M W (Unit {0})
    path_rmdir octx path = with_ctx octx (λ ctx. do
      require_ctx_ids_fit ctx
      split ← path_split path 4096 256
      with_image opened close (λ img. rmdir_at ctx img path split))
