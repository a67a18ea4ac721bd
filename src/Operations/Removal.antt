-- ===== src/Operations/Removal.antt =====
-- What `nextufs_path_unlink` and `nextufs_path_rmdir` have checked where they succeed.
use nextufs_offline.Base.{ℕ, ◌+◌, ◌≡◌, true, false, List, Option, some}
use nextufs_offline.Text.{nth, length}
use nextufs_offline.Inode.{Inode}
use nextufs_offline.Io.{ok, M, Os, Image, image_fsync}
use nextufs_offline.Access.{w_ok, x_ok}
use nextufs_offline.Cg.{is_dir_mode}
use nextufs_offline.Mutate.Parent.{directory_is_empty}
use nextufs_offline.Path.{Node, path_lookup, path_lookup_nofollow}
use nextufs_offline.Path.Split.{path_split}
use nextufs_offline.Operations.{WriteCtx, ctx_ids_fit, is_dot_name}
use nextufs_offline.Operations.Remove.{leave_name}
use nextufs_offline.Mutate.Erased.{IsEntryErased}
use nextufs_offline.Mutate.Empty.{EveryBlockEmpty}
use nextufs_offline.Operations.Effects.{IsLinkRemoved, IsDirRemoved}
use nextufs_offline.Operations.Guards.{IsPermitted, IsStickyOk}

-- An entry that the caller may remove from a directory: what the path leads to, and the directory.
pub record IsRemovable {W : Type 0} (os : Os W) (img : Image W) (ctx : WriteCtx)
    (path parent_path : List ℕ) (w : W) (parent target : Node) : Type 0 where
  pub parent_world : W
  pub found_parent : path_lookup os img parent_path w ≡ (ok parent, parent_world)
  pub target_world : W
  pub found_target : path_lookup_nofollow os img path parent_world ≡ (ok target, target_world)
  pub may_change : IsPermitted ctx parent.inode (w_ok + x_ok)
  pub sticky : IsStickyOk ctx parent.inode target.inode

-- An entry that is unlinked: of a file, in a directory, and the caller may write the file. Its record
-- is erased in the directory, and the file has one link less.
pub record IsUnlinked {W : Type 0} (os : Os W) (img : Image W) (ctx : WriteCtx)
    (path parent_path name : List ℕ) (w w' : W) : Type 0 where
  pub parent : Node
  pub target : Node
  pub removable : IsRemovable os img ctx path parent_path w parent target
  pub in_directory : is_dir_mode parent.inode.mode ≡ true
  pub no_directory : is_dir_mode target.inode.mode ≡ false
  pub may_write : IsPermitted ctx target.inode w_ok
  pub left : Inode
  pub left_world : W
  pub entry_removed :
      leave_name os img parent.inode_no parent.inode name target.inode_no removable.target_world
      ≡ (ok left, left_world)
  pub erased :
      IsEntryErased img parent.inode
        (nth name)
        (length name)
        target.inode_no
        parent.inode.size
        0
        ((os.malloc img.sb.block_size removable.target_world).1)
  pub final_world : W
  pub link_removed : IsLinkRemoved os img target left_world final_world
  pub synced : image_fsync img final_world ≡ (ok tt, w')

-- A directory that is removed: it has no other links and holds only "." and "..". Its record is
-- erased in its parent, its storage and its inode are given up, and the parent has one link less.
pub record IsEmptied {W : Type 0} (os : Os W) (img : Image W) (ctx : WriteCtx)
    (path parent_path name : List ℕ) (w w' : W) : Type 0 where
  pub parent : Node
  pub target : Node
  pub removable : IsRemovable os img ctx path parent_path w parent target
  pub directory : is_dir_mode target.inode.mode ≡ true
  pub two_links : target.inode.nlink ≡ 2
  pub seen_world : W
  pub seen_empty :
      directory_is_empty os img target.inode_no target.inode parent.inode_no removable.target_world
      ≡ (ok true, seen_world)
  pub only_dots :
      EveryBlockEmpty img target.inode_no parent.inode_no target.inode target.inode.size 0 false
        false
        ((os.malloc img.sb.block_size removable.target_world).1)
  pub left : Inode
  pub left_world : W
  pub entry_removed :
      leave_name os img parent.inode_no parent.inode name target.inode_no seen_world
      ≡ (ok left, left_world)
  pub erased :
      IsEntryErased img parent.inode
        (nth name)
        (length name)
        target.inode_no
        parent.inode.size
        0
        ((os.malloc img.sb.block_size seen_world).1)
  pub final_world : W
  pub inode_removed : IsDirRemoved os img parent.inode_no left target left_world final_world
  pub synced : image_fsync img final_world ≡ (ok tt, w')

module _ {W : Type 0} (os : Os W) where
  module _ (opened : M W (Image W)) (close : Image W → W → W) where
    abbrev pub IsUnlinkDone : Option WriteCtx → List ℕ → W → W → Type 0
    IsUnlinkDone octx path w w' =
        (ctx : WriteCtx) × (img : Image W) × (parent_path name : List ℕ) × (w₀ w₁ w₂ : W) × (octx
          ≡ some ctx)
        × (ctx_ids_fit ctx ≡ true)
        × (path_split path 4096 256 w ≡ (ok (parent_path, name), w₁))
        × (is_dot_name name ≡ false)
        × (opened w₁ ≡ (ok img, w₀))
        × IsUnlinked os img ctx path parent_path name w₀ w₂
        × (w' ≡ close img w₂)

    abbrev pub IsRmdirDone : Option WriteCtx → List ℕ → W → W → Type 0
    IsRmdirDone octx path w w' =
        (ctx : WriteCtx) × (img : Image W) × (parent_path name : List ℕ) × (w₀ w₁ w₂ : W) × (octx
          ≡ some ctx)
        × (ctx_ids_fit ctx ≡ true)
        × (path_split path 4096 256 w ≡ (ok (parent_path, name), w₁))
        × (opened w₁ ≡ (ok img, w₀))
        × IsEmptied os img ctx path parent_path name w₀ w₂
        × (w' ≡ close img w₂)
