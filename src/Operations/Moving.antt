-- ===== src/Operations/Moving.antt =====
-- What `nextufs_path_rename` has checked before it changes the image.
use nextufs_offline.Base.{ℕ, ◌+◌, ◌≡◌, ◌≢◌, ◌⊎◌, true, false, List, Option, some}
use nextufs_offline.Inode.{Inode}
use nextufs_offline.Io.{ok, M, Os, Image}
use nextufs_offline.Access.{w_ok, x_ok}
use nextufs_offline.Cg.{is_dir_mode}
use nextufs_offline.Path.{Node, path_lookup, path_lookup_nofollow}
use nextufs_offline.Path.Split.{path_split}
use nextufs_offline.Operations.{WriteCtx, ctx_ids_fit, is_dot_name}
use nextufs_offline.Operations.Climb.{IsClear}
use nextufs_offline.Operations.Rename.{same_path}
use nextufs_offline.Operations.Guards.{IsPermitted, IsStickyOk}

-- The nodes of a renaming that is allowed: they are what the path and the two paths of the parents
-- lead to, the caller may change both parents, also where the old one is sticky, a directory that
-- changes its parent may be written, and a directory does not stand above its new parent.
pub record IsMovable {W : Type 0} (os : Os W) (img : Image W) (ctx : WriteCtx)
    (path old_path new_path : List ℕ) (w : W) (source old_parent new_parent : Node) : Type 0 where
  pub source_world : W
  pub found_source : path_lookup_nofollow os img path w ≡ (ok source, source_world)
  pub old_world : W
  pub found_old : path_lookup os img old_path source_world ≡ (ok old_parent, old_world)
  pub new_world : W
  pub found_new : path_lookup os img new_path old_world ≡ (ok new_parent, new_world)
  pub may_leave : IsPermitted ctx old_parent.inode (w_ok + x_ok)
  pub may_enter : IsPermitted ctx new_parent.inode (w_ok + x_ok)
  pub in_directory : is_dir_mode new_parent.inode.mode ≡ true
  pub sticky : IsStickyOk ctx old_parent.inode source.inode
  pub may_write :
      is_dir_mode source.inode.mode ≡ true
      → old_parent.inode_no ≢ new_parent.inode_no
      → IsPermitted ctx source.inode w_ok
  pub no_cycle :
      is_dir_mode source.inode.mode ≡ true → IsClear os img source.inode_no new_parent new_world

module _ {W : Type 0} (os : Os W) where
  abbrev MovableNodes :
      Image W → WriteCtx → List ℕ → List ℕ → List ℕ → W → Node × (Node × Node) → Type 0
  MovableNodes img ctx path old new w nodes =
      IsMovable os img ctx path old new w nodes.0 (nodes.1).0 (nodes.1).1

  module _ (opened : M W (Image W)) (close : Image W → W → W) where
    abbrev pub IsRenameDone : Option WriteCtx → List ℕ → List ℕ → W → W → Type 0
    IsRenameDone octx source_path target_path w w' =
        (same_path source_path target_path ≡ true)
        ⊎ ((ctx : WriteCtx) × (img : Image W) × (source old_parent new_parent : Node) × (old_path
              old_name new_path new_name : List ℕ)
            × (w₀ w₁ w₂ w₃ : W) × (path_split source_path 4096 256 w
                ≡ (ok (old_path, old_name), w₁))
            × (path_split target_path 4096 256 w₁ ≡ (ok (new_path, new_name), w₂))
            × (is_dot_name old_name ≡ false)
            × (is_dot_name new_name ≡ false)
            × (octx ≡ some ctx)
            × (ctx_ids_fit ctx ≡ true)
            × (opened w₂ ≡ (ok img, w₀))
            × IsMovable os img ctx source_path old_path new_path w₀ source old_parent new_parent
            × (w' ≡ close img w₃))
