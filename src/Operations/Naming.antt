-- ===== src/Operations/Naming.antt =====
-- Where a new name is entered by `nextufs_path_create_file`, `nextufs_path_mknod` and
-- `nextufs_path_mkdir`.
use nextufs_offline.Base.{ℕ, ◌+◌, ◌≡◌, true, false, List, Option, some, ◌/◌, bit_and}
use nextufs_offline.Inode.{Inode}
use nextufs_offline.Io.{ok, err, enoent, M, Os, Image, now, image_fsync}
use nextufs_offline.Access.{w_ok, x_ok}
use nextufs_offline.Cg.{is_dir_mode}
use nextufs_offline.Path.{Node, path_lookup, path_lookup_nofollow}
use nextufs_offline.Path.Split.{path_split}
use nextufs_offline.Operations.{WriteCtx, is_user, ctx_ids_fit, is_dot_name}
use nextufs_offline.Layout.{write_inode_raw}
use nextufs_offline.Alloc.InodeGroup.{allocate_inode_in_group}
use nextufs_offline.Alloc.Indirect.{Files}
use nextufs_offline.Operations.Create.{new_inode, free_place, enter_name, is_node_type, with_device}
use nextufs_offline.Operations.Guards.{IsPermitted}

-- A path where nothing is yet, in a directory that the caller may change.
pub record IsFreePlace {W : Type 0} (os : Os W) (img : Image W) (ctx : WriteCtx)
    (path parent_path : List ℕ) (w : W) (parent : Node) : Type 0 where
  pub parent_world : W
  pub found_parent : path_lookup os img parent_path w ≡ (ok parent, parent_world)
  pub in_directory : is_dir_mode parent.inode.mode ≡ true
  pub may_enter : IsPermitted ctx parent.inode (w_ok + x_ok)
  pub nothing_there : (path_lookup_nofollow os img path parent_world).0 ≡ err enoent

-- The new inode belongs to the caller, or to the superuser and the group of its directory.
pub record IsOwned (ctx : WriteCtx) (parent ino : Inode) : Type 0 where
  pub of_user : is_user ctx ≡ true → (ino.uid ≡ ctx.uid) × (ino.gid ≡ ctx.gid)
  pub of_superuser : is_user ctx ≡ false → (ino.uid ≡ 0) × (ino.gid ≡ parent.gid)

module _ {W : Type 0} (os : Os W) where
  module _ (opened : M W (Image W)) (close : Image W → W → W) where
    abbrev IsNamed :
        Option WriteCtx
        → List ℕ
        → (WriteCtx → Image W → List ℕ → Node → M W (Unit {0}))
        → W
        → W
        → Type 0
    IsNamed octx path body w w' =
        (ctx : WriteCtx) × (img : Image W) × (parent_path name : List ℕ) × (parent : Node) × (w₀ w₁
          w₂ w₃ w₄ : W)
        × (octx ≡ some ctx)
        × (ctx_ids_fit ctx ≡ true)
        × (path_split path 4096 256 w ≡ (ok (parent_path, name), w₁))
        × (is_dot_name name ≡ false)
        × (opened w₁ ≡ (ok img, w₀))
        × (free_place os ctx img path parent_path w₀ ≡ (ok parent, w₂))
        × (body ctx img name parent w₂ ≡ (ok tt, w₃))
        × (image_fsync img w₃ ≡ (ok tt, w₄))
        × (w' ≡ close img w₄)

    -- A node that is made: where nothing was, with an inode that the group of the directory had free,
    -- and that is written as the caller's and entered in the directory.
    pub record IsNodeMade (octx : Option WriteCtx) (path : List ℕ) (mode rdev : ℕ) (w w' : W)
        : Type 0 where
      pub ctx : WriteCtx
      pub some_ctx : octx ≡ some ctx
      pub node_type : is_node_type os opened close (bit_and mode 0xf000) ≡ true
      pub parent_path : List ℕ
      pub name : List ℕ
      pub split_world : W
      pub splits : path_split path 4096 256 w ≡ (ok (parent_path, name), split_world)
      pub no_dots : is_dot_name name ≡ false
      pub img : Image W
      pub open_world : W
      pub opens : opened split_world ≡ (ok img, open_world)
      pub parent : Node
      pub place : IsFreePlace os img ctx path parent_path open_world parent
      pub place_world : W
      pub placed : free_place os ctx img path parent_path open_world ≡ (ok parent, place_world)
      pub inode_no : ℕ
      pub taken_world : W
      pub taken :
          allocate_inode_in_group os img
            (parent.inode_no / img.sb.inodes_per_group)
            mode
            place_world
          ≡ (ok inode_no, taken_world)
      pub time : ℕ
      pub time_world : W
      pub told : now os taken_world ≡ (ok time, time_world)
      pub ino : Inode
      pub made :
          ino
          ≡ with_device os opened close
              (bit_and mode 0xf000)
              rdev
              (new_inode ctx parent.inode mode 1 0 time)
      pub owned : IsOwned ctx parent.inode ino
      pub written_world : W
      pub written : write_inode_raw img inode_no ino time_world ≡ (ok tt, written_world)
      pub left : Inode
      pub entered_world : W
      pub entered :
          enter_name os img parent.inode_no parent.inode name inode_no written_world
          ≡ (ok left, entered_world)
      pub synced_world : W
      pub synced : image_fsync img entered_world ≡ (ok tt, synced_world)
      pub closed : w' ≡ close img synced_world

    abbrev IsPublished : Image W → Node → List ℕ → ℕ → Files W → Files W → Type 0
    IsPublished img parent name inode_no s s' =
        (v : W) × (left : Inode) × (write_inode_raw img inode_no s.ino s.world ≡ (ok tt, v))
        × (enter_name os img parent.inode_no parent.inode name inode_no v ≡ (ok left, s'.world))
