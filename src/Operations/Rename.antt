-- ===== src/Operations/Rename.antt =====
-- `nextufs_path_rename`. The nodes of the two parents are two copies, also where both are of the
-- same directory, as in the source.
use nextufs_offline.Base.{
  ℕ, ◌+◌, ◌-◌, ◌^◌, Bool, true, false, not, ◌&&◌, List, [], ◌∷◌, Option, none, some, u16, u32, ltb,
  ◌==◌, if◌then◌else◌,
}
use nextufs_offline.Inode.{Inode}
use nextufs_offline.Layout.{write_inode_raw}
use nextufs_offline.Io.{
  M, ◌>>=◌, ◌>>◌, pure, require, einval, enotdir, eisdir, eperm, enotempty, Os, Image, now,
  image_fsync,
}
use nextufs_offline.Access.{w_ok}
use nextufs_offline.Cg.{is_dir_mode}
use nextufs_offline.Mutate.Parent.{directory_is_empty, update_directory_parent_inode}
use nextufs_offline.Path.{Node, path_lookup, path_lookup_nofollow}
use nextufs_offline.Path.Split.{path_split}
use nextufs_offline.Operations.{
  WriteCtx, sticky_ok, is_dot_name, require_user_access, require_parent_mutation,
  require_ctx_ids_fit, with_ctx, with_image, run_on, if_found,
}
use nextufs_offline.Operations.Inodes.{
  remove_linked_inode, remove_dir_inode, directory_has_ancestor,
}
use nextufs_offline.Operations.Create.{enter_name}
use nextufs_offline.Operations.Remove.{leave_name}

-- `strcmp(a, b) == 0`
unfoldable pub same_path : List ℕ → List ℕ → Bool
same_path [] [] = true
same_path [] (b ∷ bs) = false
same_path (a ∷ cs) [] = false
same_path (a ∷ cs) (b ∷ bs) = let rest = same_path cs bs in a == b && rest

abbrev pub touch_links : ℕ → ℕ → Inode → Inode
touch_links nlink time ino = record ino { nlink = u16 nlink; ctime = u32 time; mtime = u32 time }

module _ {W : Type 0} (os : Os W) where
  -- Source, old parent and new parent of a renaming that the caller may do.
  unfoldable pub rename_nodes :
      ℕ → WriteCtx → Image W → List ℕ → List ℕ → List ℕ → M W (Node × (Node × Node))
  rename_nodes rounds ctx img source_path old_parent_path new_parent_path = do
    source ← path_lookup_nofollow os img source_path
    old_parent ← path_lookup os img old_parent_path
    require_parent_mutation ctx old_parent.inode
    new_parent ← path_lookup os img new_parent_path
    require (is_dir_mode new_parent.inode.mode) enotdir
    require_parent_mutation ctx new_parent.inode
    let moving = is_dir_mode source.inode.mode
    let changing = not (old_parent.inode_no == new_parent.inode_no)
    require (sticky_ok ctx old_parent.inode source.inode) eperm
    (if moving && changing then require_user_access ctx source.inode w_ok else pure tt)
    below ←
        (if moving
          then directory_has_ancestor os img rounds new_parent source.inode_no
          else pure false)
    require (not below) einval
    pure (source, (old_parent, new_parent))

  -- The node that has the new name gives it up; the new parent's inode afterwards.
  unfoldable pub replace_existing : WriteCtx → Image W → Bool → Node → List ℕ → Node → M W Inode
  replace_existing ctx img moving new_parent new_name existing = do
    let existing_is_dir = is_dir_mode existing.inode.mode
    require (if moving then existing_is_dir else not existing_is_dir)
        (if moving then enotdir else eisdir)
    require (sticky_ok ctx new_parent.inode existing.inode) eperm
    empty ←
        (if moving && not (ltb 2 existing.inode.nlink)
          then directory_is_empty os img existing.inode_no existing.inode new_parent.inode_no
          else pure (not moving))
    require empty enotempty
    left ← leave_name os img new_parent.inode_no new_parent.inode new_name existing.inode_no
    if moving
        then remove_dir_inode os img new_parent.inode_no left existing
        else remove_linked_inode os img existing >> pure left

  -- A directory that changes its parent; its own inode and that of the two parents.
  unfoldable pub change_parent : Image W → ℕ → Node → ℕ → Inode → ℕ → Inode → M W Inode
  change_parent img time source old_no old_inode new_no new_inode = do
    updated ← run_on source.inode (update_directory_parent_inode os img source.inode_no new_no)
    write_inode_raw img old_no (touch_links (old_inode.nlink + 2 ^ 16 - 1) time old_inode)
    write_inode_raw img new_no (touch_links (new_inode.nlink + 1) time new_inode)
    pure updated.1

  -- The new name is entered, the old one goes, and links and times follow.
  unfoldable pub move_entry : Image W → Node → Node → List ℕ → ℕ → Inode → List ℕ → M W (Unit {0})
  move_entry img source old_parent old_name new_no new_inode new_name = do
    entered ← enter_name os img new_no new_inode new_name source.inode_no
    left ← leave_name os img old_parent.inode_no old_parent.inode old_name source.inode_no
    time ← now os
    moved ←
        (if is_dir_mode source.inode.mode && not (old_parent.inode_no == new_no)
          then change_parent img time source old_parent.inode_no left new_no entered
          else pure source.inode)
    write_inode_raw img source.inode_no (record moved { ctime = u32 time })
    image_fsync img

  unfoldable pub rename_onto :
      WriteCtx → Image W → Node × (Node × Node) → List ℕ → List ℕ → Option Node → M W (Unit {0})
  rename_onto ctx img (source, (old_parent, new_parent)) old_name new_name none =
      move_entry img source old_parent old_name new_parent.inode_no new_parent.inode new_name
  rename_onto ctx img (source, (old_parent, new_parent)) old_name new_name (some existing) =
      let replaced : M W (Unit {0}) =
        replace_existing ctx img (is_dir_mode source.inode.mode) new_parent new_name existing
        >>= (λ left. move_entry img source old_parent old_name new_parent.inode_no left new_name) in
      if existing.inode_no == source.inode_no then pure tt else replaced

  unfoldable pub rename_at :
      ℕ → WriteCtx → Image W → List ℕ → List ℕ × List ℕ → List ℕ → List ℕ × List ℕ → M W (Unit {0})
  rename_at rounds ctx img source_path old target_path new = do
    nodes ← rename_nodes rounds ctx img source_path old.0 new.0
    existing ← if_found (path_lookup_nofollow os img target_path)
    rename_onto ctx img nodes old.1 new.1 existing

  module _ (opened : M W (Image W)) (close : Image W → W → W) where
    -- `rounds` bounds the climb of `nextufs__directory_has_ancestor`.
    unfoldable pub path_rename : ℕ → Option WriteCtx → List ℕ → List ℕ → M W (Unit {0})
    path_rename rounds octx source_path target_path = with_ctx octx (λ ctx. do
      require_ctx_ids_fit ctx
      old ← path_split source_path 4096 256
      require (not (is_dot_name old.1)) einval
      new ← path_split target_path 4096 256
      require (not (is_dot_name new.1)) enotempty
      if same_path source_path target_path
          then pure tt
          else with_image opened close
              (λ img. rename_at rounds ctx img source_path old target_path new))
