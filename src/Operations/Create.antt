-- ===== src/Operations/Create.antt =====
-- New files, links, devices and directories.
use nextufs_offline.Base.{
  ℕ, ◌+◌, ◌/◌, Bool, not, ◌||◌, List, Option, bit_and, bit_or, u16, u32, leb, ◌==◌, if◌then◌else◌,
}
use nextufs_offline.Memory.{Bytes, upd}
use nextufs_offline.Text.{nth, length}
use nextufs_offline.Inode.{Inode}
use nextufs_offline.Layout.{write_inode_raw}
use nextufs_offline.Io.{
  M, ◌>>=◌, ◌>>◌, pure, require, einval, enotdir, eperm, Os, Image, now, image_fsync,
  malloc_or_fail,
}
use nextufs_offline.Cg.{is_dir_mode}
use nextufs_offline.Alloc.Fragments.{allocate_frags_anycg}
use nextufs_offline.Alloc.Runs.{free_fragment_run}
use nextufs_offline.Alloc.InodeGroup.{allocate_inode_in_group, free_inode_in_group}
use nextufs_offline.Alloc.Indirect.{Files, lift, on_error, modify_inode, get_inode}
use nextufs_offline.Alloc.Storage.{allocate_data_for_inode}
use nextufs_offline.File.Symlink.{store_inline_symlink}
use nextufs_offline.Mutate.{dirblksiz}
use nextufs_offline.Mutate.Insert.{insert_dirent}
use nextufs_offline.Mutate.Parent.{write_new_directory_block}
use nextufs_offline.Path.{Node, path_lookup, path_lookup_nofollow}
use nextufs_offline.Path.Split.{path_split}
use nextufs_offline.Operations.{
  WriteCtx, set_new_inode_owner, sanitize_new_inode_mode, blank_inode, is_dot_name,
  require_parent_mutation, require_ctx_ids_fit, with_ctx, with_image, run_on, if_found,
  refuse_found, ignore,
}
use nextufs_offline.Operations.Inodes.{discard_new_inode}

-- A new inode of this mode, with its owner and its times.
unfoldable pub new_inode : WriteCtx → Inode → ℕ → ℕ → ℕ → ℕ → Inode
new_inode ctx parent mode nlink size time =
    let owned =
      sanitize_new_inode_mode ctx
        (set_new_inode_owner ctx parent (record blank_inode { mode = mode; nlink = nlink })) in
    record owned { size = size; atime = u32 time; mtime = u32 time; ctime = u32 time }

module _ {W : Type 0} (os : Os W) where
  -- The directory that gets the new entry, of a path where nothing is yet.
  unfoldable pub free_place : WriteCtx → Image W → List ℕ → List ℕ → M W Node
  free_place ctx img path parent_path = do
    parent ← path_lookup os img parent_path
    require (is_dir_mode parent.inode.mode) enotdir
    require_parent_mutation ctx parent.inode
    existing ← if_found (path_lookup_nofollow os img path)
    refuse_found existing
    pure parent

  -- That of a symbolic link, where nothing asks whether the parent is a directory.
  unfoldable pub link_place : WriteCtx → Image W → List ℕ → List ℕ → M W Node
  link_place ctx img path parent_path = do
    parent ← path_lookup os img parent_path
    require_parent_mutation ctx parent.inode
    existing ← if_found (path_lookup_nofollow os img path)
    refuse_found existing
    pure parent

  -- The parent's inode, once it has an entry for the inode; `insert_dirent` of the source changes
  -- the node of the parent.
  unfoldable pub enter_name : Image W → ℕ → Inode → List ℕ → ℕ → M W Inode
  enter_name img parent_no parent name inode_no = do
    entered ← run_on parent (insert_dirent os img parent_no inode_no (nth name) (length name))
    pure entered.1

  -- The inode is written and entered; it is discarded where one of these fails.
  unfoldable pub publish_inode : Image W → Node → List ℕ → ℕ → M (Files W) Inode
  publish_inode img parent name inode_no = do
    ino ← get_inode
    on_error (lift (write_inode_raw img inode_no ino)) (discard_new_inode os img inode_no)
    on_error (lift (enter_name img parent.inode_no parent.inode name inode_no))
        (discard_new_inode os img inode_no)

module _ {W : Type 0} (os : Os W) (opened : M W (Image W)) (close : Image W → W → W) where
  -- The guards in front of the opening of the image, and the image; `place` finds the parent.
  unfoldable pub new_name_at :
      (WriteCtx → Image W → List ℕ → List ℕ → M W Node)
      → Option WriteCtx
      → List ℕ
      → (WriteCtx → Image W → List ℕ → Node → M W (Unit {0}))
      → M W (Unit {0})
  new_name_at place octx path body = with_ctx octx (λ ctx. do
    require_ctx_ids_fit ctx
    split ← path_split path 4096 256
    require (not (is_dot_name split.1)) einval
    with_image opened close (λ img. do
      parent ← place ctx img path split.0
      body ctx img split.1 parent
      image_fsync img))

  abbrev pub at_new_name :
      Option WriteCtx
      → List ℕ
      → (WriteCtx → Image W → List ℕ → Node → M W (Unit {0}))
      → M W (Unit {0})
  at_new_name octx path body = new_name_at (free_place os) octx path body

  unfoldable pub path_create_file : Option WriteCtx → List ℕ → Bytes → ℕ → M W (Unit {0})
  path_create_file octx path bytes len = at_new_name octx path (λ ctx img name parent. do
    let parent_cg = parent.inode_no / img.sb.inodes_per_group
    new_inode_no ← allocate_inode_in_group os img parent_cg 0x81a4
    time ← now os
    run_on (new_inode ctx parent.inode 0x81a4 1 len time) (do
      on_error (allocate_data_for_inode os img parent_cg bytes len)
          (discard_new_inode os img new_inode_no)
      publish_inode os img parent name new_inode_no)
    pure tt)

  -- `nextufs_path_create_file_from_hostfile`; `host_size` is what `fopen`, `fseek` and `ftell` find,
  -- and `host_read` what `fread` reads of it, an error where `ferror` says so.
  unfoldable pub path_create_file_from_hostfile :
      M W ℕ → (ℕ → M W (ℕ × Bytes)) → Option WriteCtx → List ℕ → M W (Unit {0})
  path_create_file_from_hostfile host_size host_read octx path = do
    len ← host_size
    malloc_or_fail os (if len == 0 then 1 else len)
    got ← host_read len
    require (got.0 == len) einval
    path_create_file octx path got.1 len

  unfoldable pub path_symlink : Option WriteCtx → List ℕ → List ℕ → M W (Unit {0})
  path_symlink octx target link_path =
      new_name_at (link_place os) octx link_path (λ ctx img name parent. do
        let parent_cg = parent.inode_no / img.sb.inodes_per_group
        let len = length target
        new_inode_no ← allocate_inode_in_group os img parent_cg 0xa1ff
        time ← now os
        run_on (new_inode ctx parent.inode 0xa1ff 1 len time) (do
          if leb len 60
              then modify_inode
                  (λ ino. store_inline_symlink (record ino { flags = 1 }) (nth target) len)
              else on_error (allocate_data_for_inode os img parent_cg (nth target) len)
                  (discard_new_inode os img new_inode_no)
          publish_inode os img parent name new_inode_no)
        pure tt)

  abbrev pub is_node_type : ℕ → Bool
  is_node_type ifmt =
      ifmt == 0x8000 || ifmt == 0x1000 || ifmt == 0x2000 || ifmt == 0x6000 || ifmt == 0xc000

  abbrev pub with_device : ℕ → ℕ → Inode → Inode
  with_device ifmt rdev ino =
      if ifmt == 0x2000 || ifmt == 0x6000 then record ino { db = upd ino.db 0 rdev } else ino

  unfoldable pub path_mknod : Option WriteCtx → List ℕ → ℕ → ℕ → M W (Unit {0})
  path_mknod octx path mode rdev =
      let ifmt = bit_and mode 0xf000 in
      with_ctx octx (λ some_ctx.
        require (is_node_type ifmt) einval
        >> at_new_name octx path (λ ctx img name parent. do
          new_inode_no ←
              allocate_inode_in_group os img (parent.inode_no / img.sb.inodes_per_group) mode
          time ← now os
          run_on (with_device ifmt rdev (new_inode ctx parent.inode mode 1 0 time))
              (publish_inode os img parent name new_inode_no)
          pure tt))

  -- The block of the new directory; without it fragment and inode are given back.
  unfoldable pub first_block : Image W → ℕ → ℕ → ℕ → ℕ → M W (Unit {0})
  first_block img frag inode_no parent_no mode =
      on_error (write_new_directory_block os img frag inode_no parent_no) (
        ignore (free_fragment_run os img frag 1)
        >> ignore (free_inode_in_group os img inode_no mode))

  unfoldable pub new_directory : ℕ → WriteCtx → Image W → List ℕ → Node → M W (Unit {0})
  new_directory mode ctx img name parent = do
    let parent_cg = parent.inode_no / img.sb.inodes_per_group
    let dir_mode = bit_or 0x4000 (bit_and mode 0x1ff)
    new_inode_no ← allocate_inode_in_group os img parent_cg dir_mode
    alloc_frag ← allocate_frags_anycg os img parent_cg 1
    first_block img alloc_frag new_inode_no parent.inode_no dir_mode
    time ← now os
    let dir = new_inode ctx parent.inode dir_mode 2 dirblksiz time
    entered ←
        run_on (record dir { db = upd dir.db 0 alloc_frag; blocks = img.sb.sectors_per_frag })
          (publish_inode os img parent name new_inode_no)
    let changed = record (entered.0) {
      nlink = u16 ((entered.0).nlink + 1);
      ctime = u32 time;
      mtime = u32 time;
    }
    write_inode_raw img parent.inode_no changed

  unfoldable pub path_mkdir : Option WriteCtx → List ℕ → ℕ → M W (Unit {0})
  path_mkdir octx path mode = at_new_name octx path (new_directory mode)

  -- The new name of an inode that has one; the count is raised first.
  unfoldable pub path_link : Option WriteCtx → List ℕ → List ℕ → M W (Unit {0})
  path_link octx source_path target_path = with_ctx octx (λ ctx. do
    require_ctx_ids_fit ctx
    split ← path_split target_path 4096 256
    require (not (is_dot_name split.1)) einval
    with_image opened close (λ img. do
      parent ← path_lookup os img split.0
      require_parent_mutation ctx parent.inode
      source ← path_lookup_nofollow os img source_path
      require (not (is_dir_mode source.inode.mode)) eperm
      existing ← if_found (path_lookup_nofollow os img target_path)
      refuse_found existing
      time ← now os
      write_inode_raw img source.inode_no
          (record source.inode { nlink = u16 (source.inode.nlink + 1); ctime = u32 time })
      enter_name os img parent.inode_no parent.inode split.1 source.inode_no
      image_fsync img))
