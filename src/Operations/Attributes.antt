-- ===== src/Operations/Attributes.antt =====
-- Mode, owner and times: `nextufs_path_chmod`, `nextufs_path_chown` and `nextufs_path_utimes`.
use nextufs_offline.Base.{ℕ, Bool, not, ◌&&◌, List, Option, bit_and, u16, u32, ◌==◌, if◌then◌else◌}
use nextufs_offline.Inode.{Inode}
use nextufs_offline.Layout.{write_inode_raw}
use nextufs_offline.Io.{M, ◌>>=◌, ◌>>◌, require, eperm, eoverflow, Os, Image, now, image_fsync}
use nextufs_offline.Path.{path_lookup_nofollow}
use nextufs_offline.Operations.{
  WriteCtx, is_user, ctx_is_root, no_id, owner_ids_fit, chmod_allowed, chown_allowed,
  sanitize_chmod_mode, require_ctx_ids_fit, with_ctx, with_image,
}

-- The id that an owner gets; `(uid_t)-1` keeps the old one.
abbrev pub id_or_old : ℕ → ℕ → ℕ
id_or_old id old = if id == no_id then old else id

unfoldable pub chmod_inode : WriteCtx → ℕ → Inode → Inode
chmod_inode ctx mode ino = record ino { mode = sanitize_chmod_mode ctx ino mode }

unfoldable pub chown_inode : WriteCtx → ℕ → ℕ → Inode → Inode
chown_inode ctx uid gid ino =
    let clears = is_user ctx && not (ctx_is_root ctx) in
    record ino {
      uid = u16 (id_or_old uid ino.uid);
      gid = u16 (id_or_old gid ino.gid);
      mode = if clears then bit_and ino.mode 0xf3ff else ino.mode;
    }

unfoldable pub utimes_inode : ℕ → ℕ → Inode → Inode
utimes_inode atime mtime ino = record ino { atime = u32 atime; mtime = u32 mtime }

module _ {W : Type 0} (os : Os W) where
  -- The node of a path that is allowed to change gets its new attributes, and its change is timed.
  unfoldable pub change_node : Image W → List ℕ → (Inode → Bool) → (Inode → Inode) → M W (Unit {0})
  change_node img path allowed change = do
    node ← path_lookup_nofollow os img path
    require (allowed node.inode) eperm
    time ← now os
    write_inode_raw img node.inode_no (record (change node.inode) { ctime = u32 time })
    image_fsync img

  module _ (opened : M W (Image W)) (close : Image W → W → W) where
    unfoldable pub path_chmod : Option WriteCtx → List ℕ → ℕ → M W (Unit {0})
    path_chmod octx path mode = with_ctx octx (λ ctx. do
      require_ctx_ids_fit ctx
      with_image opened close
          (λ img. change_node img path (chmod_allowed ctx) (chmod_inode ctx mode)))

    unfoldable pub path_chown : Option WriteCtx → List ℕ → ℕ → ℕ → M W (Unit {0})
    path_chown octx path uid gid = with_ctx octx (λ ctx. do
      require_ctx_ids_fit ctx
      require (owner_ids_fit uid gid) eoverflow
      with_image opened close (λ img.
          change_node img path
            (λ ino. chown_allowed ctx ino (id_or_old uid ino.uid) (id_or_old gid ino.gid))
            (chown_inode ctx uid gid)))

    unfoldable pub path_utimes : Option WriteCtx → List ℕ → ℕ → ℕ → M W (Unit {0})
    path_utimes octx path atime mtime = with_ctx octx (λ ctx. do
      require_ctx_ids_fit ctx
      with_image opened close
          (λ img. change_node img path (chmod_allowed ctx) (utimes_inode atime mtime)))
