-- ===== src/Operations/Contents.antt =====
-- The contents of a file are written anew: overwritten, appended to, cut off and changed in part.
use nextufs_offline.Base.{
  ℕ, ◌-◌, ◌/◌, ◌^◌, Bool, true, false, ◌&&◌, List, Option, bit_and, add64, ltb, leb, ◌==◌,
  if◌then◌else◌,
}
use nextufs_offline.Memory.{Bytes, zeroed, copy}
use nextufs_offline.Inode.{Inode}
use nextufs_offline.Io.{
  M, ◌>>=◌, ◌>>◌, pure, require, einval, eisdir, efbig, Errno, Os, Image, image_fsync,
  malloc_or_fail,
}
use nextufs_offline.File.{inode_read_data}
use nextufs_offline.Access.{w_ok}
use nextufs_offline.Path.{Node, path_lookup_nofollow}
use nextufs_offline.Operations.{
  WriteCtx, require_user_access, require_ctx_ids_fit, with_ctx, with_image, run_on,
}
use nextufs_offline.Operations.Inodes.{rewrite_inode_contents}

abbrev pub is_reg_mode : ℕ → Bool
is_reg_mode mode = bit_and mode 0xf000 == 0x8000

abbrev pub appended_size : Bool → ℕ → ℕ → ℕ
appended_size append len old_size = if append then add64 old_size len else len

abbrev pub written_size : ℕ → ℕ → ℕ → ℕ
written_size offset len old_size =
    if ltb old_size (add64 offset len) then add64 offset len else old_size

-- The bytes of a buffer that `size` of the file are read into; none are read of an empty file.
unfoldable pub read_old : {W : Type 0} → Image W → Inode → ℕ → M W Bytes
read_old img ino size = do
  got ← (if size == 0 then pure (0, zeroed) else inode_read_data img ino 0 zeroed size)
  pure got.1

module _ {W : Type 0} (os : Os W) where
  -- `target` is a regular file that the caller may write; `wrong` is the error where it is not one.
  unfoldable pub writable_file : WriteCtx → Image W → List ℕ → Errno → M W Node
  writable_file ctx img path wrong = do
    target ← path_lookup_nofollow os img path
    require (is_reg_mode target.inode.mode) wrong
    require_user_access ctx target.inode w_ok
    pure target

  unfoldable pub rewrite_target : Image W → Node → Bytes → ℕ → M W (Unit {0})
  rewrite_target img target buf size = do
    run_on target.inode (
        rewrite_inode_contents os img target.inode_no (target.inode_no / img.sb.inodes_per_group)
          buf size)
    image_fsync img

module _ {W : Type 0} (os : Os W) (opened : M W (Image W)) (close : Image W → W → W) where
  -- Guards and buffer of an operation on the contents of a file: `final_size` and `new_bytes` take
  -- the old size, and how much of the old file is read is `kept`.
  unfoldable pub on_contents :
      Option WriteCtx → List ℕ → Errno → (ℕ → ℕ) → (ℕ → ℕ) → (ℕ → Bytes → Bytes) → M W (Unit {0})
  on_contents octx path wrong final_size kept new_bytes = with_ctx octx (λ ctx. do
    require_ctx_ids_fit ctx
    with_image opened close (λ img. do
      target ← writable_file os ctx img path wrong
      let old_size = target.inode.size
      let size = final_size old_size
      malloc_or_fail os (if size == 0 then 1 else size)
      old ← read_old img target.inode (kept old_size)
      rewrite_target os img target (new_bytes old_size old) size))

  unfoldable pub rewrite_file_contents :
      Option WriteCtx → List ℕ → Bytes → ℕ → Bool → M W (Unit {0})
  rewrite_file_contents octx path bytes len append =
      on_contents octx path eisdir (appended_size append len)
        (λ old_size. if append then old_size else 0)
        (λ old_size old. copy old (if append then old_size else 0) bytes len)

  abbrev pub path_overwrite_file : Option WriteCtx → List ℕ → Bytes → ℕ → M W (Unit {0})
  path_overwrite_file octx path bytes len = rewrite_file_contents octx path bytes len false

  abbrev pub path_append_file : Option WriteCtx → List ℕ → Bytes → ℕ → M W (Unit {0})
  path_append_file octx path bytes len = rewrite_file_contents octx path bytes len true

  unfoldable pub path_truncate : Option WriteCtx → List ℕ → ℕ → M W (Unit {0})
  path_truncate octx path size = with_ctx octx (λ ctx.
      require (leb size (2 ^ 64 - 1)) efbig
      >> on_contents octx path einval (λ old_size. size)
          (λ old_size. if ltb old_size size then old_size else size) (λ old_size old. old))

  unfoldable pub path_pwrite : Option WriteCtx → List ℕ → Bytes → ℕ → ℕ → M W (Unit {0})
  path_pwrite octx path bytes len offset = with_ctx octx (λ ctx.
      require (leb offset (2 ^ 64 - 1) && leb len (2 ^ 64 - 1 - offset)) efbig
      >> on_contents octx path einval (written_size offset len) (λ old_size. old_size)
          (λ old_size old. copy old offset bytes len))
