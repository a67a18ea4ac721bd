-- ===== src/Operations/Writing.antt =====
-- What `nextufs_path_pwrite` writes: the old bytes of the file with the new ones in their place, and
-- zeros between the old end and a place behind it.
use nextufs_offline.Base.{ℕ, ◌+◌, ◌≤◌, ◌<◌, ◌≡◌, ◌⊎◌, max, true, List, Option, some}
use nextufs_offline.Memory.{Bytes, copy}
use nextufs_offline.Inode.{Inode}
use nextufs_offline.Io.{ok, M, Os, Image}
use nextufs_offline.Access.{w_ok}
use nextufs_offline.Path.{Node, path_lookup_nofollow}
use nextufs_offline.Operations.{WriteCtx, ctx_ids_fit}
use nextufs_offline.Operations.Contents.{is_reg_mode, read_old, written_size}
use nextufs_offline.Operations.Stored.{IsStoredAnew}
use nextufs_offline.Operations.Guards.{IsPermitted}

-- A regular file that the caller may write, whose contents are read and then stored anew.
pub record IsRewritten {W : Type 0} (os : Os W) (img : Image W) (ctx : WriteCtx) (path : List ℕ)
    (w : W) (kept : ℕ → ℕ) (size : ℕ → ℕ) (new_bytes : ℕ → Bytes → Bytes) : Type 0 where
  pub target : Node
  pub target_world : W
  pub found : path_lookup_nofollow os img path w ≡ (ok target, target_world)
  pub regular : is_reg_mode target.inode.mode ≡ true
  pub may_write : IsPermitted ctx target.inode w_ok
  pub old : Bytes
  pub old_world : W
  pub read_world : W
  pub old_read : read_old img target.inode (kept target.inode.size) old_world ≡ (ok old, read_world)
  pub written_world : W
  pub rewritten :
      IsStoredAnew os img target
        (new_bytes target.inode.size old)
        (size target.inode.size)
        read_world
        written_world

module _ {W : Type 0} (os : Os W) where
  -- A node that `writable_file` hands out.
  abbrev IsWritable : Image W → WriteCtx → List ℕ → W → Node → Type 0
  IsWritable img ctx path w node =
      (x : W) × (path_lookup_nofollow os img path w ≡ (ok node, x))
      × (is_reg_mode node.inode.mode ≡ true)
      × IsPermitted ctx node.inode w_ok

-- The buffer that takes the place of the contents: the data at its offset, the old bytes beside it,
-- and zeros behind the old end; it reaches to the later of both ends.
pub record IsPwritten (old : Bytes) (old_size : ℕ) (bytes : Bytes) (len offset : ℕ) (size : ℕ)
    (buf : Bytes) : Type 0 where
  pub inside : (j : ℕ) → j < len → buf (offset + j) ≡ bytes j
  pub beside : (j : ℕ) → (j < offset) ⊎ (offset + len ≤ j) → j < old_size → buf j ≡ old j
  pub gap : (j : ℕ) → old_size ≤ j → j < offset → buf j ≡ 0
  pub end : size ≡ max old_size (offset + len)

module _ {W : Type 0} (os : Os W) (opened : M W (Image W)) (close : Image W → W → W) where
  abbrev pub IsPwriteDone : Option WriteCtx → List ℕ → Bytes → ℕ → ℕ → W → W → Type 0
  IsPwriteDone octx path bytes len offset w w' =
      (ctx : WriteCtx) × (img : Image W) × (w₀ w₁ : W) × (octx ≡ some ctx)
      × (ctx_ids_fit ctx ≡ true)
      × (opened w ≡ (ok img, w₀))
      × (w' ≡ close img w₁)
      × (done : IsRewritten os img ctx path w₀ (λ s. s) (written_size offset len)
          (λ s old. copy old offset bytes len))
      × IsPwritten done.old done.target.inode.size bytes len offset
          (written_size offset len done.target.inode.size) (copy done.old offset bytes len)
