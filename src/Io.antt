-- ===== src/Io.antt =====
-- Results, state passing, and the calls of src/core/layout.c that reach an image's backend.
-- The operating system (`malloc`, `time`) and the backend's read, write and fsync are parameters.
pub mod Laws
pub mod Returns
use nextufs_offline.Base.{
  ℕ, Bool, true, false, Option, none, some, ◌+◌, ◌^◌, add64, ltb, leb, if◌then◌else◌,
}
use nextufs_offline.Memory.{Bytes}
use nextufs_offline.Superblock.{Superblock}

-- The `errno` values that the code returns negated; `system` is one that a system call set.
pub data Errno : Type 0 where
  einval enomem eio enospc efbig erofs enoent enotdir enametoolong enotsup eloop eacces eperm eexist
        eisdir enotempty eoverflow :
      Errno
  system : ℕ → Errno

-- A return value with what goes through the out parameters. `hang` stands for a loop that has used
-- up its fuel.
pub data Result (A : Type 0) : Type 0 where
  ok : A → Result A
  err : Errno → Result A
  hang : Result A

-- A function that may change the state also where it fails.
abbrev pub M : Type 0 → Type 0 → Type 0
M S A = S → Result A × S

module _ {S A B : Type 0} where
  abbrev pub and_then : Result A → S → (A → M S B) → Result B × S
  and_then (ok a) s k = k a s
  and_then (err e) s k = (err e, s)
  and_then hang s k = (hang, s)

  infixl 5 ◌>>=◌ ◌>>◌
  abbrev pub ◌>>=◌ : M S A → (A → M S B) → M S B
  ◌>>=◌ m k s = and_then (m s).0 (m s).1 k

  abbrev pub ◌>>◌ : M S A → M S B → M S B
  ◌>>◌ m k = m >>= λ _. k

module _ {S A : Type 0} where
  abbrev pub pure : A → M S A
  pure a s = (ok a, s)

  abbrev pub fail : Errno → M S A
  fail e s = (err e, s)

  abbrev pub out_of_fuel : M S A
  out_of_fuel s = (hang, s)

  -- `if (rc < 0) return e`
  abbrev pub or_fail : Errno → M S A → M S A
  or_fail e m s = elim (m s).0 [
    | ok a ↦ (ok a, (m s).1)
    | err _ ↦ (err e, (m s).1)
    | hang ↦ (hang, (m s).1)
  ]

-- `if (!b) return e`
abbrev pub require : {S : Type 0} → Bool → Errno → M S (Unit {0})
require true e s = (ok tt, s)
require false e s = (err e, s)

-- Whether `malloc` of so many bytes succeeds, and `time(NULL)`.
pub record Os (W : Type 0) : Type 0 where
  pub malloc : ℕ → W → Bool × W
  pub time : W → ℕ × W

-- `struct nextufs_image_backend_ops`; an entry may be NULL. Sizes and offsets are the arguments of
-- the source's calls, an `off_t` as its 64-bit pattern.
pub record Backend (W : Type 0) : Type 0 where
  pub read : Option (ℕ → ℕ → M W Bytes)
  pub write : Option (Bytes → ℕ → ℕ → M W (Unit {0}))
  pub fsync : Option (M W (Unit {0}))

-- The fields of `struct nextufs_image` that the file system code reads.
pub record Image (W : Type 0) : Type 0 where
  pub backend_ops : Option (Backend W)
  pub writable : Bool
  pub slice_base : ℕ
  pub sb : Superblock

module _ {W : Type 0} where
  unfoldable pub call_read : Option (ℕ → ℕ → M W Bytes) → ℕ → ℕ → M W Bytes
  call_read none size off = fail einval
  call_read (some read) size off = read size off

  unfoldable pub read_with : Option (Backend W) → ℕ → ℕ → M W Bytes
  read_with none size off = fail einval
  read_with (some ops) size off = call_read ops.read size off

  -- `nextufs__read_exact`
  unfoldable pub read_exact : Image W → ℕ → ℕ → M W Bytes
  read_exact img size off = read_with img.backend_ops size off

  unfoldable pub call_write :
      Option (Bytes → ℕ → ℕ → M W (Unit {0})) → Bytes → ℕ → ℕ → M W (Unit {0})
  call_write none buf size off = fail erofs
  call_write (some write) buf size off = write buf size off

  unfoldable pub write_with : Option (Backend W) → Bool → Bytes → ℕ → ℕ → M W (Unit {0})
  write_with none writable buf size off = fail einval
  write_with (some ops) writable buf size off =
      if writable then call_write ops.write buf size off else fail erofs

  -- `nextufs__write_exact`
  unfoldable pub write_exact : Image W → Bytes → ℕ → ℕ → M W (Unit {0})
  write_exact img buf size off = write_with img.backend_ops img.writable buf size off

  unfoldable pub call_fsync : Option (M W (Unit {0})) → M W (Unit {0})
  call_fsync none = pure tt
  call_fsync (some fsync) = fsync

  unfoldable pub fsync_with : Option (Backend W) → Bool → M W (Unit {0})
  fsync_with none writable = fail einval
  fsync_with (some ops) writable = if writable then call_fsync ops.fsync else pure tt

  -- `nextufs__image_fsync`
  unfoldable pub image_fsync : Image W → M W (Unit {0})
  image_fsync img = fsync_with img.backend_ops img.writable

  -- `nextufs_image_pread` and `nextufs_image_pwrite`, with the guard on a negative `off_t`.
  unfoldable pub image_pread : Image W → ℕ → ℕ → M W Bytes
  image_pread img size off =
      if leb (2 ^ 63) off then fail einval else read_exact img size (add64 img.slice_base off)

  unfoldable pub image_pwrite : Image W → Bytes → ℕ → ℕ → M W (Unit {0})
  image_pwrite img buf size off =
      if leb (2 ^ 63) off then fail einval else write_exact img buf size (add64 img.slice_base off)

  -- `buf = malloc(n); if (buf == NULL) return -ENOMEM;`
  unfoldable pub malloc_or_fail : Os W → ℕ → M W (Unit {0})
  malloc_or_fail os n w = require (os.malloc n w).0 enomem (os.malloc n w).1

  -- `(uint32_t)time(NULL)`
  unfoldable pub now : Os W → M W ℕ
  now os w = (ok ((os.time w).0), (os.time w).1)
