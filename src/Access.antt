-- ===== src/Access.antt =====
-- src/core/node.c: the check of access to a node, and the numbers of the file system.
pub mod Bounds
use nextufs_offline.Base.{
  ℕ, ◌+◌, ◌-◌, ◌*◌, ◌/◌, Bool, true, false, not, ◌&&◌, ◌||◌, List, [], ◌∷◌, Option, none, some,
  bit_and, bit_or, add64, mul64, ltb, ◌==◌, if◌then◌else◌,
}
use nextufs_offline.Inode.{Inode}
use nextufs_offline.Superblock.{Superblock}

-- `R_OK`, `W_OK` and `X_OK` of the system.
abbrev pub r_ok : ℕ
r_ok = 4

abbrev pub w_ok : ℕ
w_ok = 2

abbrev pub x_ok : ℕ
x_ok = 1

-- What the check answers: 0, `-EROFS` or `-EACCES`.
pub data Access : Type 0 where
  granted read_only denied : Access

abbrev pub asks : ℕ → ℕ → Bool
asks mask bit = not (bit_and mask bit == 0)

unfoldable pub in_groups : List ℕ → ℕ → Bool
in_groups [] gid = false
in_groups (g ∷ gs) gid = let rest = in_groups gs gid in if g == gid then true else rest

-- The three bits of the class that the caller belongs to.
unfoldable pub perms_of : Inode → ℕ → ℕ → List ℕ → ℕ
perms_of ino uid gid groups =
    if uid == ino.uid
    then bit_and (ino.mode / 64) 7
    else if gid == ino.gid || in_groups groups ino.gid
    then bit_and (ino.mode / 8) 7
    else bit_and ino.mode 7

unfoldable pub bits_of : ℕ → ℕ
bits_of mask =
    let readable = if asks mask r_ok then bit_or 0 4 else 0 in
    let writable = if asks mask w_ok then bit_or readable 2 else readable in
    if asks mask x_ok then bit_or writable 1 else writable

-- `nextufs__node_check_access`
unfoldable pub check_access : Inode → ℕ → ℕ → List ℕ → ℕ → Bool → Access
check_access ino uid gid groups mask allow_write =
    let bits = bits_of mask in
    if not allow_write && asks mask w_ok
    then read_only
    else if mask == 0
    then granted
    else if uid == 0
    then (if asks mask x_ok && bit_and ino.mode 0x49 == 0 then denied else granted)
    else if bit_and (perms_of ino uid gid groups) bits == bits
    then granted
    else denied

-- The fields of `struct statvfs` that are set.
pub record StatVfs : Type 0 where
  pub bsize : ℕ
  pub frsize : ℕ
  pub blocks : ℕ
  pub bfree : ℕ
  pub bavail : ℕ
  pub files : ℕ
  pub ffree : ℕ
  pub favail : ℕ
  pub namemax : ℕ

-- `nextufs_fs_statvfs`; `none` where it returns `-EINVAL`.
unfoldable pub fs_statvfs : Superblock → Option StatVfs
fs_statvfs sb =
    let free_frags = add64 (mul64 sb.free_block_count sb.frags_per_block) sb.free_frag_count in
    let reserved_frags = mul64 sb.data_frag_count sb.minfree / 100 in
    let avail_frags = if ltb reserved_frags free_frags then free_frags - reserved_frags else 0 in
    if sb.frag_size == 0 || sb.block_size == 0 || sb.frags_per_block == 0
    then none
    else some (record {
      bsize = sb.block_size;
      frsize = sb.frag_size;
      blocks = sb.data_frag_count;
      bfree = free_frags;
      bavail = avail_frags;
      files = mul64 sb.cg_count sb.inodes_per_group;
      ffree = sb.free_inode_count;
      favail = sb.free_inode_count;
      namemax = 255;
    })
