-- ===== src/Operations.antt =====
-- src/mutate/mutate.c: who may change what, and the mode and owner of a changed inode.
pub mod Inodes
pub mod Create
pub mod Contents
pub mod Remove
pub mod Rename
pub mod Attributes
pub mod Climb
pub mod Termination
pub mod Guards
pub mod Effects
pub mod Stored
pub mod Removal
pub mod Moving
pub mod Owners
pub mod Naming
pub mod Writing
use nextufs_offline.Base.{
  ℕ, zero, suc, ◌+◌, ◌*◌, ◌^◌, Bool, true, false, not, ◌&&◌, ◌||◌, List, [], ◌∷◌, Option, none,
  some, bit_and, bit_or, u16, ltb, leb, ◌==◌, if◌then◌else◌,
}
use nextufs_offline.Memory.{zeroed}
use nextufs_offline.Inode.{Inode}
use nextufs_offline.Io.{
  Result, ok, err, hang, M, ◌>>=◌, ◌>>◌, pure, fail, require, einval, erofs, enoent, eacces, eperm,
  eexist, eoverflow, Os, Image,
}
use nextufs_offline.Alloc.Indirect.{Files}
use nextufs_offline.Path.{Node, path_lookup, path_lookup_nofollow}
use nextufs_offline.Access.{Access, granted, read_only, denied, w_ok, x_ok, in_groups, check_access}

-- `enum nextufs_write_policy`
pub data WritePolicy : Type 0 where
  write_su write_user : WritePolicy

-- `struct nextufs_write_ctx`
pub record WriteCtx : Type 0 where
  pub policy : WritePolicy
  pub uid : ℕ
  pub gid : ℕ
  pub groups : List ℕ

abbrev pub is_user : WriteCtx → Bool
is_user ctx = elim ctx.policy [ write_su ↦ false | write_user ↦ true ]

abbrev pub ctx_is_root : WriteCtx → Bool
ctx_is_root ctx = ctx.uid == 0

abbrev pub id_fits_nextstep : ℕ → Bool
id_fits_nextstep id = leb id 32767

-- `(uid_t)-1`, which leaves an owner as it is.
abbrev pub no_id : ℕ
no_id = 0xffff_ffff

abbrev pub ctx_ids_fit : WriteCtx → Bool
ctx_ids_fit ctx = not (is_user ctx) || (id_fits_nextstep ctx.uid && id_fits_nextstep ctx.gid)

abbrev pub owner_ids_fit : ℕ → ℕ → Bool
owner_ids_fit uid gid =
    (uid == no_id || id_fits_nextstep uid) && (gid == no_id || id_fits_nextstep gid)

unfoldable pub ctx_in_group : WriteCtx → ℕ → Bool
ctx_in_group ctx gid = ctx.gid == gid || in_groups ctx.groups gid

-- `nextufs__check_sticky_parent`
unfoldable pub sticky_ok : WriteCtx → Inode → Inode → Bool
sticky_ok ctx parent target =
    not (is_user ctx)
    || bit_and parent.mode 0x200 == 0
    || ctx_is_root ctx
    || ctx.uid == parent.uid
    || ctx.uid == target.uid

unfoldable pub chmod_allowed : WriteCtx → Inode → Bool
chmod_allowed ctx ino = not (is_user ctx) || ctx_is_root ctx || ctx.uid == ino.uid

unfoldable pub chown_allowed : WriteCtx → Inode → ℕ → ℕ → Bool
chown_allowed ctx ino uid gid =
    not (is_user ctx)
    || ctx_is_root ctx
    || (ctx.uid == ino.uid && uid == ino.uid && ctx_in_group ctx gid)

unfoldable pub set_new_inode_owner : WriteCtx → Inode → Inode → Inode
set_new_inode_owner ctx parent ino =
    if is_user ctx
    then record ino { uid = u16 ctx.uid; gid = u16 ctx.gid }
    else record ino { uid = 0; gid = parent.gid }

-- What both sanitizers make of a mode, for an inode of this group.
unfoldable pub sanitize_mode : WriteCtx → ℕ → ℕ → ℕ
sanitize_mode ctx gid mode =
    let unsticky = if bit_and mode 0xf000 == 0x4000 then mode else bit_and mode 0xfdff in
    let drops = not (bit_and unsticky 0x400 == 0) && not (ctx_in_group ctx gid) in
    if not (is_user ctx) || ctx_is_root ctx
    then mode
    else if drops
    then bit_and unsticky 0xfbff
    else unsticky

unfoldable pub sanitize_new_inode_mode : WriteCtx → Inode → Inode
sanitize_new_inode_mode ctx ino = record ino { mode = sanitize_mode ctx ino.gid ino.mode }

unfoldable pub sanitize_chmod_mode : WriteCtx → Inode → ℕ → ℕ
sanitize_chmod_mode ctx ino mode =
    sanitize_mode ctx ino.gid (bit_or (bit_and ino.mode 0xf000) (bit_and mode 0xfff))

-- `memset(&ino, 0, sizeof(ino))`
abbrev pub blank_inode : Inode
blank_inode = record {
  mode = 0;
  nlink = 0;
  uid = 0;
  gid = 0;
  size = 0;
  atime = 0;
  mtime = 0;
  ctime = 0;
  db = zeroed;
  ib = zeroed;
  flags = 0;
  blocks = 0;
  gen = 0;
}

-- `.` and `..`
unfoldable pub is_dot_name : List ℕ → Bool
is_dot_name [] = false
is_dot_name (a ∷ []) = a == 0x2e
is_dot_name (a ∷ b ∷ []) = a == 0x2e && b == 0x2e
is_dot_name (a ∷ b ∷ c ∷ cs) = false

module _ {W : Type 0} where
  unfoldable pub grant : Access → M W (Unit {0})
  grant granted = pure tt
  grant read_only = fail erofs
  grant denied = fail eacces

  unfoldable pub require_user_access : WriteCtx → Inode → ℕ → M W (Unit {0})
  require_user_access ctx ino mask =
      if is_user ctx then grant (check_access ino ctx.uid ctx.gid ctx.groups mask true) else pure tt

  abbrev pub require_parent_mutation : WriteCtx → Inode → M W (Unit {0})
  require_parent_mutation ctx parent = require_user_access ctx parent (w_ok + x_ok)

  abbrev pub require_ctx_ids_fit : WriteCtx → M W (Unit {0})
  require_ctx_ids_fit ctx = require (ctx_ids_fit ctx) eoverflow

  -- `if (ctx == NULL) return -EINVAL`
  unfoldable pub with_ctx : {A : Type 0} → Option WriteCtx → (WriteCtx → M W A) → M W A
  with_ctx none body = fail einval
  with_ctx (some ctx) body = body ctx

  -- The image is opened, and closed whatever the body does; `opened` is the call of
  -- `nextufs_image_open_source` for the path of the image, `close` that of `nextufs_image_close`.
  unfoldable pub with_image :
      {A : Type 0} → M W (Image W) → (Image W → W → W) → (Image W → M W A) → M W A
  with_image opened close body = opened >>= (λ img w. let r = body img w in (r.0, close img r.1))

  -- A call that changes an inode, begun with this one.
  unfoldable pub run_on : {A : Type 0} → Inode → M (Files W) A → M W (A × Inode)
  run_on ino m w =
      let r = m (record { world = w; ino = ino; frags = 0 }) in
      elim r.0 [
        | ok a ↦ (ok (a, r.1.ino), r.1.world)
        | err e ↦ (err e, r.1.world)
        | hang ↦ (hang, r.1.world)
      ]

  -- The node that a lookup finds, if there is one.
  unfoldable pub if_found : M W Node → M W (Option Node)
  if_found m w = elim (m w).0 [
    | ok node ↦ (ok (some node), (m w).1)
    | err enoent ↦ (ok none, (m w).1)
    | err e ↦ (err e, (m w).1)
    | hang ↦ (hang, (m w).1)
  ]

  unfoldable pub refuse_found : Option Node → M W (Unit {0})
  refuse_found none = pure tt
  refuse_found (some node) = fail eexist

  -- A result that the caller does not look at.
  abbrev pub ignore : {A : Type 0} → M W A → M W (Unit {0})
  ignore m w = (ok tt, (m w).1)
