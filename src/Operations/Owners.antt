-- ===== src/Operations/Owners.antt =====
-- Who may change mode and owner, and what is written then.
use nextufs_offline.Base.{
  ℕ, ◌≤◌, ◌≡◌, ◌≢◌, refl, arith, Bool, true, ◌||◌, List, Option, some, bit_and, u16, u32, leb→le,
  ◌==◌, ne→==,
}
use nextufs_offline.Inode.{Inode}
use nextufs_offline.Layout.{write_inode_raw}
use nextufs_offline.Io.{ok, M, eperm, eoverflow, Os, Image, now}
use nextufs_offline.Io.Laws.{bind_ok, require_ok}
use nextufs_offline.Path.{Node, path_lookup_nofollow}
use nextufs_offline.Operations.{
  WriteCtx, is_user, no_id, id_fits_nextstep, ctx_ids_fit, owner_ids_fit, chown_allowed,
}
use nextufs_offline.Operations.Attributes.{id_or_old, chown_inode, change_node, path_chown}
use nextufs_offline.Operations.Guards.{
  IsChownOk, chown_allowed-IsChownOk, and_both, with_ctx_ok, with_image_ok,
}

-- The node of the path passes the guard, and its changed inode is written with the time.
pub record IsChanged {W : Type 0} (os : Os W) (img : Image W) (path : List ℕ) (w : W)
    (allowed : Inode → Bool) (change : Inode → Inode) (node : Node) : Type 0 where
  pub node_world : W
  pub found : path_lookup_nofollow os img path w ≡ (ok node, node_world)
  pub may : allowed node.inode ≡ true
  pub time : ℕ
  pub time_world : W
  pub written_world : W
  pub written :
      write_inode_raw img node.inode_no (record (change node.inode) { ctime = u32 time }) time_world
      ≡ (ok tt, written_world)

-- An id that is kept, or that 15 bits hold.
fits_or_kept : (id : ℕ) → (id == no_id || id_fits_nextstep id) ≡ true → id ≢ no_id → id ≤ 32767
fits_or_kept id h other = leb→le id 32767 (rw (ne→== id no_id other) at h)

-- Such an id is written as it is.
id_exact : (id old : ℕ) → id ≢ no_id → id ≤ 32767 → u16 (id_or_old id old) ≡ id
id_exact id old other fits = rw (ne→== id no_id other) (omega arith)

-- The caller is a user that is not 0.
abbrev pub IsPlainUser : WriteCtx → Type 0
IsPlainUser ctx = (is_user ctx ≡ true) × (ctx.uid ≢ 0)

chown_mode :
    (ctx : WriteCtx) (uid gid : ℕ) (ino : Inode)
    → IsPlainUser ctx
    → (chown_inode ctx uid gid ino).mode ≡ bit_and ino.mode 0xf3ff
unfolding chown_inode
chown_mode ctx uid gid ino (user, other) = rw (user, ne→== ctx.uid 0 other) refl

-- A change of owner that is allowed: the new ids are written whole, and a plain user takes the bits
-- for setuid and setgid from the mode.
pub record IsChowned {W : Type 0} (os : Os W) (img : Image W) (ctx : WriteCtx) (path : List ℕ)
    (uid gid : ℕ) (w : W) : Type 0 where
  pub node : Node
  pub changed :
      IsChanged os img path w
        (λ ino. chown_allowed ctx ino (id_or_old uid ino.uid) (id_or_old gid ino.gid))
        (chown_inode ctx uid gid)
        node
  pub may_chown :
      IsChownOk ctx node.inode (id_or_old uid node.inode.uid) (id_or_old gid node.inode.gid)
  pub uid_exact : uid ≢ no_id → (chown_inode ctx uid gid node.inode).uid ≡ uid
  pub gid_exact : gid ≢ no_id → (chown_inode ctx uid gid node.inode).gid ≡ gid
  pub bits_cleared :
      IsPlainUser ctx → (chown_inode ctx uid gid node.inode).mode ≡ bit_and node.inode.mode 0xf3ff

module _ {W : Type 0} (os : Os W) where
  change_node_ok :
      (img : Image W) (path : List ℕ) (allowed : Inode → Bool) (change : Inode → Inode) (w w' : W)
      → change_node os img path allowed change w ≡ (ok tt, w')
      → (node : Node) × IsChanged os img path w allowed change node
  unfolding change_node
  change_node_ok img path allowed change w w' h =
      let (node, w₁, found, h₁) = bind_ok (path_lookup_nofollow os img path) _ w h in
      let (may, h₂) = require_ok (allowed node.inode) eperm _ w₁ h₁ in
      let (time, w₂, clock, h₃) = bind_ok (now os) _ w₁ h₂ in
      let (u, w₃, written, h₄) =
        bind_ok
          (write_inode_raw img node.inode_no (record (change node.inode) { ctime = u32 time })) _ w₂
          h₃ in
      (
        node,
        record {
          node_world = w₁;
          found = found;
          may = may;
          time = time;
          time_world = w₂;
          written_world = w₃;
          written = written;
        },
      )

  module _ (opened : M W (Image W)) (close : Image W → W → W) where
    abbrev pub IsChownDone : Option WriteCtx → List ℕ → ℕ → ℕ → W → W → Type 0
    IsChownDone octx path uid gid w w' =
        (ctx : WriteCtx) × (img : Image W) × (w₀ w₁ : W) × (octx ≡ some ctx)
        × (ctx_ids_fit ctx ≡ true)
        × (opened w ≡ (ok img, w₀))
        × IsChowned os img ctx path uid gid w₀
        × (w' ≡ close img w₁)

    -- A call of nextufs_path_chown that succeeds was allowed: the policy or the caller is the
    -- superuser, or the caller owns the file, does not give it away and is in the new group. The ids
    -- that are written are those that were asked for, and a caller without privileges takes setuid
    -- and setgid from the mode.
    pub path_chown_ok :
        (octx : Option WriteCtx) (path : List ℕ) (uid gid : ℕ) (w w' : W)
        → path_chown os opened close octx path uid gid w ≡ (ok tt, w')
        → IsChownDone octx path uid gid w w'
    unfolding path_chown chown_inode
    path_chown_ok octx path uid gid w w' h =
        let (ctx, some_ctx, h₁) = with_ctx_ok octx _ w w' h in
        let (fit, h₂) = require_ok (ctx_ids_fit ctx) eoverflow _ w h₁ in
        let (ids_fit, h₃) = require_ok (owner_ids_fit uid gid) eoverflow _ w h₂ in
        let (uid_fits, gid_fits) = and_both (uid == no_id || id_fits_nextstep uid) _ ids_fit in
        let (img, w₀, w₁, opens, h₄, closed) = with_image_ok opened close _ w w' h₃ in
        let (node, changed) = change_node_ok img path _ _ w₀ w₁ h₄ in
        (
          ctx,
          img,
          w₀,
          w₁,
          some_ctx,
          fit,
          opens,
          record {
            node = node;
            changed = changed;
            may_chown = chown_allowed-IsChownOk ctx node.inode _ _ changed.may;
            uid_exact = λ other. id_exact uid _ other (fits_or_kept uid uid_fits other);
            gid_exact = λ other. id_exact gid _ other (fits_or_kept gid gid_fits other);
            bits_cleared = chown_mode ctx uid gid node.inode;
          },
          closed,
        )
