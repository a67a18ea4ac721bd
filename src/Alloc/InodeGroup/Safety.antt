-- ===== src/Alloc/InodeGroup/Safety.antt =====
-- `nextufs__allocate_inode_in_group` and `nextufs__free_inode_in_group` as calls.
use nextufs_offline.Base.{
  ℕ, ◌/◌, ◌%◌, ◌^◌, ◌<◌, ◌≡◌, refl, sym, ap, arith, true, false, not, ◌&&◌, ◌||◌, Option, some,
  none, ◌==◌, add32, mul32,
}
use nextufs_offline.Memory.{Bytes, read_be32}
use nextufs_offline.Bitmap.{test_bit}
use nextufs_offline.Superblock.{Superblock}
use nextufs_offline.Layout.{cg_block_offset, update_summary_counts}
use nextufs_offline.Io.{ok, err, enospc, einval, Os, Image, write_exact, now}
use nextufs_offline.Io.Laws.{bind_ok, require_ok, pure_ok, err_ne_ok}
use nextufs_offline.Cg.{nifree_off, iused_off, is_dir_mode, load_cg}
use nextufs_offline.Alloc.InodeGroup.{
  find_inode, inode_rotor, mark_inode_used, mark_inode_free, found_inode, allocate_inode_in_group,
  free_inode_in_group,
}
use nextufs_offline.Alloc.InodeGroup.Search.{InodeFound, find_inode_lem}
use nextufs_offline.Alloc.InodeGroup.Marks.{test_bit-mark_inode_used, test_bit-mark_inode_free}

inode_rotor-lt :
    (sb : Superblock) (buf : Bytes)
    → 0 < sb.inodes_per_group
    → inode_rotor sb buf < sb.inodes_per_group
unfolding inode_rotor
inode_rotor-lt sb buf pos = ground arith

module _ {W : Type 0} (os : Os W) (img : Image W) where
  -- The group's block as it was read and as it was written: the inode was not in use, and then it
  -- is, and no other inode's bit is changed.
  pub record IsInodeTaken (cg answer : ℕ) (w : W) : Type 0 where
    pub buf : Bytes
    pub loaded : W
    pub load_done : load_cg os img cg w ≡ (ok buf, loaded)
    pub ino : ℕ
    pub answers : answer ≡ add32 (mul32 cg img.sb.inodes_per_group) ino
    pub in_group : ino < img.sb.inodes_per_group
    pub was_unused : test_bit buf iused_off ino ≡ false
    pub written : Bytes
    pub before : W
    pub after : W
    pub write_done :
        write_exact img written img.sb.cg_size (cg_block_offset img cg) before ≡ (ok tt, after)
    pub marked : (j : ℕ) → test_bit written iused_off j ≡ (j == ino || test_bit buf iused_off j)

  found_inode_ok :
      (o : Option ℕ) (w : W) {i : ℕ} {w' : W}
      → found_inode os img o w ≡ (ok i, w')
      → (o ≡ some i) × (w ≡ w')
  unfolding found_inode
  found_inode_ok none w h = absurd (err_ne_ok enospc w h)
  found_inode_ok (some i) w h = let (e, e') = pure_ok i w h in (ap some (sym e), e')

  found_here :
      (buf : Bytes) (ipg i : ℕ) (o : Option ℕ)
      → o ≡ some i
      → InodeFound buf ipg o
      → (i < ipg) × (test_bit buf iused_off i ≡ false)
  found_here buf ipg i o e r = rw e at r

  -- An allocation that succeeds, for a group of at least one inode whose size is away from the end
  -- of the 32-bit range, answers with an inode of the group that was not in use, and has written the
  -- group's block with the bit of this inode set and no other bit of the map of inodes changed.
  pub allocate_inode_in_group-IsInodeTaken :
      (cg mode answer : ℕ) (w w' : W)
      → 0 < img.sb.inodes_per_group
      → img.sb.inodes_per_group < 2 ^ 31
      → allocate_inode_in_group os img cg mode w ≡ (ok answer, w')
      → IsInodeTaken cg answer w
  unfolding allocate_inode_in_group
  allocate_inode_in_group-IsInodeTaken cg mode answer w w' pos sane h =
      let ipg = img.sb.inodes_per_group in
      let (buf, v, e₁, h₁) = bind_ok (load_cg os img cg) _ w h in
      let (_, h₂) = require_ok (not (read_be32 buf nifree_off == 0)) enospc _ v h₁ in
      let start = inode_rotor img.sb buf in
      let near = inode_rotor-lt img.sb buf pos in
      let (ino, x, e₂, h₃) = bind_ok (found_inode os img (find_inode buf ipg start ipg 0)) _ v h₂ in
      let (time, y, _, h₄) = bind_ok (now os) _ x h₃ in
      let (_, z, e₃, h₅) = bind_ok (write_exact img _ _ _) _ y h₄ in
      let (_, t, _, h₆) = bind_ok (update_summary_counts os img cg _) _ z h₅ in
      let (here, unused) =
        found_here buf ipg ino _ (found_inode_ok _ v e₂).0
          (find_inode_lem buf ipg start near (omega arith)) in
      record {
        buf = buf;
        loaded = v;
        load_done = e₁;
        ino = ino;
        answers = (pure_ok _ t h₆).0;
        in_group = here;
        was_unused = unused;
        written = mark_inode_used buf ino (is_dir_mode mode) time;
        before = y;
        after = z;
        write_done = e₃;
        marked = test_bit-mark_inode_used buf ino (is_dir_mode mode) time;
      }

  -- An inode that is not in use is not freed: the call fails with EINVAL once the group's block is
  -- read, and writes nothing.
  pub free_inode_in_group_twice :
      (inode_no mode : ℕ) (buf : Bytes) (w w₁ : W)
      → load_cg os img (inode_no / img.sb.inodes_per_group) w ≡ (ok buf, w₁)
      → test_bit buf iused_off (inode_no % img.sb.inodes_per_group) ≡ false
      → free_inode_in_group os img inode_no mode w ≡ (err einval, w₁)
  unfolding free_inode_in_group
  free_inode_in_group_twice inode_no mode buf w w₁ loaded unused = rw (loaded, unused) refl

  -- The group's block as it was read and as it was written: the inode was in use, and then it is
  -- not, and no other inode's bit is changed.
  pub record IsInodeFreed (inode_no : ℕ) (w : W) : Type 0 where
    pub buf : Bytes
    pub loaded : W
    pub load_done : load_cg os img (inode_no / img.sb.inodes_per_group) w ≡ (ok buf, loaded)
    pub was_used : test_bit buf iused_off (inode_no % img.sb.inodes_per_group) ≡ true
    pub written : Bytes
    pub before : W
    pub after : W
    pub write_done :
        write_exact img written img.sb.cg_size
          (cg_block_offset img (inode_no / img.sb.inodes_per_group))
          before
        ≡ (ok tt, after)
    pub marked :
        (j : ℕ)
        → test_bit written iused_off j
          ≡ (not (j == inode_no % img.sb.inodes_per_group) && test_bit buf iused_off j)

  -- A release that succeeds has found the inode in use, and has written the group's block with its
  -- bit cleared and no other bit of the map of inodes changed.
  pub free_inode_in_group-IsInodeFreed :
      (inode_no mode : ℕ) (w w' : W) {u : Unit {0}}
      → free_inode_in_group os img inode_no mode w ≡ (ok u, w')
      → IsInodeFreed inode_no w
  unfolding free_inode_in_group
  free_inode_in_group-IsInodeFreed inode_no mode w w' h =
      let local = inode_no % img.sb.inodes_per_group in
      let (buf, v, e₁, h₁) = bind_ok (load_cg os img _) _ w h in
      let (used, h₂) = require_ok (test_bit buf iused_off local) einval _ v h₁ in
      let (time, y, _, h₃) = bind_ok (now os) _ v h₂ in
      let (_, z, e₃, h₄) = bind_ok (write_exact img _ _ _) _ y h₃ in
      record {
        buf = buf;
        loaded = v;
        load_done = e₁;
        was_used = used;
        written = mark_inode_free buf local (is_dir_mode mode) time;
        before = y;
        after = z;
        write_done = e₃;
        marked = test_bit-mark_inode_free buf local (is_dir_mode mode) time;
      }
