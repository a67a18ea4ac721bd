-- ===== src/Operations/Termination.antt =====
-- The climb of `nextufs__directory_has_ancestor` ends where ".." records lead down a height, as they
-- do in a tree of directories.
use nextufs_offline.Base.{
  ℕ, zero, suc, ◌<◌, ◌≡◌, ◌≢◌, ==→ne, refl, arith, Bool, true, false, ◌&&◌, leb, ◌==◌,
  if◌then◌else◌, Option, none, some,
}
use nextufs_offline.Memory.{zeroed}
use nextufs_offline.Inode.{Inode}
use nextufs_offline.Cg.{is_dir_mode}
use nextufs_offline.Layout.{DirentView, read_dirent}
use nextufs_offline.Io.{Result, ok, err, hang, M, pure, fail, einval, eio, enotdir, Os, Image}
use nextufs_offline.Io.Returns.{
  ok_ne_hang, IsReturning, IsTotal, pure-IsReturning, fail-IsReturning, bind-IsReturning,
  or_fail-IsReturning, require-IsReturning,
}
use nextufs_offline.File.Reading.{inode_read_data-IsReturning}
use nextufs_offline.Mutate.{dirblksiz}
use nextufs_offline.Mutate.Parent.{is_self_name, is_parent_name, read_directory_parent_inode}
use nextufs_offline.Path.{Node, root_inode}
use nextufs_offline.Path.Totality.{inode_read-IsReturning}
use nextufs_offline.Operations.Inodes.{node_get_by_inode, or_false, directory_has_ancestor}
use nextufs_offline.Operations.Climb.{IsParent}

module _ {W : Type 0} (os : Os W) (img : Image W) where
  -- The height goes down along the ".." records that are reached from the start.
  pub record IsTree (height : ℕ → ℕ) (IsReached : Node → W → Type 0) : Type 0 where
    pub falls :
        (cur : Node) (w : W) (next : Node) (w' : W)
        → IsReached cur w
        → cur.inode_no ≢ root_inode
        → IsParent os img cur w next w'
        → (height next.inode_no < height cur.inode_no) × IsReached next w'

module _ {W : Type 0} (os : Os W) (img : Image W) (total : IsTotal img)
    (pos : 0 < img.sb.block_size) where
  record_or_fail-IsReturning :
      (o : Option DirentView)
      → IsReturning {W = W} {A = DirentView} (elim o [ none ↦ fail einval | some ent ↦ pure ent ])
  record_or_fail-IsReturning none = fail-IsReturning einval
  record_or_fail-IsReturning (some ent) = pure-IsReturning ent

  read_parent-IsReturning :
      (inode_no : ℕ) (ino : Inode) → IsReturning (read_directory_parent_inode os img inode_no ino)
  unfolding read_directory_parent_inode
  read_parent-IsReturning inode_no ino =
      bind-IsReturning _ _
        (require-IsReturning (is_dir_mode ino.mode && leb dirblksiz ino.size) enotdir)
        (λ is_dir.
          bind-IsReturning _ _
            (or_fail-IsReturning eio _
              (inode_read_data-IsReturning img total ino 0 zeroed dirblksiz pos))
            (λ got.
              bind-IsReturning _ _ (record_or_fail-IsReturning (read_dirent got.1 dirblksiz 0))
                (λ self.
                  bind-IsReturning _ _
                    (require-IsReturning ((self.ino == inode_no) && is_self_name got.1 self) einval)
                    (λ own.
                      bind-IsReturning _ _
                        (record_or_fail-IsReturning (read_dirent got.1 dirblksiz self.reclen))
                        (λ parent.
                          bind-IsReturning _ _
                            (require-IsReturning (is_parent_name got.1 parent) einval)
                            (λ up. pure-IsReturning parent.ino))))))

  node-IsReturning : (inode_no : ℕ) → IsReturning (node_get_by_inode os img inode_no)
  unfolding node_get_by_inode
  node-IsReturning inode_no =
      bind-IsReturning _ _ (inode_read-IsReturning os img total pos inode_no)
        (λ read. pure-IsReturning _)

  if_returns :
      {A : Type 0} (b : Bool) (m k : M W A) (w : W)
      → (b ≡ true → (m w).0 ≢ hang)
      → (b ≡ false → (k w).0 ≢ hang)
      → ((if b then m else k) w).0 ≢ hang
  if_returns true m k w hm hk = hm refl
  if_returns false m k w hm hk = hk refl

  or_false-returns :
      {A : Type 0} (m : M W A) (k : A → M W Bool) (w : W) (r : Result A)
      → (m w).0 ≡ r
      → r ≢ hang
      → ((a : A) → m w ≡ (ok a, (m w).1) → (k a (m w).1).0 ≢ hang)
      → (or_false os img m k w).0 ≢ hang
  unfolding or_false
  or_false-returns m k w (ok a) eq h next stuck =
      next a (λ i. (eq i, (m w).1)) (rw (eq, or_false) at stuck)
  or_false-returns m k w (err e) eq h next stuck = ok_ne_hang false (rw (eq, or_false) at stuck)
  or_false-returns m k w hang eq h next stuck = h refl

  module _ (height : ℕ → ℕ) (IsReached : Node → W → Type 0)
      (tree : IsTree os img height IsReached) where
    -- Where the ".." records that are reached lead down a height, the climb has its answer after as
    -- many rounds as its start is high, and one more.
    pub directory_has_ancestor_returns :
        (rounds : ℕ) (cur : Node) (ancestor : ℕ) (w : W)
        → IsReached cur w
        → height cur.inode_no < rounds
        → (directory_has_ancestor os img rounds cur ancestor w).0 ≢ hang
    unfolding directory_has_ancestor
    directory_has_ancestor_returns zero cur ancestor w reached enough = absurd (omega arith)
    directory_has_ancestor_returns (suc rounds) cur ancestor w reached enough =
        if_returns (cur.inode_no == ancestor) _ _ w (λ met. ok_ne_hang true)
          (λ unmet.
            if_returns (cur.inode_no == root_inode) _ _ w (λ top. ok_ne_hang false)
              (λ inner.
                or_false-returns (read_directory_parent_inode os img cur.inode_no cur.inode) _ w _
                  refl (read_parent-IsReturning cur.inode_no cur.inode w)
                  (λ number named.
                    if_returns (number == cur.inode_no) _ _ _ (λ own. ok_ne_hang false)
                      (λ other.
                        or_false-returns (node_get_by_inode os img number) _ _ _ refl
                          (node-IsReturning number _)
                          (λ next node_read.
                            let up : IsParent os img cur w next _ = record {
                              number = number;
                              between = _;
                              named = named;
                              other = ==→ne _ _ other;
                              node_read = node_read;
                            } in
                            let (lower, reached₁) =
                              tree.falls cur w next _ reached (==→ne _ _ inner) up in
                            directory_has_ancestor_returns rounds next ancestor _ reached₁
                              (omega arith))))))
