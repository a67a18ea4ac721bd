-- ===== src/Directory/Totality.antt =====
-- The iteration over a directory returns, whatever records its blocks hold.
use nextufs_offline.Base.{
  ℕ, zero, suc, ◌+◌, ◌-◌, ◌≤◌, ◌<◌, ◌≡◌, refl, arith, false, Option, none, some, ltb, Bool-cases,
  inl, inr,
}
use nextufs_offline.Memory.{Bytes}
use nextufs_offline.Inode.{Inode}
use nextufs_offline.Layout.{DirentView, read_dirent}
use nextufs_offline.Io.{M, eio, Os, Image}
use nextufs_offline.Io.Returns.{
  IsReturning, IsTotal, pure-IsReturning, if-IsReturning, bind-IsReturning, or_fail-IsReturning,
  malloc_or_fail-IsReturning,
}
use nextufs_offline.File.Reading.{inode_read_data-IsReturning}
use nextufs_offline.Directory.{
  block_chunk, visit, go_on, at_record, visit_block, visit_blocks, directory_iterate,
}

-- A record that is read takes at least 8 bytes.
read_dirent_step :
    (buf : Bytes) (size off : ℕ) (ent : DirentView)
    → read_dirent buf size off ≡ some ent
    → 8 ≤ ent.reclen
unfolding read_dirent
read_dirent_step buf size off ent h = ground arith

module _ {W R : Type 0} (cb : ℕ → Bytes → ℕ → M W (Option R))
    (returns : (ino : ℕ) (name : Bytes) (len : ℕ) → IsReturning (cb ino name len)) where
  visit-IsReturning : (buf : Bytes) (ent : DirentView) → IsReturning (visit cb buf ent)
  unfolding visit
  visit-IsReturning buf ent =
      if-IsReturning _ _ _ (returns ent.ino _ ent.namlen) (pure-IsReturning none)

  go_on-IsReturning :
      (rest : M W (Option R)) (o : Option R) → IsReturning rest → IsReturning (go_on cb rest o)
  unfolding go_on
  go_on-IsReturning rest none h = h
  go_on-IsReturning rest (some r) h = pure-IsReturning (some r)

  at_record-IsReturning :
      (rest : ℕ → M W (Option R)) (buf : Bytes) (o : Option DirentView)
      → ((ent : DirentView) → o ≡ some ent → IsReturning (rest ent.reclen))
      → IsReturning (at_record cb rest buf o)
  unfolding at_record
  at_record-IsReturning rest buf none h = pure-IsReturning none
  at_record-IsReturning rest buf (some ent) h =
      bind-IsReturning _ _ (visit-IsReturning buf ent)
        (λ o. go_on-IsReturning (rest ent.reclen) o (h ent refl))

  visit_block-IsReturning :
      (fuel : ℕ) (buf : Bytes) (chunk off : ℕ)
      → chunk ≤ off + fuel
      → IsReturning (visit_block cb fuel buf chunk off)
  unfolding visit_block
  visit_block-IsReturning zero buf chunk off enough =
      let e : ltb off chunk ≡ false = ground arith in rw e (pure-IsReturning none)
  visit_block-IsReturning (suc fuel) buf chunk off enough =
      if-IsReturning (ltb off chunk) _ _
        (at_record-IsReturning _ buf (read_dirent buf chunk off) (λ ent e.
          visit_block-IsReturning fuel buf chunk (off + ent.reclen)
            (omega (arith, read_dirent_step buf chunk off ent e))))
        (pure-IsReturning none)

  module _ (img : Image W) (total : IsTotal img) (pos : 0 < img.sb.block_size) where
    visit_blocks-IsReturning :
        (fuel : ℕ) (ino : Inode) (remaining index : ℕ)
        → remaining ≤ fuel
        → IsReturning (visit_blocks cb img fuel ino remaining index)
    unfolding visit_blocks
    visit_blocks-IsReturning zero ino remaining index enough =
        let e : ltb 0 remaining ≡ false = ground arith in rw e (pure-IsReturning none)
    visit_blocks-IsReturning (suc fuel) ino remaining index enough =
        elim (Bool-cases (ltb 0 remaining)) [
          | inr e ↦ rw e (pure-IsReturning none)
          | inl e ↦
              let less : remaining - block_chunk img remaining ≤ fuel = ground arith in
              rw e (
                bind-IsReturning _ _
                  (or_fail-IsReturning eio _ (inode_read_data-IsReturning img total ino _ _ _ pos))
                  (λ got.
                    bind-IsReturning _ _
                      (visit_block-IsReturning (block_chunk img remaining) _ _ 0 (omega arith))
                      (λ o. go_on-IsReturning _ o (
                        visit_blocks-IsReturning fuel ino (remaining - block_chunk img remaining)
                          (index + 1) less))))
        ]

    -- Where the operations of the backend and the callback return and the size of a block is not 0,
    -- the iteration over a directory returns, also over records that are damaged.
    pub directory_iterate-IsReturning :
        (os : Os W) (ino : Inode) → IsReturning (directory_iterate cb os img ino)
    unfolding directory_iterate
    directory_iterate-IsReturning os ino =
        bind-IsReturning _ _ (malloc_or_fail-IsReturning os _)
          (λ u. visit_blocks-IsReturning ino.size ino ino.size 0 (omega arith))
