-- ===== src/Path/Totality.antt =====
-- The walk along a path ends, also where links lead back to themselves.
use nextufs_offline.Base.{
  ℕ, zero, suc, ◌≤◌, ◌<◌, arith, Bool, true, not, ◌&&◌, ◌||◌, List, [], ◌∷◌, Option, none, some,
  ◌^◌, ltb, leb, ◌==◌, inl, inr, Bool-cases,
}
use nextufs_offline.Memory.{Bytes, upd, zeroed}
use nextufs_offline.Inode.{Inode}
use nextufs_offline.Io.{M, einval, eio, enoent, enotdir, enametoolong, eloop, Os, Image}
use nextufs_offline.Io.Returns.{
  IsReturning, IsTotal, pure-IsReturning, fail-IsReturning, if-IsReturning, bind-IsReturning,
  or_fail-IsReturning, require-then-IsReturning, malloc_or_fail-IsReturning,
}
use nextufs_offline.Cg.{is_dir_mode}
use nextufs_offline.Layout.{inode_read, inode_offset}
use nextufs_offline.File.Reading.{inode_read_data-IsReturning}
use nextufs_offline.File.Symlink.{decode_inline_symlink}
use nextufs_offline.Directory.{find_name_in_directory, find_name_cb, found_or_zero}
use nextufs_offline.Directory.Totality.{directory_iterate-IsReturning}
use nextufs_offline.Text.{nth, length}
use nextufs_offline.Path.{
  Node, max_path_len, max_lookup_depth, root_inode, slash, is_lnk_mode, is_empty, skip_slashes,
  strsep, remainder_of, append_path_component, link_path, string_at, go_deeper, inode_readlink,
  enter_link, walk, lookup_path, path_lookup,
}

-- The rounds that are left for a cursor.
abbrev rounds : Option (List ℕ) → ℕ
rounds none = 0
rounds (some cs) = suc (length cs)

strsep_shrinks : (cs : List ℕ) → rounds (strsep cs).1 ≤ length cs
unfolding strsep
strsep_shrinks [] = omega arith
strsep_shrinks (c ∷ cs) = elim (Bool-cases (c == slash)) [
  | inl e ↦ rw e (omega arith)
  | inr e ↦ rw e (omega (arith, strsep_shrinks cs))
]

go_deeper-IsReturning :
    {W : Type 0} (longer : Option (List ℕ)) (rest : List ℕ → M W Node)
    → ((path : List ℕ) → IsReturning (rest path))
    → IsReturning (go_deeper longer rest)
unfolding go_deeper
go_deeper-IsReturning none rest h = fail-IsReturning enametoolong
go_deeper-IsReturning (some path) rest h = h path

module _ {W : Type 0} (os : Os W) (img : Image W) (total : IsTotal img)
    (pos : 0 < img.sb.block_size) where
  pub inode_read-IsReturning : (inode_no : ℕ) → IsReturning (inode_read img inode_no)
  unfolding inode_read
  inode_read-IsReturning inode_no =
      if-IsReturning (leb (2 ^ 63) (inode_offset img inode_no)) _ _ (fail-IsReturning einval) (
        bind-IsReturning _ _ (total.read 128 (inode_offset img inode_no)) (λ b. pure-IsReturning _))

  found_or_zero-IsReturning : (o : Option ℕ) → IsReturning (found_or_zero {W = W} o)
  unfolding found_or_zero
  found_or_zero-IsReturning none = pure-IsReturning 0
  found_or_zero-IsReturning (some ino) = pure-IsReturning ino

  find_name-IsReturning :
      (dir : Inode) (name : Bytes) (len : ℕ)
      → IsReturning (find_name_in_directory os img dir name len)
  unfolding find_name_in_directory find_name_cb
  find_name-IsReturning dir name len =
      bind-IsReturning _ _
        (directory_iterate-IsReturning (find_name_cb name len) (λ ino n l. pure-IsReturning _) img
          total pos os dir)
        found_or_zero-IsReturning

  inode_readlink-IsReturning :
      (ino : Inode) (out : Bytes) (size : ℕ) → IsReturning (inode_readlink os img ino out size)
  unfolding inode_readlink
  inode_readlink-IsReturning ino out size =
      if-IsReturning (not (is_lnk_mode ino.mode) || size == 0) _ _ (fail-IsReturning einval) (
        if-IsReturning (not ((decode_inline_symlink ino out size).0 == 0)) _ _
          (pure-IsReturning (decode_inline_symlink ino out size).1)
          (bind-IsReturning _ _
            (or_fail-IsReturning eio _ (inode_read_data-IsReturning img total ino 0 out _ pos))
            (λ got. pure-IsReturning (upd got.1 got.0 0))))

  module _ (follow : Bool) (again : List ℕ → M W Node)
      (returns : (path : List ℕ) → IsReturning (again path)) where
    enter_link-IsReturning :
        (prefix remainder : List ℕ) (ino : Inode)
        → IsReturning (enter_link os img follow again prefix remainder ino)
    unfolding enter_link
    enter_link-IsReturning prefix remainder ino =
        bind-IsReturning _ _
          (or_fail-IsReturning eio _ (inode_readlink-IsReturning ino zeroed max_path_len))
          (λ out.
            let new_path = link_path prefix (string_at max_path_len out 0) remainder in
            require-then-IsReturning (ltb (length new_path) max_path_len) enametoolong _
              (λ short. returns new_path))

    walk-IsReturning :
        (fuel : ℕ) (cursor : Option (List ℕ)) (prefix : List ℕ) (node : Node)
        → rounds cursor ≤ fuel
        → IsReturning (walk os img follow again fuel cursor prefix node)
    unfolding walk
    walk-IsReturning zero none prefix node le = pure-IsReturning node
    walk-IsReturning zero (some cs) prefix node le = absurd (omega arith)
    walk-IsReturning (suc fuel) none prefix node le = pure-IsReturning node
    walk-IsReturning (suc fuel) (some cs) prefix node le =
        let segment = (strsep cs).0 in
        let cursor = (strsep cs).1 in
        let remainder = remainder_of cursor in
        let less : rounds cursor ≤ fuel = omega (arith, le, strsep_shrinks cs) in
        if-IsReturning (is_empty segment) _ _ (walk-IsReturning fuel cursor prefix node less) (
          require-then-IsReturning (is_dir_mode node.inode.mode) enotdir _ (λ is_dir.
            bind-IsReturning _ _
              (or_fail-IsReturning eio _
                (find_name-IsReturning node.inode (nth segment) (length segment)))
              (λ next. require-then-IsReturning (not (next == 0)) enoent _ (λ some_next.
                bind-IsReturning _ _ (or_fail-IsReturning eio _ (inode_read-IsReturning next))
                  (λ read.
                    require-then-IsReturning (ltb (length remainder) max_path_len) enametoolong _
                      (λ short.
                        if-IsReturning
                          (is_lnk_mode (read.0).mode && (not (is_empty remainder) || follow)) _ _
                          (enter_link-IsReturning prefix remainder read.0)
                          (go_deeper-IsReturning (append_path_component prefix segment) _ (λ path.
                            walk-IsReturning fuel cursor path
                              (record { inode_no = next; inode_off = read.1; inode = read.0 })
                              less))))))))

  lookup_path-IsReturning :
      (left : ℕ) (follow : Bool) (path : List ℕ) → IsReturning (lookup_path os img left follow path)
  unfolding lookup_path
  lookup_path-IsReturning zero follow path = fail-IsReturning eloop
  lookup_path-IsReturning (suc left) follow path =
      let rest = skip_slashes path in
      bind-IsReturning _ _ (or_fail-IsReturning eio _ (inode_read-IsReturning root_inode)) (λ root.
        let node : Node = record { inode_no = root_inode; inode_off = root.1; inode = root.0 } in
        if-IsReturning (is_empty rest) _ _ (pure-IsReturning node) (
          bind-IsReturning _ _ (malloc_or_fail-IsReturning os (suc (length rest))) (λ u.
            walk-IsReturning follow (lookup_path os img left follow)
              (lookup_path-IsReturning left follow) (suc (length rest)) (some rest) (slash ∷ [])
              node (omega arith))))

  -- Where the operations of the backend return and the size of a block is not 0, every path is
  -- looked up to an end, whatever links and directories the image has.
  pub path_lookup-IsReturning : (path : List ℕ) → IsReturning (path_lookup os img path)
  path_lookup-IsReturning path = lookup_path-IsReturning (suc max_lookup_depth) true path
