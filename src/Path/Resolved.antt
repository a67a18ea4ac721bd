-- ===== src/Path/Resolved.antt =====
-- A path that is looked up with all links followed does not lead to a link.
use nextufs_offline.Base.{
  ℕ, zero, suc, ◌≡◌, ◌⊎◌, refl, arith, Bool, true, false, not, ◌&&◌, ◌||◌, List, [], ◌∷◌, Option,
  none, some, ltb, ◌==◌, if◌then◌else◌, inl, inr,
}
use nextufs_offline.Memory.{zeroed}
use nextufs_offline.Inode.{Inode}
use nextufs_offline.Io.{
  ok, M, require, ◌>>=◌, pure, or_fail, eio, enoent, enotdir, enametoolong, eloop, Os, Image,
  malloc_or_fail,
}
use nextufs_offline.Io.Laws.{bind_ok, pure_ok, hang_ne_ok, err_ne_ok}
use nextufs_offline.Cg.{is_dir_mode}
use nextufs_offline.Layout.{inode_read}
use nextufs_offline.Directory.{find_name_in_directory}
use nextufs_offline.Text.{nth, length}
use nextufs_offline.Path.{
  Node, max_path_len, max_lookup_depth, root_inode, slash, is_lnk_mode, is_empty, skip_slashes,
  strsep, remainder_of, append_path_component, link_path, string_at, go_deeper, inode_readlink,
  enter_link, walk, lookup_path, path_lookup,
}

-- No link, or the root.
abbrev pub IsResolved : Node → Type 0
IsResolved node = (is_lnk_mode node.inode.mode ≡ false) ⊎ (node.inode_no ≡ root_inode)

-- The calls that succeed end at such a node.
abbrev Resolves : {W : Type 0} → M W Node → Type 0
Resolves {W} m = (w w' : W) (node : Node) → m w ≡ (ok node, w') → IsResolved node

pure-Resolves : {W : Type 0} (node : Node) → IsResolved node → Resolves {W = W} (pure node)
pure-Resolves node h w w' found e = rw (pure_ok node w e).0 h

bind-Resolves :
    {W A : Type 0} (m : M W A) (k : A → M W Node) → ((a : A) → Resolves (k a)) → Resolves (m >>= k)
bind-Resolves m k h w w' node e = let (a, w₁, _, h₁) = bind_ok m k w e in h a w₁ w' node h₁

if-Resolves :
    {W : Type 0} (b : Bool) (m k : M W Node)
    → (b ≡ true → Resolves m)
    → (b ≡ false → Resolves k)
    → Resolves (if b then m else k)
if-Resolves true m k hm hk = hm refl
if-Resolves false m k hm hk = hk refl

go_deeper-Resolves :
    {W : Type 0} (longer : Option (List ℕ)) (rest : List ℕ → M W Node)
    → ((path : List ℕ) → Resolves (rest path))
    → Resolves (go_deeper longer rest)
unfolding go_deeper
go_deeper-Resolves none rest h = λ w w' node e. absurd (err_ne_ok enametoolong w e)
go_deeper-Resolves (some path) rest h = h path

module _ {W : Type 0} (os : Os W) (img : Image W) where
  module _ (again : List ℕ → M W Node) (ends : (path : List ℕ) → Resolves (again path)) where
    enter_link-Resolves :
        (prefix remainder : List ℕ) (ino : Inode)
        → Resolves (enter_link os img true again prefix remainder ino)
    unfolding enter_link
    enter_link-Resolves prefix remainder ino =
        bind-Resolves (or_fail eio (inode_readlink os img ino zeroed max_path_len)) _ (λ out.
          let new_path = link_path prefix (string_at max_path_len out 0) remainder in
          bind-Resolves (require (ltb (length new_path) max_path_len) enametoolong) _
            (λ short. ends new_path))

    walk-Resolves :
        (fuel : ℕ) (cursor : Option (List ℕ)) (prefix : List ℕ) (current : Node)
        → IsResolved current
        → Resolves (walk os img true again fuel cursor prefix current)
    unfolding walk
    walk-Resolves zero none prefix current h = pure-Resolves current h
    walk-Resolves zero (some cs) prefix current h = λ w w' node e. absurd (hang_ne_ok w e)
    walk-Resolves (suc fuel) none prefix current h = pure-Resolves current h
    walk-Resolves (suc fuel) (some cs) prefix current h =
        let segment = (strsep cs).0 in
        let cursor = (strsep cs).1 in
        let remainder = remainder_of cursor in
        if-Resolves (is_empty segment) _ _ (λ skip. walk-Resolves fuel cursor prefix current h)
          (λ some_name.
            bind-Resolves (require (is_dir_mode current.inode.mode) enotdir) _ (λ is_dir.
              bind-Resolves
                (or_fail eio
                  (find_name_in_directory os img current.inode (nth segment) (length segment)))
                _
                (λ next. bind-Resolves (require (not (next == 0)) enoent) _ (λ some_next.
                  bind-Resolves (or_fail eio (inode_read img next)) _ (λ read.
                    bind-Resolves (require (ltb (length remainder) max_path_len) enametoolong) _
                      (λ short.
                        if-Resolves
                          (is_lnk_mode (read.0).mode && (not (is_empty remainder) || true)) _ _
                          (λ link. enter_link-Resolves prefix remainder read.0)
                          (λ other.
                            go_deeper-Resolves (append_path_component prefix segment) _ (λ path.
                              walk-Resolves fuel cursor path
                                (record { inode_no = next; inode_off = read.1; inode = read.0 })
                                (inl (ground arith))))))))))

  lookup_path-Resolves : (left : ℕ) (path : List ℕ) → Resolves (lookup_path os img left true path)
  unfolding lookup_path
  lookup_path-Resolves zero path = λ w w' node e. absurd (err_ne_ok eloop w e)
  lookup_path-Resolves (suc left) path =
      let rest = skip_slashes path in
      bind-Resolves (or_fail eio (inode_read img root_inode)) _ (λ root.
        let start : Node = record { inode_no = root_inode; inode_off = root.1; inode = root.0 } in
        if-Resolves (is_empty rest) _ _ (λ here. pure-Resolves start (inr refl))
          (λ deeper. bind-Resolves (malloc_or_fail os (suc (length rest))) _ (λ u.
            walk-Resolves (lookup_path os img left true) (lookup_path-Resolves left)
              (suc (length rest)) (some rest) (slash ∷ []) start (inr refl))))

  -- A path that is looked up with success leads to an inode that is no symbolic link, or to the
  -- root.
  pub path_lookup-IsResolved :
      (path : List ℕ) (node : Node) (w w' : W)
      → path_lookup os img path w ≡ (ok node, w')
      → IsResolved node
  path_lookup-IsResolved path node w w' e =
      lookup_path-Resolves (suc max_lookup_depth) path w w' node e
