-- ===== src/Path.antt =====
-- The walk along a path, src/core/path.c, and `nextufs_inode_readlink` of src/core/image.c. A path is
-- the list of its characters, without the NUL behind it.
pub mod Totality
pub mod Resolved
pub mod Split
use nextufs_offline.Base.{
  ℕ, zero, suc, ◌+◌, ◌-◌, ◌*◌, ◌/◌, ◌≤◌, Bool, true, false, not, ◌&&◌, ◌||◌, List, [], ◌∷◌, ◌++◌,
  Option, none, some, bit_and, ltb, leb, ◌==◌, if◌then◌else◌,
}
use nextufs_offline.Memory.{Bytes, upd, zeroed}
use nextufs_offline.Inode.{Inode}
use nextufs_offline.Io.{
  M, ◌>>=◌, ◌>>◌, pure, fail, require, or_fail, out_of_fuel, einval, eio, enoent, enotdir,
  enametoolong, eloop, Os, Image, malloc_or_fail,
}
use nextufs_offline.Cg.{is_dir_mode}
use nextufs_offline.Layout.{inode_read}
use nextufs_offline.File.{inode_read_data}
use nextufs_offline.File.Symlink.{decode_inline_symlink}
use nextufs_offline.Directory.{find_name_in_directory}
use nextufs_offline.Text.{nth, length}

abbrev pub max_lookup_depth : ℕ
max_lookup_depth = 16

abbrev pub max_path_len : ℕ
max_path_len = 4096

abbrev pub root_inode : ℕ
root_inode = 2

-- `'/'`
abbrev pub slash : ℕ
slash = 0x2f

abbrev pub is_lnk_mode : ℕ → Bool
is_lnk_mode mode = bit_and mode 0xf000 == 0xa000

-- `struct nextufs_node`
pub record Node : Type 0 where
  pub inode_no : ℕ
  pub inode_off : ℕ
  pub inode : Inode

abbrev pub is_empty : List ℕ → Bool
is_empty [] = true
is_empty (c ∷ cs) = false

abbrev pub is_absolute : List ℕ → Bool
is_absolute [] = false
is_absolute (c ∷ cs) = c == slash

unfoldable pub skip_slashes : List ℕ → List ℕ
skip_slashes [] = []
skip_slashes (c ∷ cs) = let rest = skip_slashes cs in if c == slash then rest else c ∷ cs

-- `strsep(&cursor, "/")`: the segment, and the cursor behind it.
unfoldable pub strsep : List ℕ → List ℕ × Option (List ℕ)
strsep [] = ([], none)
strsep (c ∷ cs) = let rest = strsep cs in if c == slash then ([], some cs) else (c ∷ rest.0, rest.1)

abbrev pub remainder_of : Option (List ℕ) → List ℕ
remainder_of none = []
remainder_of (some cs) = cs

-- `none` where the path is too long.
unfoldable pub append_path_component : List ℕ → List ℕ → Option (List ℕ)
append_path_component path component =
    let alone = is_empty path || (is_absolute path && length path == 1) in
    let longer = if alone then slash ∷ component else path ++ (slash ∷ component) in
    if leb max_path_len (length longer) then none else some longer

-- The path that takes the place of a link with this target.
unfoldable pub link_path : List ℕ → List ℕ → List ℕ → List ℕ
link_path prefix target remainder =
    let tail = if is_empty remainder then [] else slash ∷ remainder in
    if is_absolute target then target ++ tail else prefix ++ (slash ∷ (target ++ tail))

-- The characters of the string at `p`, which ends in the next `left` bytes.
unfoldable pub string_at : ℕ → Bytes → ℕ → List ℕ
string_at zero m p = []
string_at (suc left) m p =
    let rest = string_at left m (p + 1) in if m p == 0 then [] else m p ∷ rest

-- The next segment, unless the path up to it is too long.
unfoldable pub go_deeper : {W : Type 0} → Option (List ℕ) → (List ℕ → M W Node) → M W Node
go_deeper none rest = fail enametoolong
go_deeper (some path) rest = rest path

module _ {W : Type 0} (os : Os W) (img : Image W) where
  -- `nextufs_inode_readlink`: the buffer of the caller.
  unfoldable pub inode_readlink : Inode → Bytes → ℕ → M W Bytes
  inode_readlink ino out out_size =
      let inline = decode_inline_symlink ino out out_size in
      let read : M W Bytes =
        or_fail eio (inode_read_data img ino 0 out (out_size - 1))
        >>= (λ got. pure (upd got.1 got.0 0)) in
      if not (is_lnk_mode ino.mode) || out_size == 0
      then fail einval
      else if not (inline.0 == 0)
      then pure inline.1
      else read

  module _ (follow_final : Bool) (again : List ℕ → M W Node) where
    -- A symbolic link on the way.
    unfoldable pub enter_link : List ℕ → List ℕ → Inode → M W Node
    enter_link prefix remainder ino = do
      out ← or_fail eio (inode_readlink ino zeroed max_path_len)
      let new_path = link_path prefix (string_at max_path_len out 0) remainder
      require (ltb (length new_path) max_path_len) enametoolong
      again new_path

    -- The loop over the segments of the path.
    unfoldable pub walk : ℕ → Option (List ℕ) → List ℕ → Node → M W Node
    walk zero none prefix current = pure current
    walk zero (some cs) prefix current = out_of_fuel
    walk (suc fuel) none prefix current = pure current
    walk (suc fuel) (some cs) prefix current =
        let segment = (strsep cs).0 in
        let cursor = (strsep cs).1 in
        let remainder = remainder_of cursor in
        let longer = append_path_component prefix segment in
        let found : M W Node = (do
          require (is_dir_mode current.inode.mode) enotdir
          next ←
              or_fail eio
                (find_name_in_directory os img current.inode (nth segment) (length segment))
          require (not (next == 0)) enoent
          read ← or_fail eio (inode_read img next)
          require (ltb (length remainder) max_path_len) enametoolong
          if is_lnk_mode (read.0).mode && (not (is_empty remainder) || follow_final)
              then enter_link prefix remainder read.0
              else go_deeper longer (λ path.
                walk fuel cursor path
                  (record { inode_no = next; inode_off = read.1; inode = read.0 }))) in
        let skipped = walk fuel cursor prefix current in if is_empty segment then skipped else found

  -- `lookup_path_recursive`, with `left` levels left.
  unfoldable pub lookup_path : ℕ → Bool → List ℕ → M W Node
  lookup_path zero follow_final path = fail eloop
  lookup_path (suc left) follow_final path = do
    root ← or_fail eio (inode_read img root_inode)
    let node : Node = record { inode_no = root_inode; inode_off = root.1; inode = root.0 }
    let rest = skip_slashes path
    let inner : M W Node =
        malloc_or_fail os (suc (length rest))
        >> walk follow_final (lookup_path left follow_final) (suc (length rest)) (some rest)
            (slash ∷ []) node
    if is_empty rest then pure node else inner

  abbrev pub path_lookup : List ℕ → M W Node
  path_lookup path = lookup_path (suc max_lookup_depth) true path

  abbrev pub path_lookup_nofollow : List ℕ → M W Node
  path_lookup_nofollow path = lookup_path (suc max_lookup_depth) false path
