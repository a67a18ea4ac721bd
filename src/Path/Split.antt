-- ===== src/Path/Split.antt =====
-- `nextufs__path_split` of src/core/layout.c: a path is its parent's path and a name.
pub mod Laws
use nextufs_offline.Base.{
  ℕ, ◌+◌, not, List, [], ◌∷◌, Option, none, some, ltb, leb, ◌==◌, if◌then◌else◌,
}
use nextufs_offline.Text.{length}
use nextufs_offline.Io.{M, ◌>>=◌, ◌>>◌, pure, fail, require, einval, enametoolong}
use nextufs_offline.Path.{slash, is_empty, is_absolute}

-- A slash behind the character, or the character itself.
unfoldable pub or_here : ℕ → List ℕ → Option (List ℕ × List ℕ) → Option (List ℕ × List ℕ)
or_here c cs (some (parent, name)) = some (c ∷ parent, name)
or_here c cs none = if c == slash then some ([], cs) else none

-- `strrchr(path, '/')`: what stands in front of the last slash and what stands behind it.
unfoldable pub last_slash : List ℕ → Option (List ℕ × List ℕ)
last_slash [] = none
last_slash (c ∷ cs) = or_here c cs (last_slash cs)

module _ {W : Type 0} where
  unfoldable pub split_at : ℕ → ℕ → Option (List ℕ × List ℕ) → M W (List ℕ × List ℕ)
  split_at parent_size name_size none = fail einval
  split_at parent_size name_size (some (parent, name)) = do
    require (not (is_empty name)) einval
    require (not (leb name_size (length name))) enametoolong
    require
        (not (if is_empty parent then ltb parent_size 2 else ltb parent_size (length parent + 1)))
        enametoolong
    pure (if is_empty parent then slash ∷ [] else parent, name)

  unfoldable pub path_split : List ℕ → ℕ → ℕ → M W (List ℕ × List ℕ)
  path_split path parent_size name_size = do
    require (is_absolute path) einval
    split_at parent_size name_size (last_slash path)
