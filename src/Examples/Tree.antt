-- ===== src/Examples/Tree.antt =====
-- A root directory with a file `a` and two empty directories, `d` and `e`, on the toy image.
use nextufs_offline.Base.{
  ℕ, ◌+◌, ◌/◌, ◌%◌, ◌-◌, ◌≡◌, refl, List, [], ◌∷◌, some, ltb, leb, ◌&&◌, if◌then◌else◌,
}
use nextufs_offline.Memory.{Bytes, zeroed, upd}
use nextufs_offline.Inode.{Inode, encode_inode}
use nextufs_offline.Io.{ok, M, Image}
use nextufs_offline.Operations.{WriteCtx, write_user, blank_inode}
use nextufs_offline.Operations.Remove.{path_unlink, path_rmdir}
use nextufs_offline.Operations.Rename.{path_rename}
use nextufs_offline.Operations.Attributes.{path_chown}
use nextufs_offline.Operations.Create.{path_mkdir}
use nextufs_offline.Examples.Code.{code}
use nextufs_offline.Examples.Disk.{toy_os, toy_img, toy_cg}

-- A record of a directory with a name of at most two characters.
abbrev put_entry : Bytes → ℕ → ℕ → ℕ → ℕ → ℕ → ℕ → Bytes
put_entry buf off ino reclen namlen first second =
    upd
      (upd
        (upd (upd (upd (upd buf (off + 3) ino) (off + 4) (reclen / 256)) (off + 5) (reclen % 256))
          (off + 7) namlen)
        (off + 8) first)
      (off + 9) second

abbrev dots_of : ℕ → ℕ → ℕ → Bytes
dots_of self parent rest =
    put_entry (put_entry zeroed 0 self 12 1 0x2e 0) 12 parent rest 2 0x2e 0x2e

abbrev root_block : Bytes
root_block =
    put_entry (put_entry (put_entry (dots_of 2 2 12) 24 5 12 1 0x61 0) 36 3 12 1 0x64 0) 48 4 976 1
      0x65 0

abbrev directory_at : ℕ → ℕ → Inode
directory_at frag nlink = record blank_inode {
  mode = 0x41ff;
  nlink = nlink;
  uid = 5;
  gid = 6;
  size = 1024;
  db = upd zeroed 0 frag;
  blocks = 1;
}

abbrev file_a : Inode
file_a = record blank_inode { mode = 0x81b4; nlink = 1; uid = 5; gid = 6 }

abbrev inodes : Bytes
inodes j =
    if ltb j 384
    then encode_inode (directory_at 13 4) (j - 256)
    else if ltb j 512
    then encode_inode (directory_at 9 2) (j - 384)
    else if ltb j 640
    then encode_inode (directory_at 8 2) (j - 512)
    else encode_inode file_a (j - 640)

abbrev pub tree_disk : Bytes
tree_disk j =
    if ltb j 8192
    then 0
    else if ltb j 9216
    then dots_of 4 2 1012 (j - 8192)
    else if ltb j 13312
    then dots_of 3 2 1012 (j - 9216)
    else if ltb j 14336
    then root_block (j - 13312)
    else if leb 16384 j && ltb j 18432
    then toy_cg (j - 16384)
    else if leb 20736 j && ltb j 21248
    then inodes (j - 20480)
    else 0

abbrev pub owner : WriteCtx
owner = record { policy = write_user; uid = 5; gid = 6; groups = [] }

abbrev pub opened_toy : M Bytes (Image Bytes)
opened_toy w = (ok toy_img, w)

abbrev pub keep : Image Bytes → Bytes → Bytes
keep img w = w

-- `/a`, `/d` and `/e/d`.
abbrev pub path_a : List ℕ
path_a = 0x2f ∷ 0x61 ∷ []

abbrev pub path_d : List ℕ
path_d = 0x2f ∷ 0x64 ∷ []

abbrev pub path_e_d : List ℕ
path_e_d = 0x2f ∷ 0x65 ∷ 0x2f ∷ 0x64 ∷ []

unlinked : (path_unlink toy_os opened_toy keep (some owner) path_a tree_disk).0 ≡ ok tt
unfolding code
unlinked = refl

emptied : (path_rmdir toy_os opened_toy keep (some owner) path_d tree_disk).0 ≡ ok tt
unfolding code
emptied = refl

moved : (path_rename toy_os opened_toy keep 2 (some owner) path_d path_e_d tree_disk).0 ≡ ok tt
unfolding code
moved = refl

owned : (path_chown toy_os opened_toy keep (some owner) path_a 5 6 tree_disk).0 ≡ ok tt
unfolding code
owned = refl

made : (path_mkdir toy_os opened_toy keep (some owner) (0x2f ∷ 0x66 ∷ []) 0x1ed tree_disk).0 ≡ ok tt
unfolding code
made = refl
