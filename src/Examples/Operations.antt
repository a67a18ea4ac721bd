-- ===== src/Examples/Operations.antt =====
-- Operations of src/mutate/mutate.c on the small tree.
use nextufs_offline.Base.{
  ℕ, ◌+◌, ◌<◌, ◌≡◌, ◌≢◌, ◌⊎◌, inl, inr, refl, sym, ap, ◌∙◌, arith, true, List, [], ◌∷◌, ◌++◌, some,
  ◌==◌, if◌then◌else◌,
}
use nextufs_offline.Memory.{Bytes}
use nextufs_offline.Inode.{decode_inode}
use nextufs_offline.Io.{ok, hang}
use nextufs_offline.Io.Laws.{bind_ok, pure_ok}
use nextufs_offline.Layout.{inode_read}
use nextufs_offline.Mutate.Parent.{read_directory_parent_inode}
use nextufs_offline.Path.{Node, slash}
use nextufs_offline.Path.Split.{path_split}
use nextufs_offline.Path.Split.Laws.{slash_free, path_split-join, path_split_ok}
use nextufs_offline.Operations.Inodes.{node_get_by_inode, directory_has_ancestor}
use nextufs_offline.Operations.Attributes.{path_chown}
use nextufs_offline.Operations.Owners.{IsChownDone, path_chown_ok}
use nextufs_offline.Operations.Climb.{IsParent, IsBelow, climb-Answer}
use nextufs_offline.Operations.Termination.{IsTree, directory_has_ancestor_returns}
use nextufs_offline.Examples.Code.{code}
use nextufs_offline.Examples.Disk.{toy_os, toy_img}
use nextufs_offline.Examples.Reading.{backend-IsTotal}
use nextufs_offline.Examples.Tree.{tree_disk, owner, opened_toy, keep, path_a, path_d}

path_chown_example :
    IsChownDone toy_os opened_toy keep
      (some owner)
      path_a
      5
      6
      tree_disk
      (path_chown toy_os opened_toy keep (some owner) path_a 5 6 tree_disk).1
unfolding code
path_chown_example = path_chown_ok toy_os opened_toy keep (some owner) path_a 5 6 tree_disk _ refl

-- The inode of `e`, and its node.
abbrev e_node : Node
e_node = record {
  inode_no = 4;
  inode_off = 20992;
  inode = decode_inode (λ j. tree_disk (20992 + j));
}

climb_example : IsBelow toy_os toy_img 2 e_node tree_disk
unfolding code
climb_example = climb-Answer toy_os toy_img 2 e_node 2 tree_disk refl

path_split-join_example :
    path_split (0x2f ∷ 0x65 ∷ 0x2f ∷ 0x64 ∷ []) 4096 256 tree_disk
    ≡ (ok (0x2f ∷ 0x65 ∷ [], 0x64 ∷ []), tree_disk)
unfolding slash_free
path_split-join_example =
    path_split-join 0x2f (0x65 ∷ []) (0x64 ∷ []) 4096 256 tree_disk refl refl (omega arith)
      (omega arith) (omega arith)

path_split_example :
    ((0x2f ∷ 0x64 ∷ [] ≡ (0x2f ∷ []) ++ slash ∷ 0x64 ∷ [])
      ⊎ ((◌≡◌ {A = List ℕ} (0x2f ∷ []) (slash ∷ []))
          × (◌≡◌ {A = List ℕ} (0x2f ∷ 0x64 ∷ []) (slash ∷ 0x64 ∷ []))))
    × (slash_free (0x64 ∷ []) ≡ true)
    × (0 < 1)
    × (1 < 256)
    × (0 < 1)
    × (1 < 4096)
unfolding code
path_split_example = path_split_ok path_d (0x2f ∷ []) (0x64 ∷ []) 4096 256 tree_disk tree_disk refl

abbrev depth : ℕ → ℕ
depth inode_no = if inode_no == 2 then 0 else 1

-- `e` as it is on the disk, or the root.
abbrev IsOnTheWay : Node → Bytes → Type 0
IsOnTheWay cur w = ((cur ≡ e_node) × (w ≡ tree_disk)) ⊎ (cur.inode_no ≡ 2)

node_number :
    (number : ℕ) (next : Node) (w w' : Bytes)
    → node_get_by_inode toy_os toy_img number w ≡ (ok next, w')
    → next.inode_no ≡ number
unfolding node_get_by_inode
node_number number next w w' h =
    let (read, w₁, found, h₁) = bind_ok (inode_read toy_img number) _ w h in
    ap (λ (n : Node). n.inode_no) (pure_ok _ w₁ h₁).0

e_parent :
    (cur : Node) (w between : Bytes) (number : ℕ)
    → cur ≡ e_node
    → w ≡ tree_disk
    → read_directory_parent_inode toy_os toy_img cur.inode_no cur.inode w ≡ (ok number, between)
    → number ≡ 2
unfolding code
e_parent cur w between number same disk h =
    let at_e : read_directory_parent_inode toy_os toy_img e_node.inode_no e_node.inode tree_disk
        ≡ (ok number, between) =
      sym
        (λ i. read_directory_parent_inode toy_os toy_img (same i).inode_no (same i).inode (disk i))
      ∙ h in
    (pure_ok 2 tree_disk at_e).0

tree_IsTree : IsTree toy_os toy_img depth IsOnTheWay
tree_IsTree = record { falls = falls_to_root }
  where
    falls_to_root :
        (cur : Node) (w : Bytes) (next : Node) (w' : Bytes)
        → IsOnTheWay cur w
        → cur.inode_no ≢ 2
        → IsParent toy_os toy_img cur w next w'
        → (depth next.inode_no < depth cur.inode_no) × IsOnTheWay next w'
    falls_to_root cur w next w' (inr root) other up = absurd (other root)
    falls_to_root cur w next w' (inl (same, disk)) other up =
        let two : next.inode_no ≡ 2 =
          node_number up.number next up.between w' up.node_read
          ∙ e_parent cur w up.between up.number same disk up.named in
        let four : cur.inode_no ≡ 4 = ap (λ (n : Node). n.inode_no) same in
        (rw (two, four) (omega arith), inr two)

directory_has_ancestor_returns_example :
    (directory_has_ancestor toy_os toy_img 2 e_node 3 tree_disk).0 ≢ hang
directory_has_ancestor_returns_example =
    directory_has_ancestor_returns toy_os toy_img backend-IsTotal (omega arith) depth IsOnTheWay
      tree_IsTree 2 e_node 3 tree_disk (inl (refl, refl)) (omega arith)

-- The bytes `"xyz"` behind the end of `/a`.
abbrev three_bytes : Bytes
three_bytes j = 0x78 + j
