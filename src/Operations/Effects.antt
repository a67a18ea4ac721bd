-- ===== src/Operations/Effects.antt =====
-- What is left behind where an entry, a link or a directory has been removed.
use nextufs_offline.Base.{
  ℕ, ◌+◌, ◌-◌, ◌^◌, ◌<◌, ◌≡◌, ◌≢◌, ◌⊎◌, inl, inr, sym, ◌∙◌, arith, true, not, List, u16, u32, ◌==◌,
  ==→eq, ==→ne, if◌then◌else◌,
}
use mathlib.Core.Path.{subst}
use nextufs_offline.Text.{nth, length}
use nextufs_offline.Inode.{Inode}
use nextufs_offline.Layout.{write_inode_raw}
use nextufs_offline.Io.{Result, ok, err, hang, M, pure, einval, Os, Image, now}
use nextufs_offline.Io.Laws.{bind_ok, require_ok, pure_ok, err_ne_ok, hang_ne_ok, if_call}
use nextufs_offline.Alloc.InodeGroup.{free_inode_in_group}
use nextufs_offline.Alloc.InodeGroup.Safety.{IsInodeFreed, free_inode_in_group-IsInodeFreed}
use nextufs_offline.Alloc.Indirect.{Files}
use nextufs_offline.Alloc.Storage.{free_file_storage}
use nextufs_offline.Mutate.Remove.{remove_dirent}
use nextufs_offline.Mutate.Erased.{IsEntryErased, remove_dirent_ok}
use nextufs_offline.Path.{Node}
use nextufs_offline.Operations.{blank_inode, run_on}
use nextufs_offline.Operations.Inodes.{
  is_special, give_up_inode, remove_linked_inode, remove_dir_inode,
}
use nextufs_offline.Operations.Remove.{leave_name}
use nextufs_offline.Operations.Guards.{false_if_not}

-- An inode without a link: its storage is freed, unless it has none, a blank inode is written in its
-- place, and its bit is cleared.
pub record IsGivenUp {W : Type 0} (os : Os W) (img : Image W) (inode_no : ℕ) (ino : Inode) (w : W)
    : Type 0 where
  pub freed_world : W
  pub storage_freed :
      ((is_special ino.mode ≡ true) × (w ≡ freed_world))
      ⊎ ((left : Unit {0} × Inode) × (run_on ino (free_file_storage os img) w
            ≡ (ok left, freed_world)))
  pub blank_world : W
  pub blanked : write_inode_raw img inode_no blank_inode freed_world ≡ (ok tt, blank_world)
  pub bit_cleared : IsInodeFreed os img inode_no blank_world

-- One link less: the inode is written with it and the time, or was the last and is given up.
abbrev pub IsLinkRemoved : {W : Type 0} → Os W → Image W → Node → W → W → Type 0
IsLinkRemoved {W} os img target w w' =
    ((1 < target.inode.nlink)
      × (time : ℕ) × (v : W) × (now os w ≡ (ok time, v))
      × (write_inode_raw img target.inode_no
            (record target.inode { nlink = target.inode.nlink - 1; ctime = u32 time }) v
          ≡ (ok tt, w')))
    ⊎ ((target.inode.nlink ≡ 1)
        × IsGivenUp os img target.inode_no (record target.inode { nlink = 0 }) w)

-- A directory is given up, and its parent is written with one link less and the time.
pub record IsDirRemoved {W : Type 0} (os : Os W) (img : Image W) (parent_no : ℕ) (parent : Inode)
    (target : Node) (w w' : W) : Type 0 where
  pub freed : Unit {0} × Inode
  pub freed_world : W
  pub storage_freed : run_on target.inode (free_file_storage os img) w ≡ (ok freed, freed_world)
  pub blank_world : W
  pub blanked : write_inode_raw img target.inode_no blank_inode freed_world ≡ (ok tt, blank_world)
  pub bit_cleared : IsInodeFreed os img target.inode_no blank_world
  pub bit_world : W
  pub bit_freed :
      free_inode_in_group os img target.inode_no (freed.1).mode blank_world ≡ (ok tt, bit_world)
  pub time : ℕ
  pub time_world : W
  pub told : now os bit_world ≡ (ok time, time_world)
  pub parent_written :
      write_inode_raw img parent_no
        (record parent {
          nlink = u16 (parent.nlink + 2 ^ 16 - 1);
          ctime = u32 time;
          mtime = u32 time;
        })
        time_world
      ≡ (ok tt, w')

run_on_lem :
    {W A : Type 0} (r : Result A) (x : Files W) (a : A) (n : Inode) (w' : W)
    → ◌≡◌ {A = Result (A × Inode) × W}
        (elim r [
          | ok b ↦ (ok (b, x.ino), x.world)
          | err e ↦ (err e, x.world)
          | hang ↦ (hang, x.world)
        ])
        (ok (a, n), w')
    → (r ≡ ok a) × (n ≡ x.ino) × (w' ≡ x.world)
run_on_lem (ok b) x a n w' h =
    let (e, same) = pure_ok (b, x.ino) x.world h in
    ((λ i. ok ((sym e i).0)), (λ i. (e i).1), sym same)
run_on_lem (err e) x a n w' h = absurd (err_ne_ok e x.world h)
run_on_lem hang x a n w' h = absurd (hang_ne_ok x.world h)

module _ {W : Type 0} (os : Os W) (img : Image W) where
  -- A call on an inode succeeds as the call itself does.
  pub run_on_ok :
      {A : Type 0} (ino : Inode) (m : M (Files W) A) (w : W) (a : A) (n : Inode) (w' : W)
      → run_on ino m w ≡ (ok (a, n), w')
      → (s : Files W) × (m (record { world = w; ino = ino; frags = 0 }) ≡ (ok a, s))
        × (n ≡ s.ino)
        × (w' ≡ s.world)
  unfolding run_on
  run_on_ok ino m w a n w' h =
      let s : Files W = record { world = w; ino = ino; frags = 0 } in
      let (e, left, same) = run_on_lem (m s).0 (m s).1 a n w' h in
      ((m s).1, (λ i. (e i, (m s).1)), left, same)

  -- The entry of the inode is erased in the directory.
  pub leave_name_ok :
      (parent_no : ℕ) (parent : Inode) (name : List ℕ) (inode_no : ℕ) (left : Inode) (w w' : W)
      → leave_name os img parent_no parent name inode_no w ≡ (ok left, w')
      → IsEntryErased img parent
          (nth name)
          (length name)
          inode_no
          parent.size
          0
          ((os.malloc img.sb.block_size w).1)
  unfolding leave_name
  leave_name_ok parent_no parent name inode_no left w w' h =
      let (removed, w₁, e, h₁) =
        bind_ok (run_on parent (remove_dirent os img parent_no (nth name) (length name))) _ w h in
      let (same, h₂) = require_ok (removed.0 == inode_no) einval _ w₁ h₁ in
      let (s, ran, kept, same_world) = run_on_ok parent _ w removed.0 removed.1 w₁ e in
      subst
        (λ n.
          IsEntryErased img parent (nth name) (length name) n parent.size 0
            ((os.malloc img.sb.block_size w).1))
        (==→eq _ _ same)
        (remove_dirent_ok os img parent_no (nth name) (length name) removed.0 _ s ran)

  give_up_inode-IsGivenUp :
      (inode_no : ℕ) (ino : Inode) (w w' : W)
      → give_up_inode os img inode_no ino w ≡ (ok tt, w')
      → IsGivenUp os img inode_no ino w
  unfolding give_up_inode
  give_up_inode-IsGivenUp inode_no ino w w' h =
      let free = run_on ino (free_file_storage os img) in
      let (freed, w₁, e, h₁) =
        bind_ok (if is_special ino.mode then pure (tt, ino) else free) _ w h in
      let (u, w₂, blanked, h₂) = bind_ok (write_inode_raw img inode_no blank_inode) _ w₁ h₁ in
      record {
        freed_world = w₁;
        storage_freed = elim (if_call (is_special ino.mode) (pure (tt, ino)) free w e) [
          | inl (special, e₁) ↦ inl (special, (pure_ok (tt, ino) w e₁).1)
          | inr (plain, e₁) ↦ inr (freed, e₁)
        ];
        blank_world = w₂;
        blanked = blanked;
        bit_cleared = free_inode_in_group-IsInodeFreed os img inode_no (freed.1).mode w₂ w' h₂;
      }

  pub remove_linked_inode-IsLinkRemoved :
      (target : Node) (w w' : W)
      → remove_linked_inode os img target w ≡ (ok tt, w')
      → IsLinkRemoved os img target w w'
  unfolding remove_linked_inode
  remove_linked_inode-IsLinkRemoved target w w' h =
      let (linked, h₁) = require_ok (not (target.inode.nlink == 0)) einval _ w h in
      let some_link : target.inode.nlink ≢ 0 = ==→ne _ _ (false_if_not _ linked) in
      elim (if_call (target.inode.nlink - 1 == 0) _ _ w h₁) [
        | inl (last, h₂) ↦
            let none_left : target.inode.nlink - 1 ≡ 0 = ==→eq _ _ last in
            inr (
              omega arith,
              give_up_inode-IsGivenUp target.inode_no (record target.inode { nlink = 0 }) w w'
                  (subst
                    (λ n.
                      give_up_inode os img target.inode_no (record target.inode { nlink = n }) w
                      ≡ (ok tt, w'))
                    none_left h₂),
            )
        | inr (more, h₂) ↦
            let still : target.inode.nlink - 1 ≢ 0 = ==→ne _ _ more in
            let (time, v, told, written) = bind_ok (now os) _ w h₂ in
            inl (omega arith, time, v, told, written)
      ]

  pub remove_dir_inode-IsDirRemoved :
      (parent_no : ℕ) (parent : Inode) (target : Node) (left : Inode) (w w' : W)
      → remove_dir_inode os img parent_no parent target w ≡ (ok left, w')
      → IsDirRemoved os img parent_no parent target w w'
  unfolding remove_dir_inode
  remove_dir_inode-IsDirRemoved parent_no parent target left w w' h =
      let (freed, w₁, e, h₁) = bind_ok (run_on target.inode (free_file_storage os img)) _ w h in
      let (u, w₂, blanked, h₂) =
        bind_ok (write_inode_raw img target.inode_no blank_inode) _ w₁ h₁ in
      let (v, w₃, cleared, h₃) =
        bind_ok (free_inode_in_group os img target.inode_no (freed.1).mode) _ w₂ h₂ in
      let (time, w₄, told, h₄) = bind_ok (now os) _ w₃ h₃ in
      let changed : Inode = record parent {
        nlink = u16 (parent.nlink + 2 ^ 16 - 1);
        ctime = u32 time;
        mtime = u32 time;
      } in
      let (x, w₅, written, h₅) = bind_ok (write_inode_raw img parent_no changed) _ w₄ h₄ in
      record {
        freed = freed;
        freed_world = w₁;
        storage_freed = e;
        blank_world = w₂;
        blanked = blanked;
        bit_cleared =
            free_inode_in_group-IsInodeFreed os img target.inode_no (freed.1).mode w₂ w₃ cleared;
        bit_world = w₃;
        bit_freed = cleared;
        time = time;
        time_world = w₄;
        told = told;
        parent_written = written ∙ (λ i. (ok tt, (pure_ok changed w₅ h₅).1 i));
      }
