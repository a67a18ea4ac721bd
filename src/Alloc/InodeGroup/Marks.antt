-- ===== src/Alloc/InodeGroup/Marks.antt =====
-- What the writes for an inode leave of the map and the counts of its group.
use nextufs_offline.Base.{
  ℕ, ◌+◌, ◌/◌, ◌^◌, ◌≤◌, ◌<◌, ◌≡◌, refl, ◌∙◌, arith, Bool, true, false, not, ◌&&◌, ◌||◌, inr, ◌==◌,
  if◌then◌else◌, add32, sub32,
}
use nextufs_offline.Memory.{Bytes, read_be32, write_be32}
use nextufs_offline.Memory.Laws.{read-write_be32, read_be32_elsewhere, write_be32_elsewhere}
use nextufs_offline.Bitmap.{test_bit, set_bit, clear_bit}
use nextufs_offline.Bitmap.Laws.{test-set_bit, test-clear_bit}
use nextufs_offline.Cg.{time_off, ndir_off, nifree_off, irotor_off, iused_off, add_be32, sub_be32}
use nextufs_offline.Cg.Frames.{
  test_bit_cong, read_be32_cong, add_be32_elsewhere, sub_be32_elsewhere, set_bit_below,
  clear_bit_below,
}
use nextufs_offline.Alloc.InodeGroup.{mark_inode_used, mark_inode_free}

add_if_above :
    (m : Bytes) (d : Bool) (k : ℕ)
    → iused_off ≤ k
    → (if d then add_be32 m ndir_off 1 else m) k ≡ m k
add_if_above m true k h = add_be32_elsewhere m ndir_off 1 k (inr (omega arith))
add_if_above m false k h = refl

sub_if_above :
    (m : Bytes) (d : Bool) (k : ℕ)
    → iused_off ≤ k
    → (if d then sub_be32 m ndir_off 1 else m) k ≡ m k
sub_if_above m true k h = sub_be32_elsewhere m ndir_off 1 k (inr (omega arith))
sub_if_above m false k h = refl

-- The map of an allocation: one more bit.
pub test_bit-mark_inode_used :
    (buf : Bytes) (ino : ℕ) (d : Bool) (time j : ℕ)
    → test_bit (mark_inode_used buf ino d time) iused_off j ≡ (j == ino || test_bit buf iused_off j)
unfolding mark_inode_used
test_bit-mark_inode_used buf ino d time j =
    let set = set_bit buf iused_off ino in
    let used = write_be32 set irotor_off ino in
    let less = sub_be32 used nifree_off 1 in
    let at = iused_off + j / 8 in
    test_bit_cong (mark_inode_used buf ino d time) set iused_off j (
      add_if_above (write_be32 less time_off time) d at (omega arith)
      ∙ write_be32_elsewhere less time_off time at (inr (omega arith))
      ∙ sub_be32_elsewhere used nifree_off 1 at (inr (omega arith))
      ∙ write_be32_elsewhere set irotor_off ino at (inr (omega arith)))
    ∙ test-set_bit buf iused_off ino j

-- The map of a release: one bit less.
pub test_bit-mark_inode_free :
    (buf : Bytes) (ino : ℕ) (d : Bool) (time j : ℕ)
    → test_bit (mark_inode_free buf ino d time) iused_off j
      ≡ (not (j == ino) && test_bit buf iused_off j)
unfolding mark_inode_free
test_bit-mark_inode_free buf ino d time j =
    let cleared = clear_bit buf iused_off ino in
    let more = add_be32 cleared nifree_off 1 in
    let at = iused_off + j / 8 in
    test_bit_cong (mark_inode_free buf ino d time) cleared iused_off j (
      sub_if_above (write_be32 more time_off time) d at (omega arith)
      ∙ write_be32_elsewhere more time_off time at (inr (omega arith))
      ∙ add_be32_elsewhere cleared nifree_off 1 at (inr (omega arith)))
    ∙ test-clear_bit buf iused_off ino j

set_bit_header :
    (buf : Bytes) (ino q : ℕ)
    → q + 4 ≤ iused_off
    → read_be32 (set_bit buf iused_off ino) q ≡ read_be32 buf q
set_bit_header buf ino q h =
    read_be32_cong (set_bit buf iused_off ino) buf q
      (λ j lo hi. set_bit_below buf iused_off ino j (omega arith))

clear_bit_header :
    (buf : Bytes) (ino q : ℕ)
    → q + 4 ≤ iused_off
    → read_be32 (clear_bit buf iused_off ino) q ≡ read_be32 buf q
clear_bit_header buf ino q h =
    read_be32_cong (clear_bit buf iused_off ino) buf q
      (λ j lo hi. clear_bit_below buf iused_off ino j (omega arith))

-- The counts of an allocation: one free inode less, and one directory more for a directory.
pub mark_inode_used_counts :
    (buf : Bytes) (ino : ℕ) (d : Bool) (time : ℕ)
    → (read_be32 (mark_inode_used buf ino d time) nifree_off ≡ sub32 (read_be32 buf nifree_off) 1)
      × (read_be32 (mark_inode_used buf ino d time) ndir_off
          ≡ (if d then add32 (read_be32 buf ndir_off) 1 else read_be32 buf ndir_off))
unfolding mark_inode_used add_be32 sub_be32
mark_inode_used_counts buf ino d time =
    let set = set_bit buf iused_off ino in
    let used = write_be32 set irotor_off ino in
    let n = sub32 (read_be32 used nifree_off) 1 in
    let less = write_be32 used nifree_off n in
    let timed = write_be32 less time_off time in
    ground (
      arith,
      set_bit_header buf ino nifree_off (omega arith),
      set_bit_header buf ino ndir_off (omega arith),
      read_be32_elsewhere set irotor_off ino nifree_off,
      read_be32_elsewhere set irotor_off ino ndir_off,
      read-write_be32 used nifree_off n,
      read_be32_elsewhere used nifree_off n ndir_off,
      read_be32_elsewhere less time_off time nifree_off,
      read_be32_elsewhere less time_off time ndir_off,
      read_be32_elsewhere timed ndir_off (add32 (read_be32 timed ndir_off) 1) nifree_off,
      read-write_be32 timed ndir_off (add32 (read_be32 timed ndir_off) 1),
    )

-- The counts of a release: one free inode more, and one directory less for a directory.
pub mark_inode_free_counts :
    (buf : Bytes) (ino : ℕ) (d : Bool) (time : ℕ)
    → (read_be32 (mark_inode_free buf ino d time) nifree_off ≡ add32 (read_be32 buf nifree_off) 1)
      × (read_be32 (mark_inode_free buf ino d time) ndir_off
          ≡ (if d then sub32 (read_be32 buf ndir_off) 1 else read_be32 buf ndir_off))
unfolding mark_inode_free add_be32 sub_be32
mark_inode_free_counts buf ino d time =
    let cleared = clear_bit buf iused_off ino in
    let n = add32 (read_be32 cleared nifree_off) 1 in
    let more = write_be32 cleared nifree_off n in
    let timed = write_be32 more time_off time in
    ground (
      arith,
      clear_bit_header buf ino nifree_off (omega arith),
      clear_bit_header buf ino ndir_off (omega arith),
      read-write_be32 cleared nifree_off n,
      read_be32_elsewhere cleared nifree_off n ndir_off,
      read_be32_elsewhere more time_off time nifree_off,
      read_be32_elsewhere more time_off time ndir_off,
      read_be32_elsewhere timed ndir_off (sub32 (read_be32 timed ndir_off) 1) nifree_off,
      read-write_be32 timed ndir_off (sub32 (read_be32 timed ndir_off) 1),
    )

-- An inode that was not in use is taken and given back, for the same mode: the map of inodes is the
-- one before, bit for bit, and so are the counts of free inodes and of directories, as long as they
-- fit 32 bits and count a free inode.
pub mark_inode_free-mark_inode_used :
    (buf : Bytes) (ino : ℕ) (d : Bool) (time time' : ℕ)
    → test_bit buf iused_off ino ≡ false
    → 0 < read_be32 buf nifree_off
    → read_be32 buf nifree_off < 2 ^ 32
    → read_be32 buf ndir_off < 2 ^ 32
    → ((j : ℕ)
        → test_bit (mark_inode_free (mark_inode_used buf ino d time) ino d time') iused_off j
          ≡ test_bit buf iused_off j)
      × (read_be32 (mark_inode_free (mark_inode_used buf ino d time) ino d time') nifree_off
          ≡ read_be32 buf nifree_off)
      × (read_be32 (mark_inode_free (mark_inode_used buf ino d time) ino d time') ndir_off
          ≡ read_be32 buf ndir_off)
mark_inode_free-mark_inode_used buf ino d time time' unused some_free small small_dirs =
    let marked = mark_inode_used buf ino d time in
    let (n, dirs) = mark_inode_used_counts buf ino d time in
    let (n', dirs') = mark_inode_free_counts marked ino d time' in
    (
      λ j. ground (
        arith,
        test_bit-mark_inode_free marked ino d time' j,
        test_bit-mark_inode_used buf ino d time j,
      ),
      ground (arith, n, n'),
      ground (arith, dirs, dirs'),
    )
