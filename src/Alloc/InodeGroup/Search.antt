-- ===== src/Alloc/InodeGroup/Search.antt =====
-- The search of `nextufs__allocate_inode_in_group`, and what its writes leave of the map and the
-- counts.
use nextufs_offline.Base.{
  ℕ, zero, suc, ◌+◌, ◌-◌, ◌%◌, ◌^◌, ◌≤◌, ◌<◌, ◌≡◌, refl, ◌∙◌, ap, arith, Bool, true, false, inl,
  inr, Option, some, none, ◌==◌, leb, if◌then◌else◌, add32, Bool-cases, leb→le,
}
use native.Mathlib.Nat.{mod-eq_of_lt, add-mod_right}
use nextufs_offline.Memory.{Bytes}
use nextufs_offline.Bitmap.{test_bit}
use nextufs_offline.Cg.{iused_off}
use nextufs_offline.Alloc.InodeGroup.{find_inode}

module _ (buf : Bytes) (ipg start : ℕ) where
  -- What the search has found from round `i` on.
  abbrev pub InodeResult : ℕ → Option ℕ → Type 0
  InodeResult i none = (k : ℕ) → i ≤ k → k < ipg → test_bit buf iused_off ((start + k) % ipg) ≡ true
  InodeResult i (some ino) = (ino < ipg) × (test_bit buf iused_off ino ≡ false)

  find_step :
      (i idx : ℕ) (rest : Option ℕ) (b : Bool)
      → test_bit buf iused_off idx ≡ b
      → idx ≡ (start + i) % ipg
      → idx < ipg
      → InodeResult (i + 1) rest
      → InodeResult i (if b then rest else some idx)
  find_step i idx rest false e at lt later = (lt, e)
  find_step i idx (some ino) true e at lt later = later
  find_step i idx none true e at lt later = λ k lo hi. elim (Bool-cases (k == i)) [
    | inl same ↦ ground (arith, e, at)
    | inr other ↦ later k (ground arith) hi
  ]

  find_inode_rounds :
      (left i : ℕ)
      → 0 < ipg
      → start + ipg < 2 ^ 32
      → i + left ≡ ipg
      → InodeResult i (find_inode buf ipg start left i)
  unfolding find_inode
  find_inode_rounds zero i pos small all = λ k lo hi. absurd (omega arith)
  find_inode_rounds (suc left) i pos small all =
      let sum : add32 start i ≡ start + i = omega arith in
      find_step i (add32 start i % ipg) (find_inode buf ipg start left (i + 1))
        (test_bit buf iused_off (add32 start i % ipg)) refl (rw sum refl) (omega arith)
        (find_inode_rounds left (i + 1) pos small (omega arith))

round_of : (ipg start i : ℕ) → i < ipg → start < ipg → (k : ℕ) × (k < ipg) × ((start + k) % ipg ≡ i)
round_of ipg start i lt lt' = elim (Bool-cases (leb start i)) [
  | inl e ↦ (i - start, ground arith, ap (λ x. x % ipg) (back (leb→le start i e)) ∙ mod-eq_of_lt lt)
  | inr e ↦ (
    i + ipg - start,
    ground arith,
    ap (λ x. x % ipg) (round (omega arith)) ∙ add-mod_right i ipg ∙ mod-eq_of_lt lt,
  )
]
  where
    back : start ≤ i → start + (i - start) ≡ i
    back h = omega arith

    round : start < ipg → start + (i + ipg - start) ≡ i + ipg
    round h = omega arith

-- What the whole search has found: an inode of the group that is not in use, or that there is none.
abbrev pub InodeFound : Bytes → ℕ → Option ℕ → Type 0
InodeFound buf ipg none = (i : ℕ) → i < ipg → test_bit buf iused_off i ≡ true
InodeFound buf ipg (some ino) = (ino < ipg) × (test_bit buf iused_off ino ≡ false)

found_all :
    (buf : Bytes) (ipg start : ℕ) (o : Option ℕ)
    → start < ipg
    → InodeResult buf ipg start 0 o
    → InodeFound buf ipg o
found_all buf ipg start (some ino) lt r = r
found_all buf ipg start none lt r =
    λ i h. let (k, below, e) = round_of ipg start i h lt in rw e at (r k (omega arith) below)

-- The search from a start inside the group answers with an inode of the group that is not in use,
-- and with none only where all inodes of the group are in use.
pub find_inode_lem :
    (buf : Bytes) (ipg start : ℕ)
    → start < ipg
    → start + ipg < 2 ^ 32
    → InodeFound buf ipg (find_inode buf ipg start ipg 0)
find_inode_lem buf ipg start lt small =
    found_all buf ipg start (find_inode buf ipg start ipg 0) lt
      (find_inode_rounds buf ipg start ipg 0 (omega arith) small (omega arith))
