-- ===== src/Access/Bounds.antt =====
-- The numbers of the file system do not wrap round.
use native.Mathlib.Nat.{mul-le-mul_left}
use nextufs_offline.Base.{
  ℕ, ◌+◌, ◌-◌, ◌*◌, ◌/◌, ◌^◌, ◌≤◌, ◌<◌, ◌≡◌, ◌∙◌, sym, ap, arith, ◌||◌, none, some, none_ne_some,
  ◌==◌, inl, inr, Bool-cases,
}
use nextufs_offline.Superblock.{Superblock}
use nextufs_offline.Access.{StatVfs, fs_statvfs}

-- Fields of 32 bits.
pub record IsNarrow (sb : Superblock) : Type 0 where
  pub free_block_count : sb.free_block_count < 2 ^ 32
  pub frags_per_block : sb.frags_per_block < 2 ^ 32
  pub free_frag_count : sb.free_frag_count < 2 ^ 32
  pub data_frag_count : sb.data_frag_count < 2 ^ 32
  pub minfree : sb.minfree < 2 ^ 32
  pub cg_count : sb.cg_count < 2 ^ 32
  pub inodes_per_group : sb.inodes_per_group < 2 ^ 32

product_fits : (a b : ℕ) → a < 2 ^ 32 → b < 2 ^ 32 → a * b ≤ 4294967295 * 4294967295
product_fits a b lt lt' =
    let le : b ≤ 4294967295 = omega (arith, lt') in omega (arith, mul-le-mul_left a le, lt)

some_value : {A : Type 0} {a b : A} → some a ≡ some b → a ≡ b
some_value {a = a} h = ap (λ o. elim o [ none ↦ a | some x ↦ x ]) h

-- For a superblock of 32-bit fields: the free fragments are those of the free blocks and the single
-- ones, the available ones are what exceeds the reserve, and the inodes are those of all groups.
pub fs_statvfs_bounds :
    (sb : Superblock) (s : StatVfs)
    → IsNarrow sb
    → fs_statvfs sb ≡ some s
    → (s.bfree ≡ sb.free_block_count * sb.frags_per_block + sb.free_frag_count)
      × (s.bavail ≡ s.bfree - sb.data_frag_count * sb.minfree / 100)
      × (s.files ≡ sb.cg_count * sb.inodes_per_group)
unfolding fs_statvfs
fs_statvfs_bounds sb s narrow h =
    let free =
      product_fits sb.free_block_count sb.frags_per_block narrow.free_block_count
        narrow.frags_per_block in
    let reserve =
      product_fits sb.data_frag_count sb.minfree narrow.data_frag_count narrow.minfree in
    let inodes =
      product_fits sb.cg_count sb.inodes_per_group narrow.cg_count narrow.inodes_per_group in
    elim (Bool-cases (sb.frag_size == 0 || sb.block_size == 0 || sb.frags_per_block == 0)) [
      | inl bad ↦ absurd (none_ne_some (rw bad at h))
      | inr good ↦
          let e = some_value (rw good at h) in
          let bfree : s.bfree ≡ sb.free_block_count * sb.frags_per_block + sb.free_frag_count =
            sym (ap (λ (x : StatVfs). x.bfree) e) ∙ omega (arith, free, narrow.free_frag_count) in
          (
            bfree,
            sym (ap (λ (x : StatVfs). x.bavail) e)
                ∙ ground (arith, bfree, free, reserve, narrow.free_frag_count),
            sym (ap (λ (x : StatVfs). x.files) e) ∙ omega (arith, inodes),
          )
    ]
