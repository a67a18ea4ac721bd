-- ===== src/Resize.antt =====
-- src/commands/resize.c: the growth of a file system. The geometry of the groups, and fragments that
-- become free in a group; a change of a count is an `int32_t`, kept as its 32-bit pattern.
pub mod Groups
pub mod Evacuate
pub mod Grow
pub mod Command
pub mod Whole
pub mod Laws
use nextufs_offline.Base.{
  ℕ, zero, suc, ◌+◌, ◌-◌, ◌*◌, ◌/◌, ◌%◌, ◌^◌, Bool, true, false, ◌||◌, Option, none, some, u16, u32,
  add32, sub32, mul32, add64, sub64, mul64, ltb, leb, ◌==◌, if◌then◌else◌,
}
use nextufs_offline.Memory.{Bytes}
use nextufs_offline.Superblock.{Superblock}
use nextufs_offline.Bitmap.{test_bit, count_free_runs_in_block}
use nextufs_offline.Layout.{cgstart}
use nextufs_offline.Io.{Result, ok, err, hang, einval, enotsup, M, fail, pure, out_of_fuel}
use nextufs_offline.Cg.{free_off, apply_cg_frsum_delta, adjust_rotation}
use nextufs_offline.Alloc.Runs.{release_bits}

abbrev pub cgsblock : Superblock → ℕ → ℕ
cgsblock sb cg = add64 (cgstart sb cg) sb.sb_off

abbrev pub cgtod : Superblock → ℕ → ℕ
cgtod sb cg = add64 (cgstart sb cg) sb.cg_off

abbrev pub cgimin : Superblock → ℕ → ℕ
cgimin sb cg = add64 (cgstart sb cg) sb.ino_off

abbrev pub cgdmin : Superblock → ℕ → ℕ
cgdmin sb cg = add64 (cgstart sb cg) sb.data_off

-- `(uint64_t)frags_per_group * cg`
abbrev pub cg_base : Superblock → ℕ → ℕ
cg_base sb cg = mul64 sb.frags_per_group cg

unfoldable pub cg_frag_count : Superblock → ℕ → ℕ → ℕ
cg_frag_count sb cg fs_frags =
    let remaining = sub64 fs_frags (cg_base sb cg) in
    if ltb remaining sb.frags_per_group then u32 remaining else sb.frags_per_group

unfoldable pub cg_cylinder_count : Superblock → ℕ → ℕ → ℕ → ℕ
cg_cylinder_count sb cg ncg ncyl = u16 (if cg == sub32 ncg 1 then ncyl % sb.cpg else sb.cpg)

unfoldable pub count_free_bits : Bytes → ℕ → ℕ → ℕ
count_free_bits buf start zero = 0
count_free_bits buf start (suc count) =
    let rest = count_free_bits buf (start + 1) count in
    if test_bit buf free_off start then rest + 1 else rest

-- The end of the block of a fragment, or `end` where that comes first.
abbrev pub add_limit : Superblock → ℕ → ℕ → ℕ
add_limit sb start end =
    let next = add32 (start - start % sb.frags_per_block) sb.frags_per_block in
    if ltb end next then end else next

-- The table of free runs follows the bits of a block, `set` being the buffer with the new bits.
abbrev pub recount_runs : Superblock → Bytes → Bytes → ℕ → Bytes
recount_runs sb buf set base =
    apply_cg_frsum_delta set (count_free_runs_in_block buf free_off base sb.frags_per_block)
      (count_free_runs_in_block set free_off base sb.frags_per_block) sb.frags_per_block

-- The tables and totals after a round, and whether the block is whole now; `none` is a bit that was
-- set already.
unfoldable pub recount : Superblock → Bytes → ℕ → Option Bytes → Option (Bytes × Bool)
recount sb buf base none = none
recount sb buf base (some set) =
    let summed = recount_runs sb buf set base in
    let whole = count_free_bits summed base sb.frags_per_block == sb.frags_per_block in
    some (if whole then adjust_rotation sb base 1 summed else summed, whole)

-- One round of the loop: the bits up to the end of the block.
unfoldable pub add_to_block : Superblock → Bytes → ℕ → ℕ → Option (Bytes × Bool)
add_to_block sb buf start add_end =
    recount sb buf (start - start % sb.frags_per_block) (release_bits buf start (add_end - start))

-- `return -EINVAL` where a round is refused.
unfoldable pub or_einval :
    {A : Type 0} → Option (Bytes × Bool) → (Bytes → Bool → Result A) → Result A
or_einval none next = err einval
or_einval (some (b, whole)) next = next b whole

-- The loop of `add_free_frag_range`; each round adds at least one fragment.
unfoldable pub add_from : ℕ → Superblock → Bytes → ℕ → ℕ → ℕ → ℕ → Result (Bytes × (ℕ × ℕ))
add_from zero sb buf start end nbfree nffree =
    if ltb start end then hang else ok (buf, (nbfree, nffree))
add_from (suc rounds) sb buf start end nbfree nffree =
    let add_end = add_limit sb start end in
    let added = add32 nffree (add_end - start) in
    let next = or_einval (add_to_block sb buf start add_end) (λ b whole.
      add_from rounds sb b add_end end (if whole then add32 nbfree 1 else nbfree)
        (if whole then sub32 added sb.frags_per_block else added)) in
    if ltb start end then next else ok (buf, (nbfree, nffree))

-- The group's buffer with the range free, and the changes of the counts of free blocks and
-- fragments.
unfoldable pub add_free_frag_range : Superblock → Bytes → ℕ → ℕ → Result (Bytes × (ℕ × ℕ))
add_free_frag_range sb buf start end =
    if ltb end start || ltb sb.frags_per_group end
    then err einval
    else if sb.frags_per_block == 0 || ltb 8 sb.frags_per_block
    then err enotsup
    else add_from (end - start) sb buf start end 0 0

-- A result as a call.
abbrev pub of_result : {W A : Type 0} → Result A → M W A
of_result (ok a) = pure a
of_result (err e) = fail e
of_result hang = out_of_fuel
