-- ===== src/Alloc/Fragments.antt =====
-- `nextufs__allocate_frags_in_group` and the search over the groups.
pub mod Search
pub mod Walk
pub mod Laws
pub mod Safety
pub mod Totality
use nextufs_offline.Base.{
  ℕ, zero, suc, ◌+◌, ◌-◌, ◌*◌, ◌/◌, ◌%◌, ◌^◌, Bool, true, false, not, ◌&&◌, ◌||◌, Option, none,
  some, u32, u64, add32, sub32, mul32, neg32, ltb, leb, ◌==◌, if◌then◌else◌,
}
use nextufs_offline.Memory.{Bytes, read_be32, write_be32}
use nextufs_offline.Bitmap.{set_run_bits, clear_block_bits, count_free_runs_in_block}
use nextufs_offline.Superblock.{Superblock}
use nextufs_offline.Layout.{Deltas, cg_block_offset, update_summary_counts}
use nextufs_offline.Io.{
  Result, ok, err, hang, Errno, M, ◌>>=◌, ◌>>◌, pure, fail, out_of_fuel, require, einval, enospc,
  Os, Image, write_exact, now,
}
use nextufs_offline.Cg.{
  time_off, ndblk_off, nbfree_off, nffree_off, rotor_off, frsum_off, free_off, add_be32, sub_be32,
  apply_cg_frsum_delta, adjust_rotation, load_cg,
}

-- How a search loop ends: with a hit, by its condition, or by lack of fuel.
pub data Found (A : Type 0) : Type 0 where
  hit : A → Found A
  exhausted : Found A
  no_fuel : Found A

-- The inner loop of the first search: the first start at which `need` free fragments lie before
-- `end`. The block has `fpb` starts, so as many rounds are enough.
unfoldable pub find_start : Bytes → ℕ → ℕ → ℕ → ℕ → Option ℕ
find_start buf need end zero start = none
find_start buf need end (suc left) start =
    let rest = find_start buf need end left (start + 1) in
    if leb (add32 start need) end
    then (if set_run_bits buf free_off start need then some start else rest)
    else none

-- `end` of the block at `frag`, cut off at the group's last fragment.
abbrev pub block_end : ℕ → ℕ → ℕ → ℕ
block_end fpb limit frag = if ltb limit (add32 frag fpb) then limit else add32 frag fpb

-- A whole free block is left to the second search.
unfoldable pub start_in_block : Bytes → ℕ → ℕ → ℕ → ℕ → Option ℕ
start_in_block buf fpb need limit frag =
    let end = block_end fpb limit frag in
    if (sub32 end frag == fpb) && set_run_bits buf free_off frag fpb
    then none
    else find_start buf need end fpb frag

unfoldable pub first_hit : ℕ → Option ℕ → Found (ℕ × ℕ) → Found (ℕ × ℕ)
first_hit frag none rest = rest
first_hit frag (some start) rest = hit (frag, start)

-- The first search, from the block at `frag` on: a partial block with room. A hit is the block and
-- the start of the run.
unfoldable pub find_partial : ℕ → Bytes → ℕ → ℕ → ℕ → ℕ → Found (ℕ × ℕ)
find_partial zero buf fpb need limit frag = if ltb frag limit then no_fuel else exhausted
find_partial (suc fuel) buf fpb need limit frag =
    let rest = find_partial fuel buf fpb need limit (add32 frag fpb) in
    let found = first_hit frag (start_in_block buf fpb need limit frag) rest in
    if ltb frag limit then found else exhausted

-- The second search: a whole free block.
unfoldable pub find_block : ℕ → Bytes → ℕ → ℕ → ℕ → Found ℕ
find_block zero buf fpb limit frag = if leb (add32 frag fpb) limit then no_fuel else exhausted
find_block (suc fuel) buf fpb limit frag =
    let rest = find_block fuel buf fpb limit (add32 frag fpb) in
    if leb (add32 frag fpb) limit
    then (if set_run_bits buf free_off frag fpb then hit frag else rest)
    else exhausted

-- What is written for a run from a partial block.
unfoldable pub take_partial : Bytes → ℕ → ℕ → ℕ → ℕ → ℕ → Bytes
take_partial buf fpb need frag start time =
    let before = count_free_runs_in_block buf free_off frag fpb in
    let cleared = clear_block_bits buf free_off start need in
    let after = count_free_runs_in_block cleared free_off frag fpb in
    let summed = apply_cg_frsum_delta cleared before after fpb in
    write_be32 (sub_be32 summed nffree_off need) time_off time

-- `frsum[free_frags]++` for the rest of a split block
unfoldable pub count_rest : Bytes → ℕ → Bytes
count_rest buf free_frags = if ltb 0 free_frags then add_be32 buf (frsum_off free_frags) 1 else buf

-- What is written for a run at the start of a whole free block.
unfoldable pub take_block : Superblock → Bytes → ℕ → ℕ → ℕ → Bytes
take_block sb buf need frag time =
    let free_frags = sub32 sb.frags_per_block need in
    let cleared = write_be32 (clear_block_bits buf free_off frag need) rotor_off frag in
    let counted = add_be32 (sub_be32 cleared nbfree_off 1) nffree_off free_frags in
    adjust_rotation sb frag (neg32 1) (write_be32 (count_rest counted free_frags) time_off time)

-- The check on `cg_ndblk`.
unfoldable pub limit_ok : Superblock → ℕ → ℕ → Bool
limit_ok sb cg limit = not (
    ltb sb.frags_per_group limit
    || ltb sb.frag_count (u64 (cg * sb.frags_per_group + limit))
    || ltb sb.cg_size (add32 free_off (add32 limit 7 / 8)))

abbrev pub frag_deltas : ℕ → ℕ → Deltas
frag_deltas d_nbfree d_nffree = record {
  ndir = 0;
  nbfree = d_nbfree;
  nifree = 0;
  nffree = d_nffree;
}

module _ {W : Type 0} (os : Os W) (img : Image W) where
  -- The block of the first search that ends the call.
  unfoldable pub commit_partial : ℕ → Bytes → ℕ → ℕ → ℕ → M W ℕ
  commit_partial cg buf need frag start = do
    time ← now os
    write_exact img (take_partial buf img.sb.frags_per_block need frag start time) img.sb.cg_size
        (cg_block_offset img cg)
    update_summary_counts os img cg (frag_deltas 0 (neg32 need))
    pure (add32 (mul32 cg img.sb.frags_per_group) start)

  unfoldable pub commit_block : ℕ → Bytes → ℕ → ℕ → M W ℕ
  commit_block cg buf need frag = do
    time ← now os
    write_exact img (take_block img.sb buf need frag time) img.sb.cg_size (cg_block_offset img cg)
    update_summary_counts os img cg (frag_deltas (neg32 1) (sub32 img.sb.frags_per_block need))
    pure (add32 (mul32 cg img.sb.frags_per_group) frag)

  unfoldable pub after_block_search : ℕ → Bytes → ℕ → Found ℕ → M W ℕ
  after_block_search cg buf need (hit frag) = commit_block cg buf need frag
  after_block_search cg buf need exhausted = fail enospc
  after_block_search cg buf need no_fuel = out_of_fuel

  unfoldable pub split_block : ℕ → Bytes → ℕ → ℕ → M W ℕ
  split_block cg buf need limit =
      if read_be32 buf nbfree_off == 0
      then fail enospc
      else after_block_search cg buf need
          (find_block (limit + 1) buf img.sb.frags_per_block limit 0)

  unfoldable pub after_partial_search : ℕ → Bytes → ℕ → ℕ → Found (ℕ × ℕ) → M W ℕ
  after_partial_search cg buf need limit (hit (frag, start)) = commit_partial cg buf need frag start
  after_partial_search cg buf need limit exhausted = split_block cg buf need limit
  after_partial_search cg buf need limit no_fuel = out_of_fuel

  -- The choice between the two searches, on the group's buffer.
  unfoldable pub allocate_from : ℕ → Bytes → ℕ → ℕ → M W ℕ
  allocate_from cg buf need limit =
      if ltb need img.sb.frags_per_block && leb need (read_be32 buf nffree_off)
      then after_partial_search cg buf need limit
          (find_partial limit buf img.sb.frags_per_block need limit 0)
      else split_block cg buf need limit

  unfoldable pub allocate_frags_in_group : ℕ → ℕ → M W ℕ
  allocate_frags_in_group cg need = do
    require (not (need == 0 || ltb img.sb.frags_per_block need)) einval
    buf ← load_cg os img cg
    let limit = read_be32 buf ndblk_off
    require (limit_ok img.sb cg limit) einval
    allocate_from cg buf need limit

  -- A full group is passed over, any other error ends the search.
  unfoldable pub unless_full : Result ℕ × W → M W ℕ → Result ℕ × W
  unless_full (ok frag, w) rest = (ok frag, w)
  unless_full (hang, w) rest = (hang, w)
  unless_full (err enospc, w) rest = rest w
  unless_full (err e, w) rest = (err e, w)

  -- `i` groups are done.
  unfoldable pub allocate_frags_from : ℕ → ℕ → ℕ → ℕ → M W ℕ
  allocate_frags_from preferred_cg need zero i = fail enospc
  allocate_frags_from preferred_cg need (suc left) i = λ w.
      unless_full (allocate_frags_in_group (add32 preferred_cg i % img.sb.cg_count) need w)
        (allocate_frags_from preferred_cg need left (i + 1))

  unfoldable pub allocate_frags_anycg : ℕ → ℕ → M W ℕ
  allocate_frags_anycg preferred_cg need = allocate_frags_from preferred_cg need img.sb.cg_count 0

  unfoldable pub allocate_full_block_anycg : ℕ → M W ℕ
  allocate_full_block_anycg preferred_cg = allocate_frags_anycg preferred_cg img.sb.frags_per_block
