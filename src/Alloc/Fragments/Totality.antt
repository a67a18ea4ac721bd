-- ===== src/Alloc/Fragments/Totality.antt =====
-- The allocation of fragments always returns: the rounds of its searches are enough.
use nextufs_offline.Base.{
  ℕ, zero, suc, ◌+◌, ◌%◌, ◌^◌, ◌≤◌, ◌<◌, ◌≢◌, refl, arith, not, ◌||◌, inl, inr, ltb, leb, ◌==◌,
  Bool-cases, add32, ltb→lt,
}
use nextufs_offline.Memory.{Bytes, read_be32}
use nextufs_offline.Layout.{Deltas, update_superblock, update_csum, update_summary_counts}
use nextufs_offline.Io.{Result, ok, err, hang, M, enospc, einval, Os, Image}
use nextufs_offline.Io.Returns.{
  IsReturning, IsTotal, pure-IsReturning, fail-IsReturning, if-IsReturning, bind-IsReturning,
  require-IsReturning, require-then-IsReturning, now-IsReturning, malloc_or_fail-IsReturning,
}
use nextufs_offline.Cg.{ndblk_off, nbfree_off, nffree_off, load_cg}
use nextufs_offline.Alloc.Fragments.{
  Found, hit, exhausted, no_fuel, find_partial, find_block, limit_ok, commit_partial, commit_block,
  after_block_search, split_block, after_partial_search, allocate_from, allocate_frags_in_group,
  unless_full, allocate_frags_from, allocate_frags_anycg,
}
use nextufs_offline.Alloc.Fragments.Search.{
  PartialResult, find_partial_lem, BlockResult, find_block_lem,
}
use nextufs_offline.Alloc.Fragments.Safety.{limit_ok-le}

module _ {W : Type 0} (os : Os W) (img : Image W) (total : IsTotal img) where
  update_summary_counts-IsReturning :
      (cg : ℕ) (d : Deltas) → IsReturning (update_summary_counts os img cg d)
  unfolding update_summary_counts update_superblock update_csum
  update_summary_counts-IsReturning cg d =
      bind-IsReturning _ _
        (bind-IsReturning _ _ (total.read _ _)
          (λ b. bind-IsReturning _ _ (now-IsReturning os) (λ t. total.write _ _ _)))
        (λ u. bind-IsReturning _ _ (total.read _ _) (λ b. total.write _ _ _))

  load_cg-IsReturning : (cg : ℕ) → IsReturning (load_cg os img cg)
  unfolding load_cg
  load_cg-IsReturning cg = bind-IsReturning _ _ (malloc_or_fail-IsReturning os _) (λ u.
      bind-IsReturning _ _ (total.read _ _)
        (λ b. bind-IsReturning _ _ (require-IsReturning _ _) (λ u. pure-IsReturning _)))

  commit_partial-IsReturning :
      (cg : ℕ) (buf : Bytes) (need frag start : ℕ)
      → IsReturning (commit_partial os img cg buf need frag start)
  unfolding commit_partial
  commit_partial-IsReturning cg buf need frag start =
      bind-IsReturning _ _ (now-IsReturning os) (λ t. bind-IsReturning _ _ (total.write _ _ _) (λ u.
        bind-IsReturning _ _ (update_summary_counts-IsReturning _ _) (λ u. pure-IsReturning _)))

  commit_block-IsReturning :
      (cg : ℕ) (buf : Bytes) (need frag : ℕ) → IsReturning (commit_block os img cg buf need frag)
  unfolding commit_block
  commit_block-IsReturning cg buf need frag = bind-IsReturning _ _ (now-IsReturning os) (λ t.
      bind-IsReturning _ _ (total.write _ _ _) (λ u.
        bind-IsReturning _ _ (update_summary_counts-IsReturning _ _) (λ u. pure-IsReturning _)))

  after_block-IsReturning :
      (cg : ℕ) (buf : Bytes) (need limit frag : ℕ) (found : Found ℕ)
      → BlockResult buf img.sb.frags_per_block limit frag found
      → IsReturning (after_block_search os img cg buf need found)
  unfolding after_block_search
  after_block-IsReturning cg buf need limit frag (hit f) r = commit_block-IsReturning cg buf need f
  after_block-IsReturning cg buf need limit frag exhausted r = fail-IsReturning enospc
  after_block-IsReturning cg buf need limit frag no_fuel r = absurd r

  module _ (cg : ℕ) (buf : Bytes) (need limit : ℕ) (small : img.sb.frags_per_block ≤ 8)
      (pos : 0 < need) (fits : need ≤ img.sb.frags_per_block) (below : limit + 16 < 2 ^ 32) where
    split_block-IsReturning : IsReturning (split_block os img cg buf need limit)
    unfolding split_block
    split_block-IsReturning =
        if-IsReturning (read_be32 buf nbfree_off == 0) _ _ (fail-IsReturning enospc) (
          after_block-IsReturning cg buf need limit 0
            (find_block (limit + 1) buf img.sb.frags_per_block limit 0)
            (find_block_lem buf img.sb.frags_per_block limit (omega arith) (omega arith) (limit + 1)
              0 (omega arith) (omega arith)))

    after_partial-IsReturning :
        (found : Found (ℕ × ℕ))
        → PartialResult buf img.sb.frags_per_block need limit 0 found
        → IsReturning (after_partial_search os img cg buf need limit found)
    unfolding after_partial_search
    after_partial-IsReturning (hit (frag, start)) r =
        commit_partial-IsReturning cg buf need frag start
    after_partial-IsReturning exhausted r = split_block-IsReturning
    after_partial-IsReturning no_fuel r = absurd r

    allocate_from-IsReturning : IsReturning (allocate_from os img cg buf need limit)
    unfolding allocate_from
    allocate_from-IsReturning = elim (Bool-cases (ltb need img.sb.frags_per_block)) [
      | inr e ↦ rw e split_block-IsReturning
      | inl e ↦ rw e (
          if-IsReturning (leb need (read_be32 buf nffree_off)) _ _
            (after_partial-IsReturning (find_partial limit buf img.sb.frags_per_block need limit 0)
              (find_partial_lem buf img.sb.frags_per_block need limit pos (ltb→lt _ _ e)
                (omega arith) limit 0 (omega arith) (omega arith)))
            split_block-IsReturning)
    ]

  -- Where the operations of the backend return, with at most 8 fragments per block and a group size
  -- away from the end of the 32-bit range, an allocation in a group returns: none of its searches
  -- uses up its fuel.
  pub allocate_frags_in_group-IsReturning :
      (cg need : ℕ)
      → img.sb.frags_per_block ≤ 8
      → img.sb.frags_per_group + 16 < 2 ^ 32
      → IsReturning (allocate_frags_in_group os img cg need)
  unfolding allocate_frags_in_group
  allocate_frags_in_group-IsReturning cg need small sane =
      require-then-IsReturning (not (need == 0 || ltb img.sb.frags_per_block need)) einval _
        (λ asked. bind-IsReturning (load_cg os img cg) _ (load_cg-IsReturning cg) (λ buf.
          let limit = read_be32 buf ndblk_off in
          require-then-IsReturning (limit_ok img.sb cg limit) einval _ (λ limited.
            let in_group = limit_ok-le img.sb cg limit limited in
            allocate_from-IsReturning cg buf need limit small (ground arith) (ground arith)
              (omega arith))))

  unless_full-returns :
      (r : Result ℕ) (v : W) (rest : M W ℕ)
      → r ≢ hang
      → IsReturning rest
      → (unless_full os img (r, v) rest).0 ≢ hang
  unfolding unless_full
  unless_full-returns (ok f) v rest h later stuck = cc stuck
  unless_full-returns (err enospc) v rest h later stuck = later v stuck
  unless_full-returns (err x) v rest h later stuck = cc stuck
  unless_full-returns hang v rest h later stuck = h refl

  from-IsReturning :
      (preferred_cg need left i : ℕ)
      → img.sb.frags_per_block ≤ 8
      → img.sb.frags_per_group + 16 < 2 ^ 32
      → IsReturning (allocate_frags_from os img preferred_cg need left i)
  unfolding allocate_frags_from
  from-IsReturning preferred_cg need zero i small sane = fail-IsReturning enospc
  from-IsReturning preferred_cg need (suc left) i small sane = λ w.
      let cg = add32 preferred_cg i % img.sb.cg_count in
      unless_full-returns (allocate_frags_in_group os img cg need w).0
        (allocate_frags_in_group os img cg need w).1
        (allocate_frags_from os img preferred_cg need left (i + 1))
        (allocate_frags_in_group-IsReturning cg need small sane w)
        (from-IsReturning preferred_cg need left (i + 1) small sane)

  -- Under the same conditions an allocation in any group returns.
  pub allocate_frags_anycg-IsReturning :
      (preferred_cg need : ℕ)
      → img.sb.frags_per_block ≤ 8
      → img.sb.frags_per_group + 16 < 2 ^ 32
      → IsReturning (allocate_frags_anycg os img preferred_cg need)
  unfolding allocate_frags_anycg
  allocate_frags_anycg-IsReturning preferred_cg need small sane =
      from-IsReturning preferred_cg need img.sb.cg_count 0 small sane
