-- ===== src/Alloc/Fragments/Safety.antt =====
-- A successful allocation: which run is handed out, and what is written for it.
use nextufs_offline.Base.{
  ℕ, ◌+◌, ◌*◌, ◌^◌, ◌≤◌, ◌<◌, ◌≡◌, arith, true, not, ◌&&◌, ◌||◌, inl, inr, add32, mul32, ltb, leb,
  ◌==◌, Bool-cases, ltb→lt,
}
use nextufs_offline.Memory.{Bytes, read_be32}
use nextufs_offline.Bitmap.{test_bit}
use nextufs_offline.Bitmap.Laws.{in_run, set_run_bits_sound}
use nextufs_offline.Superblock.{Superblock}
use nextufs_offline.Layout.{cg_block_offset, update_summary_counts}
use nextufs_offline.Io.{ok, enospc, einval, Os, Image, write_exact, now}
use nextufs_offline.Io.Laws.{bind_ok, require_ok, pure_ok, err_ne_ok}
use nextufs_offline.Cg.{ndblk_off, nbfree_off, nffree_off, free_off, load_cg}
use nextufs_offline.Alloc.Fragments.{
  Found, hit, exhausted, no_fuel, find_partial, find_block, take_partial, take_block, limit_ok,
  commit_partial, commit_block, split_block, after_block_search, after_partial_search,
  allocate_from, allocate_frags_in_group,
}
use nextufs_offline.Alloc.Fragments.Laws.{test_bit-take_partial, test_bit-take_block}
use nextufs_offline.Alloc.Fragments.Search.{
  IsPartialRun, PartialResult, find_partial_lem, IsWholeBlock, BlockResult, find_block_lem,
}

pub limit_ok-le :
    (sb : Superblock) (cg limit : ℕ) → limit_ok sb cg limit ≡ true → limit ≤ sb.frags_per_group
unfolding limit_ok
limit_ok-le sb cg limit h = ground arith

module _ {W : Type 0} (os : Os W) (img : Image W) where
  -- The run of `need` fragments at `start` of group `cg` is what the call answers with: it was
  -- free in `buf`, lies in one block and below the group's end, and a buffer was written in which
  -- its bits alone are cleared.
  pub record IsAllocated (cg : ℕ) (buf : Bytes) (need limit frag : ℕ) : Type 0 where
    pub start : ℕ
    pub block : ℕ
    pub answer : frag ≡ add32 (mul32 cg img.sb.frags_per_group) start
    pub from_block : block * img.sb.frags_per_block ≤ start
    pub in_block : start + need ≤ (block + 1) * img.sb.frags_per_block
    pub in_group : start + need ≤ limit
    pub was_free : (i : ℕ) → start ≤ i → i < start + need → test_bit buf free_off i ≡ true
    pub written : Bytes
    pub before : W
    pub after : W
    pub write_done :
        write_exact img written img.sb.cg_size (cg_block_offset img cg) before ≡ (ok tt, after)
    pub cleared :
        (j : ℕ)
        → test_bit written free_off j ≡ (not (in_run start need j) && test_bit buf free_off j)

  module _ (cg : ℕ) (buf : Bytes) (need limit : ℕ) (small : img.sb.frags_per_block ≤ 8)
      (pos : 0 < need) (fits : need ≤ img.sb.frags_per_block) (below : limit + 16 < 2 ^ 32) where
    commit_partial_ok :
        (frag start f : ℕ) (w w' : W)
        → commit_partial os img cg buf need frag start w ≡ (ok f, w')
        → (f ≡ add32 (mul32 cg img.sb.frags_per_group) start)
          × (time : ℕ) × (u : W) × (v : W) × (write_exact img
                (take_partial buf img.sb.frags_per_block need frag start time)
                img.sb.cg_size
                (cg_block_offset img cg)
                u
              ≡ (ok tt, v))
    unfolding commit_partial
    commit_partial_ok frag start f w w' h =
        let (time, u, _, h₁) = bind_ok (now os) _ w h in
        let (_, v, e, h₂) = bind_ok (write_exact img _ _ _) _ u h₁ in
        let (_, x, _, h₃) = bind_ok (update_summary_counts os img cg _) _ v h₂ in
        ((pure_ok _ x h₃).0, time, u, v, e)

    commit_block_ok :
        (frag f : ℕ) (w w' : W)
        → commit_block os img cg buf need frag w ≡ (ok f, w')
        → (f ≡ add32 (mul32 cg img.sb.frags_per_group) frag)
          × (time : ℕ) × (u : W) × (v : W) × (write_exact img
                (take_block img.sb buf need frag time)
                img.sb.cg_size
                (cg_block_offset img cg)
                u
              ≡ (ok tt, v))
    unfolding commit_block
    commit_block_ok frag f w w' h =
        let (time, u, _, h₁) = bind_ok (now os) _ w h in
        let (_, v, e, h₂) = bind_ok (write_exact img _ _ _) _ u h₁ in
        let (_, x, _, h₃) = bind_ok (update_summary_counts os img cg _) _ v h₂ in
        ((pure_ok _ x h₃).0, time, u, v, e)

    partial-IsAllocated :
        (frag start f : ℕ) (w w' : W)
        → (k : ℕ) × (frag ≡ 0 + k * img.sb.frags_per_block)
          × IsPartialRun buf img.sb.frags_per_block need limit frag start
        → commit_partial os img cg buf need frag start w ≡ (ok f, w')
        → IsAllocated cg buf need limit f
    partial-IsAllocated frag start f w w' (k, e, run) h =
        let (answer, time, u, v, done) = commit_partial_ok frag start f w w' h in
        record {
          start = start;
          block = k;
          answer = answer;
          from_block = omega (arith, run.from);
          in_block = omega (arith, run.within);
          in_group = run.below;
          was_free = λ i lo hi. set_run_bits_sound buf free_off start need i run.is_free lo hi;
          written = take_partial buf img.sb.frags_per_block need frag start time;
          before = u;
          after = v;
          write_done = done;
          cleared = test_bit-take_partial buf img.sb.frags_per_block need frag start time small;
        }

    block-IsAllocated :
        (frag f : ℕ) (w w' : W)
        → (k : ℕ) × (frag ≡ 0 + k * img.sb.frags_per_block)
          × IsWholeBlock buf img.sb.frags_per_block limit frag
        → commit_block os img cg buf need frag w ≡ (ok f, w')
        → IsAllocated cg buf need limit f
    block-IsAllocated frag f w w' (k, e, run) h =
        let (answer, time, u, v, done) = commit_block_ok frag f w w' h in
        record {
          start = frag;
          block = k;
          answer = answer;
          from_block = omega arith;
          in_block = omega arith;
          in_group = omega (arith, run.below);
          was_free = λ i lo hi.
              set_run_bits_sound buf free_off frag img.sb.frags_per_block i run.is_free lo
                (omega arith);
          written = take_block img.sb buf need frag time;
          before = u;
          after = v;
          write_done = done;
          cleared = test_bit-take_block img.sb buf need frag time small fits;
        }

    after_block-IsAllocated :
        (r : Found ℕ) (f : ℕ) (w w' : W)
        → BlockResult buf img.sb.frags_per_block limit 0 r
        → after_block_search os img cg buf need r w ≡ (ok f, w')
        → IsAllocated cg buf need limit f
    unfolding after_block_search
    after_block-IsAllocated (hit frag) f w w' found h = block-IsAllocated frag f w w' found h
    after_block-IsAllocated exhausted f w w' found h = absurd (err_ne_ok enospc w h)
    after_block-IsAllocated no_fuel f w w' found h = elim found [ ]

    split-IsAllocated :
        (f : ℕ) (w w' : W)
        → split_block os img cg buf need limit w ≡ (ok f, w')
        → IsAllocated cg buf need limit f
    unfolding split_block
    split-IsAllocated f w w' h = elim (Bool-cases (read_be32 buf nbfree_off == 0)) [
      | inl e ↦ absurd (err_ne_ok enospc w (rw e at h))
      | inr e ↦
          after_block-IsAllocated (find_block (limit + 1) buf img.sb.frags_per_block limit 0) f w w'
            (find_block_lem buf img.sb.frags_per_block limit (omega arith) (omega arith) (limit + 1)
              0 (omega arith) (omega arith))
            (rw e at h)
    ]

    after_partial-IsAllocated :
        (r : Found (ℕ × ℕ)) (f : ℕ) (w w' : W)
        → PartialResult buf img.sb.frags_per_block need limit 0 r
        → after_partial_search os img cg buf need limit r w ≡ (ok f, w')
        → IsAllocated cg buf need limit f
    unfolding after_partial_search
    after_partial-IsAllocated (hit (frag, start)) f w w' found h =
        partial-IsAllocated frag start f w w' found h
    after_partial-IsAllocated exhausted f w w' found h = split-IsAllocated f w w' h
    after_partial-IsAllocated no_fuel f w w' found h = elim found [ ]

    pub allocate_from-IsAllocated :
        (f : ℕ) (w w' : W)
        → allocate_from os img cg buf need limit w ≡ (ok f, w')
        → IsAllocated cg buf need limit f
    unfolding allocate_from
    allocate_from-IsAllocated f w w' h = elim (Bool-cases (ltb need img.sb.frags_per_block)) [
      | inr e ↦ split-IsAllocated f w w' (rw e at h)
      | inl e ↦ elim (Bool-cases (leb need (read_be32 buf nffree_off))) [
        | inr e' ↦ split-IsAllocated f w w' (rw (e, e') at h)
        | inl e' ↦
            after_partial-IsAllocated (find_partial limit buf img.sb.frags_per_block need limit 0) f
              w w'
              (find_partial_lem buf img.sb.frags_per_block need limit pos (ltb→lt _ _ e)
                (omega arith) limit 0 (omega arith) (omega arith))
              (rw (e, e') at h)
      ]
    ]

  -- With at most 8 fragments per block and a group size away from the end of the 32-bit range, an
  -- allocation that succeeds hands out `need` fragments that were
  -- free in the group's map as it was read: they lie in one block and below the end of the group,
  -- which is at most `frags_per_group`, and the block of the group is written with exactly their
  -- bits cleared.
  pub allocate_frags_in_group-IsAllocated :
      (cg need f : ℕ) (w w' : W)
      → img.sb.frags_per_block ≤ 8
      → img.sb.frags_per_group + 16 < 2 ^ 32
      → allocate_frags_in_group os img cg need w ≡ (ok f, w')
      → (buf : Bytes) × (w₁ : W) × (load_cg os img cg w ≡ (ok buf, w₁))
        × (read_be32 buf ndblk_off ≤ img.sb.frags_per_group)
        × IsAllocated cg buf need (read_be32 buf ndblk_off) f
  unfolding allocate_frags_in_group
  allocate_frags_in_group-IsAllocated cg need f w w' small sane h =
      let (asked, h₁) =
        require_ok (not (need == 0 || ltb img.sb.frags_per_block need)) einval _ w h in
      let (buf, v, e₁, h₂) = bind_ok (load_cg os img cg) _ w h₁ in
      let limit = read_be32 buf ndblk_off in
      let (limited, h₃) = require_ok (limit_ok img.sb cg limit) einval _ v h₂ in
      let in_group : limit ≤ img.sb.frags_per_group = limit_ok-le img.sb cg limit limited in
      (
        buf,
        v,
        e₁,
        in_group,
        allocate_from-IsAllocated cg buf need limit small (ground arith) (ground arith)
            (omega arith) f v w' h₃,
      )
