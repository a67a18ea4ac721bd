-- ===== src/Alloc/Fragments/Search.antt =====
-- The two searches of `nextufs__allocate_frags_in_group`: what a hit is, that a search without a hit
-- has missed nothing, and that the fuel is enough.
use nextufs_offline.Base.{
  ℕ, zero, suc, ◌+◌, ◌*◌, ◌^◌, ◌≤◌, ◌<◌, ◌≡◌, refl, arith, Bool, true, false, inl, inr, Option,
  none, some, if◌then◌else◌, add32, ltb, leb, Bool-cases, ltb→lt, ltb→le, le→ltb, leb→le, leb→lt,
  lt→leb,
}
use nextufs_offline.Memory.{Bytes}
use nextufs_offline.Bitmap.{set_run_bits}
use nextufs_offline.Cg.{free_off}
use nextufs_offline.Alloc.Fragments.{
  Found, hit, exhausted, no_fuel, find_start, block_end, start_in_block, first_hit, find_partial,
  find_block,
}

-- A hit of the inner loop is a free run that ends before `end`.
find_start_sound :
    (buf : Bytes) (need end left start s : ℕ)
    → end + need < 2 ^ 32
    → 0 < need
    → start ≤ end
    → find_start buf need end left start ≡ some s
    → (start ≤ s) × (s + need ≤ end) × (set_run_bits buf free_off s need ≡ true)
unfolding find_start
find_start_sound buf need end zero start s small pos le h = cc
find_start_sound buf need end (suc left) start s small pos le h =
    ground (arith, find_start_sound buf need end left (start + 1) s small pos)

-- A run that it passes over is not free; the rounds are enough for all starts.
find_start_complete :
    (buf : Bytes) (need end left start s : ℕ)
    → end + need < 2 ^ 32
    → 0 < need
    → end < start + left + need
    → find_start buf need end left start ≡ none
    → start ≤ s
    → s + need ≤ end
    → set_run_bits buf free_off s need ≡ false
unfolding find_start
find_start_complete buf need end zero start s small pos enough h lo hi = absurd (omega arith)
find_start_complete buf need end (suc left) start s small pos enough h lo hi =
    ground (arith, find_start_complete buf need end left (start + 1) s small pos)

module _ (buf : Bytes) (fpb need limit : ℕ) where
  -- A run of a block that the first search looks at: free, and not part of a whole free block.
  pub record IsPartialRun (frag s : ℕ) : Type 0 where
    pub from : frag ≤ s
    pub within : s + need ≤ frag + fpb
    pub below : s + need ≤ limit
    pub is_free : set_run_bits buf free_off s need ≡ true
    pub not_whole : (frag + fpb ≤ limit) → set_run_bits buf free_off frag fpb ≡ true → ⊥

  -- What the first search has found from the block at `frag` on.
  abbrev pub PartialResult : ℕ → Found (ℕ × ℕ) → Type 0
  PartialResult frag (hit (f, s)) = (k : ℕ) × (f ≡ frag + k * fpb) × IsPartialRun f s
  PartialResult frag exhausted = (k s : ℕ) → ¬ IsPartialRun (frag + k * fpb) s
  PartialResult frag no_fuel = ⊥

module _ (buf : Bytes) (fpb need limit : ℕ) (pos : 0 < need) (proper : need < fpb)
    (small : limit + fpb + fpb < 2 ^ 32) where
  -- The last fragment of the block at `frag`, or the group's.
  abbrev last : ℕ → ℕ
  last frag = block_end fpb limit frag

  start_in_block_sound :
      (frag s : ℕ)
      → frag < limit
      → start_in_block buf fpb need limit frag ≡ some s
      → IsPartialRun buf fpb need limit frag s
  unfolding start_in_block
  start_in_block_sound frag s lt h =
      ground (arith, find_start_sound buf need (last frag) fpb frag s)

  start_in_block_complete :
      (frag s : ℕ)
      → frag < limit
      → start_in_block buf fpb need limit frag ≡ none
      → ¬ IsPartialRun buf fpb need limit frag s
  unfolding start_in_block
  start_in_block_complete frag s lt h run =
      ground (arith, find_start_complete buf need (last frag) fpb frag s)

  none_later :
      (frag : ℕ)
      → ((s : ℕ) → ¬ IsPartialRun buf fpb need limit frag s)
      → ((k s : ℕ) → ¬ IsPartialRun buf fpb need limit (frag + fpb + k * fpb) s)
      → (k s : ℕ) → ¬ IsPartialRun buf fpb need limit (frag + k * fpb) s
  none_later frag here rest zero s run =
      let e : frag + 0 * fpb ≡ frag = omega arith in here s (rw e at run)
  none_later frag here rest (suc k) s run =
      let e : frag + suc k * fpb ≡ frag + fpb + k * fpb = omega arith in rest k s (rw e at run)

  partial_step :
      (frag : ℕ) (r : Found (ℕ × ℕ))
      → ((s : ℕ) → ¬ IsPartialRun buf fpb need limit frag s)
      → PartialResult buf fpb need limit (frag + fpb) r
      → PartialResult buf fpb need limit frag r
  partial_step frag (hit (f, s)) here (k, e, run) = (suc k, omega arith, run)
  partial_step frag exhausted here rest = none_later frag here rest
  partial_step frag no_fuel here rest = rest

  none_above :
      (frag : ℕ) → limit ≤ frag → (k s : ℕ) → ¬ IsPartialRun buf fpb need limit (frag + k * fpb) s
  none_above frag h k s run = omega arith

  first_hit_lem :
      (frag : ℕ) (o : Option ℕ) (rest : Found (ℕ × ℕ))
      → start_in_block buf fpb need limit frag ≡ o
      → frag < limit
      → PartialResult buf fpb need limit (frag + fpb) rest
      → PartialResult buf fpb need limit frag (first_hit frag o rest)
  unfolding first_hit
  first_hit_lem frag none rest e lt later =
      partial_step frag rest (λ s. start_in_block_complete frag s lt e) later
  first_hit_lem frag (some s) rest e lt later = (0, omega arith, start_in_block_sound frag s lt e)

  -- For runs of less than a block, and a group far from the end of the 32-bit range, the first search
  -- from the block at `frag` ends where its fuel reaches the end of the group. A hit is a free run
  -- of `need` fragments below that end, inside one of the blocks from `frag` on, which is not free as
  -- a whole; without a hit there is no such run.
  pub find_partial_lem :
      (fuel frag : ℕ)
      → limit ≤ frag + fuel
      → frag < limit + fpb
      → PartialResult buf fpb need limit frag (find_partial fuel buf fpb need limit frag)
  unfolding find_partial
  find_partial_lem zero frag enough near =
      rw (le→ltb frag limit (omega arith)) (none_above frag (omega arith))
  find_partial_lem (suc fuel) frag enough near = elim (Bool-cases (ltb frag limit)) [
    | inr e ↦ rw e (none_above frag (ltb→le frag limit e))
    | inl e ↦
        let lt : frag < limit = ltb→lt frag limit e in
        let next : add32 frag fpb ≡ frag + fpb = omega arith in
        rw (e, next)
          (first_hit_lem frag (start_in_block buf fpb need limit frag)
            (find_partial fuel buf fpb need limit (frag + fpb)) refl lt
            (find_partial_lem fuel (frag + fpb) (omega arith) (omega arith)))
  ]

module _ (buf : Bytes) (fpb limit : ℕ) where
  -- A whole free block of the group.
  pub record IsWholeBlock (frag : ℕ) : Type 0 where
    pub below : frag + fpb ≤ limit
    pub is_free : set_run_bits buf free_off frag fpb ≡ true

  abbrev pub BlockResult : ℕ → Found ℕ → Type 0
  BlockResult frag (hit f) = (k : ℕ) × (f ≡ frag + k * fpb) × IsWholeBlock f
  BlockResult frag exhausted = (k : ℕ) → ¬ IsWholeBlock (frag + k * fpb)
  BlockResult frag no_fuel = ⊥

module _ (buf : Bytes) (fpb limit : ℕ) (pos : 0 < fpb) (small : limit + fpb + fpb < 2 ^ 32) where
  block_later :
      (frag : ℕ)
      → ¬ IsWholeBlock buf fpb limit frag
      → ((k : ℕ) → ¬ IsWholeBlock buf fpb limit (frag + fpb + k * fpb))
      → (k : ℕ) → ¬ IsWholeBlock buf fpb limit (frag + k * fpb)
  block_later frag here rest zero run =
      let e : frag + 0 * fpb ≡ frag = omega arith in here (rw e at run)
  block_later frag here rest (suc k) run =
      let e : frag + suc k * fpb ≡ frag + fpb + k * fpb = omega arith in rest k (rw e at run)

  block_step :
      (frag : ℕ) (r : Found ℕ)
      → ¬ IsWholeBlock buf fpb limit frag
      → BlockResult buf fpb limit (frag + fpb) r
      → BlockResult buf fpb limit frag r
  block_step frag (hit f) here (k, e, run) = (suc k, omega arith, run)
  block_step frag exhausted here rest = block_later frag here rest
  block_step frag no_fuel here rest = rest

  block_test :
      (frag : ℕ) (r : Found ℕ) (b : Bool)
      → set_run_bits buf free_off frag fpb ≡ b
      → frag + fpb ≤ limit
      → BlockResult buf fpb limit (frag + fpb) r
      → BlockResult buf fpb limit frag (if b then hit frag else r)
  block_test frag r true e le later = (0, omega arith, record { below = le; is_free = e })
  block_test frag r false e le later = block_step frag r (λ run. cc (run.is_free)) later

  -- In a group far from the end of the 32-bit range the second search from the block at `frag` ends
  -- where its fuel goes beyond the end of the group. A hit is a block from `frag` on that is free as a
  -- whole and below that end; without a hit there is none.
  pub find_block_lem :
      (fuel frag : ℕ)
      → limit < frag + fuel
      → frag ≤ limit + fpb
      → BlockResult buf fpb limit frag (find_block fuel buf fpb limit frag)
  unfolding find_block
  find_block_lem zero frag enough near =
      let next : add32 frag fpb ≡ frag + fpb = omega arith in
      rw (next, lt→leb limit (frag + fpb) (omega arith)) (λ k run. omega (arith, run.below))
  find_block_lem (suc fuel) frag enough near =
      let next : add32 frag fpb ≡ frag + fpb = omega arith in
      elim (Bool-cases (leb (frag + fpb) limit)) [
        | inr e ↦ rw (next, e) (λ k run. omega (arith, run.below, leb→lt (frag + fpb) limit e))
        | inl e ↦
            let le : frag + fpb ≤ limit = leb→le (frag + fpb) limit e in
            rw (next, e)
              (block_test frag (find_block fuel buf fpb limit (frag + fpb))
                (set_run_bits buf free_off frag fpb) refl le
                (find_block_lem fuel (frag + fpb) (omega arith) (omega arith)))
      ]
