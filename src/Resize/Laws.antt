-- ===== src/Resize/Laws.antt =====
-- The fragments that `add_free_frag_range` makes free.
use nextufs_offline.Base.{
  ℕ, zero, suc, ◌+◌, ◌-◌, ◌*◌, ◌/◌, ◌%◌, ◌^◌, ◌≤◌, ◌<◌, ◌≡◌, ◌≢◌, refl, sym, ◌∙◌, arith, inl, inr,
  Bool, true, false, ◌||◌, min, Option, none, some, none_ne_some, some_injective, Bool-cases, u32,
  add32, sub32, ltb, ltb→lt, ltb→le, ◌==◌, if◌then◌else◌,
}
use mathlib.Core.Path.{subst}
use native.Mathlib.Nat.{mod-lt}
use nextufs_offline.Memory.{Bytes}
use nextufs_offline.Superblock.{Superblock}
use nextufs_offline.Bitmap.{test_bit, set_run_bits, count_free_runs_in_block}
use nextufs_offline.Bitmap.Laws.{in_run}
use nextufs_offline.Io.{Result, ok, hang}
use nextufs_offline.Cg.{free_off, adjust_rotation}
use nextufs_offline.Cg.Frames.{
  test_bit_cong, apply_cg_frsum_delta_elsewhere, adjust_rotation_elsewhere,
}
use nextufs_offline.Alloc.Runs.Laws.{release_bits-some}
use nextufs_offline.Resize.Whole.{WholeBlocks, count_free_bits-set_run_bits, set_run_bits_cong}
use nextufs_offline.Resize.{
  add_limit, recount_runs, count_free_bits, recount, add_to_block, or_einval, add_from,
  add_free_frag_range,
}

-- The range was in use, and then its bits alone are set.
pub record IsRangeAdded (buf b : Bytes) (start end : ℕ) : Type 0 where
  pub was_used : (i : ℕ) → start ≤ i → i < end → test_bit buf free_off i ≡ false
  pub set :
      (j : ℕ) → test_bit b free_off j ≡ (in_run start (end - start) j || test_bit buf free_off j)

-- The change of the counts: so many blocks are whole, and what is left of the range are fragments.
pub record IsCounted (fpb added wholes nbfree nffree : ℕ) : Type 0 where
  pub blocks : nbfree ≡ u32 wholes
  pub frags : nffree ≡ u32 (added + wholes * (2 ^ 32 - fpb))

from_nothing :
    (fpb added wholes nbfree nffree : ℕ)
    → IsCounted fpb (0 + added) (0 + wholes) nbfree nffree
    → IsCounted fpb added wholes nbfree nffree
from_nothing fpb added wholes nbfree nffree h =
    let a : 0 + added ≡ added = omega arith in
    let w : 0 + wholes ≡ wholes = omega arith in
    subst (λ (p : ℕ × ℕ). IsCounted fpb p.0 p.1 nbfree nffree) (λ i. (a i, w i)) h

one_more : (n m : ℕ) → (n + 1) * m ≡ n * m + m
one_more n m = omega arith

whole_wraps :
    (nf k c x fpb : ℕ)
    → fpb ≤ 8
    → nf ≡ u32 (k + x)
    → sub32 (add32 nf c) fpb ≡ u32 (k + c + (x + (2 ^ 32 - fpb)))
whole_wraps nf k c x fpb small e = omega arith

more_wraps : (nf k c x : ℕ) → nf ≡ u32 (k + x) → add32 nf c ≡ u32 (k + c + x)
more_wraps nf k c x e = omega arith

module _ (sb : Superblock) (small : sb.frags_per_block ≤ 8) (pos : 0 < sb.frags_per_block) where
  test_bit-recount :
      (buf set : Bytes) (base j : ℕ)
      → test_bit (recount_runs sb buf set base) free_off j ≡ test_bit set free_off j
  test_bit-recount buf set base j = test_bit_cong (recount_runs sb buf set base) set free_off j (
      apply_cg_frsum_delta_elsewhere set
        (count_free_runs_in_block buf free_off base sb.frags_per_block)
        (count_free_runs_in_block set free_off base sb.frags_per_block) sb.frags_per_block
        (free_off + j / 8) small (inr (omega arith)))

  test_bit-adjust :
      (whole : Bool) (m : Bytes) (base j : ℕ)
      → test_bit (if whole then adjust_rotation sb base 1 m else m) free_off j
        ≡ test_bit m free_off j
  test_bit-adjust true m base j =
      test_bit_cong (adjust_rotation sb base 1 m) m free_off j
        (adjust_rotation_elsewhere sb base 1 m (free_off + j / 8) (inr (omega arith)))
  test_bit-adjust false m base j = refl

  recount_bits :
      (buf : Bytes) (base : ℕ) (o : Option Bytes) (b : Bytes) (whole : Bool)
      → recount sb buf base o ≡ some (b, whole)
      → (set : Bytes) × (o ≡ some set)
        × ((j : ℕ) → test_bit b free_off j ≡ test_bit set free_off j)
        × (whole ≡ set_run_bits b free_off base sb.frags_per_block)
  unfolding recount
  recount_bits buf base none b whole h = absurd (none_ne_some h)
  recount_bits buf base (some set) b whole h =
      let same : ◌≡◌ {A = Bytes × Bool} _ (b, whole) = some_injective h in
      let summed = recount_runs sb buf set base in
      let is_whole = count_free_bits summed base sb.frags_per_block == sb.frags_per_block in
      (
        set,
        refl,
        λ j.
            sym (λ i. test_bit ((same i).0) free_off j)
            ∙ test_bit-adjust is_whole summed base j
            ∙ test_bit-recount buf set base j,
        sym (λ i. (same i).1)
            ∙ count_free_bits-set_run_bits summed base sb.frags_per_block
            ∙ set_run_bits_cong summed b free_off base sb.frags_per_block (λ j lo hi.
              sym (test_bit-adjust is_whole summed base j)
              ∙ (λ i. test_bit ((same i).0) free_off j)),
      )

  add_to_block-IsRangeAdded :
      (buf : Bytes) (start add_end : ℕ) (b : Bytes) (whole : Bool)
      → start ≤ add_end
      → add_to_block sb buf start add_end ≡ some (b, whole)
      → IsRangeAdded buf b start add_end
        × (whole ≡ set_run_bits b free_off (start - start % sb.frags_per_block) sb.frags_per_block)
  unfolding add_to_block
  add_to_block-IsRangeAdded buf start add_end b whole ordered h =
      let (set, released, same, is_whole) =
        recount_bits buf (start - start % sb.frags_per_block) _ b whole h in
      let (was, now) = release_bits-some buf start (add_end - start) set released in
      (record { was_used = λ i lo hi. was i lo (omega arith); set = λ j. same j ∙ now j }, is_whole)

  -- Two ranges, one behind the other.
  join_ranges :
      (buf mid b : Bytes) (start between end : ℕ)
      → start ≤ between
      → between ≤ end
      → IsRangeAdded buf mid start between
      → IsRangeAdded mid b between end
      → IsRangeAdded buf b start end
  join_ranges buf mid b start between end lo hi first second = record {
    was_used = λ i from below. elim (Bool-cases (ltb i between)) [
      | inl e ↦ first.was_used i from (ltb→lt i between e)
      | inr e ↦ ground (arith, first.set i, second.was_used i (ltb→le i between e) below)
    ];
    set = λ j. ground (arith, second.set j, first.set j);
  }

  or_einval_ok :
      {A : Type 0} (o : Option (Bytes × Bool)) (next : Bytes → Bool → Result A) {a : A}
      → or_einval o next ≡ ok a
      → (b : Bytes) × (whole : Bool) × (o ≡ some (b, whole)) × (next b whole ≡ ok a)
  unfolding or_einval
  or_einval_ok none next h = cc h
  or_einval_ok (some (b, whole)) next h = (b, whole, refl, h)

  count_round :
      (whole : Bool) (k c v nbfree nffree : ℕ)
      → IsCounted sb.frags_per_block k v nbfree nffree
      → IsCounted sb.frags_per_block
          (k + c)
          (if whole then v + 1 else v)
          (if whole then add32 nbfree 1 else nbfree)
          (if whole then sub32 (add32 nffree c) sb.frags_per_block else add32 nffree c)
  count_round true k c v nbfree nffree counted =
      let m = 2 ^ 32 - sb.frags_per_block in
      let x = v * m in
      record {
        blocks = let e : nbfree ≡ u32 v = counted.blocks in omega arith;
        frags = rw (one_more v m) (whole_wraps nffree k c x sb.frags_per_block small counted.frags);
      }
  count_round false k c v nbfree nffree counted = record {
    blocks = counted.blocks;
    frags = more_wraps nffree k c (v * (2 ^ 32 - sb.frags_per_block)) counted.frags;
  }

  -- What the loop answers, from a start with `k` fragments added and `v` whole blocks before.
  abbrev IsAdded : Bytes → ℕ → ℕ → ℕ → ℕ → Bytes × (ℕ × ℕ) → Type 0
  IsAdded buf start end k v p =
      IsRangeAdded buf p.0 start end
      × ((n : ℕ) × WholeBlocks sb.frags_per_block p.0 end start n
          × IsCounted sb.frags_per_block (k + (end - start)) (v + n) (p.1).0 (p.1).1)

  -- One block more, whole or not.
  next_block :
      (whole : Bool) (b : Bytes) (start end n v : ℕ)
      → start < end
      → whole ≡ set_run_bits b free_off (start - start % sb.frags_per_block) sb.frags_per_block
      → WholeBlocks sb.frags_per_block b end
          (min end (start - start % sb.frags_per_block + sb.frags_per_block))
          n
      → (m : ℕ) × WholeBlocks sb.frags_per_block b end start m
        × ((if whole then v + 1 else v) + n ≡ v + m)
  next_block true b start end n v lt e rest =
      (n + 1, WholeBlocks.whole start n lt (sym e) rest, omega arith)
  next_block false b start end n v lt e rest =
      (n, WholeBlocks.in_part start n lt (sym e) rest, refl)

  -- The later rounds leave the block of this one alone.
  kept_block :
      (mid b : Bytes) (start end : ℕ)
      → start < end
      → IsRangeAdded mid b (min end (start - start % sb.frags_per_block + sb.frags_per_block)) end
      → set_run_bits mid free_off (start - start % sb.frags_per_block) sb.frags_per_block
        ≡ set_run_bits b free_off (start - start % sb.frags_per_block) sb.frags_per_block
  kept_block mid b start end lt rest =
      set_run_bits_cong mid b free_off (start - start % sb.frags_per_block) sb.frags_per_block
        (λ j lo hi. ground (arith, rest.set j))

  add_limit_bounds :
      (start end : ℕ)
      → start < end
      → end < 2 ^ 32 - 8
      → (start < add_limit sb start end)
        × (add_limit sb start end ≤ end)
        × (add_limit sb start end
            ≡ min end (start - start % sb.frags_per_block + sb.frags_per_block))
  add_limit_bounds start end lt fits =
      let m : start % sb.frags_per_block < sb.frags_per_block = mod-lt start pos in
      (ground arith, ground arith, ground arith)

  nothing-IsAdded :
      (buf : Bytes) (start end k v nbfree nffree : ℕ) (p : Bytes × (ℕ × ℕ))
      → start ≤ end
      → ltb start end ≡ false
      → IsCounted sb.frags_per_block k v nbfree nffree
      → ok (buf, (nbfree, nffree)) ≡ ok p
      → IsAdded buf start end k v p
  nothing-IsAdded buf start end k v nbfree nffree p ordered over counted h =
      let same : ◌≡◌ {A = Bytes × (ℕ × ℕ)} (buf, (nbfree, nffree)) p = cc h in
      let no_more : k + (end - start) ≡ k = ground arith in
      let none_whole : v ≡ v + 0 = omega arith in
      subst (λ q. IsAdded buf start end k v q) same
        (
          record { was_used = λ i lo hi. absurd (ground arith); set = λ j. ground arith },
          (
            0,
            WholeBlocks.none_left start (ground arith),
            subst (λ (m : ℕ). IsCounted sb.frags_per_block m (v + 0) nbfree nffree) (sym no_more)
                (subst (λ (m : ℕ). IsCounted sb.frags_per_block k m nbfree nffree) none_whole
                  counted),
          ),
        )

  add_from_ok :
      (rounds : ℕ) (buf : Bytes) (start end k v nbfree nffree : ℕ) (p : Bytes × (ℕ × ℕ))
      → start ≤ end
      → end < 2 ^ 32 - 8
      → IsCounted sb.frags_per_block k v nbfree nffree
      → add_from rounds sb buf start end nbfree nffree ≡ ok p
      → IsAdded buf start end k v p
  unfolding add_from
  add_from_ok zero buf start end k v nbfree nffree p ordered fits counted h =
      elim (Bool-cases (ltb start end)) [
        | inl e ↦ absurd (cc (rw e at h))
        | inr e ↦ nothing-IsAdded buf start end k v nbfree nffree p ordered e counted (rw e at h)
      ]
  add_from_ok (suc rounds) buf start end k v nbfree nffree p ordered fits counted h =
      elim (Bool-cases (ltb start end)) [
        | inr e ↦ nothing-IsAdded buf start end k v nbfree nffree p ordered e counted (rw e at h)
        | inl e ↦
            let to = add_limit sb start end in
            let lt = ltb→lt start end e in
            let (lo, hi, at_min) = add_limit_bounds start end lt fits in
            let (mid, is_whole, first, h₁) =
              or_einval_ok (add_to_block sb buf start to) _ (rw e at h) in
            let (added, mid_whole) =
              add_to_block-IsRangeAdded buf start to mid is_whole (omega arith) first in
            let (rest, (n, blocks, total)) =
              add_from_ok rounds mid to end (k + (to - start)) (if is_whole then v + 1 else v) _ _ p
                hi fits (count_round is_whole k (to - start) v nbfree nffree counted) h₁ in
            let (m, all, more) =
              next_block is_whole p.0 start end n v lt
                (mid_whole
                  ∙ kept_block mid p.0 start end lt
                      (subst (λ x. IsRangeAdded mid p.0 x end) at_min rest))
                (subst (λ x. WholeBlocks sb.frags_per_block p.0 end x n) at_min blocks) in
            let sum : k + (to - start) + (end - to) ≡ k + (end - start) = omega arith in
            (
              join_ranges buf mid p.0 start to end (omega arith) hi added rest,
              (
                m,
                all,
                subst (λ x. IsCounted sb.frags_per_block x (v + m) (p.1).0 (p.1).1) sum
                    (subst
                      (λ x.
                        IsCounted sb.frags_per_block (k + (to - start) + (end - to)) x (p.1).0
                          (p.1).1)
                      more total),
              ),
            )
      ]

module _ (sb : Superblock) (small : sb.frags_per_block ≤ 8) (pos : 0 < sb.frags_per_block) where
  or_einval-returns :
      {A : Type 0} (o : Option (Bytes × Bool)) (next : Bytes → Bool → Result A)
      → ((b : Bytes) (whole : Bool) → next b whole ≢ hang)
      → or_einval o next ≢ hang
  unfolding or_einval
  or_einval-returns none next h = λ stuck. cc stuck
  or_einval-returns (some (b, whole)) next h = h b whole

  add_from-returns :
      (rounds : ℕ) (buf : Bytes) (start end nbfree nffree : ℕ)
      → end < 2 ^ 32 - 8
      → end ≤ start + rounds
      → add_from rounds sb buf start end nbfree nffree ≢ hang
  unfolding add_from
  add_from-returns zero buf start end nbfree nffree fits enough =
      let over : ltb start end ≡ false = ground arith in λ stuck. cc (rw over at stuck)
  add_from-returns (suc rounds) buf start end nbfree nffree fits enough =
      elim (Bool-cases (ltb start end)) [
        | inr e ↦ λ stuck. cc (rw e at stuck)
        | inl e ↦ λ stuck.
            let (lo, hi, at_min) =
              add_limit_bounds sb small pos start end (ltb→lt start end e) fits in
            or_einval-returns (add_to_block sb buf start (add_limit sb start end)) _
              (λ b whole.
                add_from-returns rounds b (add_limit sb start end) end _ _ fits (omega arith))
              (rw e at stuck)
      ]

-- The rounds of add_free_frag_range are enough, for groups of less than 2^31 fragments.
pub add_free_frag_range-returns :
    (sb : Superblock) (buf : Bytes) (start end : ℕ)
    → sb.frags_per_group < 2 ^ 31
    → add_free_frag_range sb buf start end ≢ hang
unfolding add_free_frag_range
add_free_frag_range-returns sb buf start end fits =
    elim (Bool-cases (ltb end start || ltb sb.frags_per_group end)) [
      | inl e ↦ λ stuck. cc (rw e at stuck)
      | inr e ↦ elim (Bool-cases (sb.frags_per_block == 0 || ltb 8 sb.frags_per_block)) [
        | inl e₁ ↦ λ stuck. cc (rw (e, e₁) at stuck)
        | inr e₁ ↦ λ stuck.
            add_from-returns sb (ground arith) (ground arith) (end - start) buf start end 0 0
              (ground arith) (ground arith) (rw (e, e₁) at stuck)
      ]
    ]

-- A call of add_free_frag_range that succeeds, for groups of less than 2^31 fragments, was asked for a
-- range of the group whose fragments were all in use; it sets the bits of the range and no other. The
-- changes that it reports are the number of blocks of the range that have all their bits set in the
-- new map, and the fragments of the range less those of these blocks.
pub add_free_frag_range_ok :
    (sb : Superblock) (buf b : Bytes) (start end nbfree nffree : ℕ)
    → sb.frags_per_group < 2 ^ 31
    → add_free_frag_range sb buf start end ≡ ok (b, (nbfree, nffree))
    → (start ≤ end)
      × (end ≤ sb.frags_per_group)
      × IsRangeAdded buf b start end
      × ((wholes : ℕ) × WholeBlocks sb.frags_per_block b end start wholes
          × IsCounted sb.frags_per_block (end - start) wholes nbfree nffree)
unfolding add_free_frag_range
add_free_frag_range_ok sb buf b start end nbfree nffree fits h =
    elim (Bool-cases (ltb end start || ltb sb.frags_per_group end)) [
      | inl e ↦ absurd (cc (rw e at h))
      | inr e ↦ elim (Bool-cases (sb.frags_per_block == 0 || ltb 8 sb.frags_per_block)) [
        | inl e₁ ↦ absurd (cc (rw (e, e₁) at h))
        | inr e₁ ↦
            let ordered : start ≤ end = ground arith in
            let inside : end ≤ sb.frags_per_group = ground arith in
            let none_yet : IsCounted sb.frags_per_block 0 0 0 0 = record {
              blocks = refl;
              frags = omega arith;
            } in
            let (added, (wholes, blocks, counted)) =
              add_from_ok sb (ground arith) (ground arith) (end - start) buf start end 0 0 0 0
                (b, (nbfree, nffree)) ordered (omega arith) none_yet (rw (e, e₁) at h) in
            (
              ordered,
              inside,
              added,
              (
                wholes,
                blocks,
                from_nothing sb.frags_per_block (end - start) wholes nbfree nffree counted,
              ),
            )
      ]
    ]
