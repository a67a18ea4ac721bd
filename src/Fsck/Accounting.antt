-- ===== src/Fsck/Accounting.antt =====
-- The table of run lengths that the checker rebuilds, against the one the allocator keeps.
use nextufs_offline.Base.{
  ℕ, zero, suc, ◌+◌, ◌-◌, ◌^◌, ◌<◌, ◌≡◌, refl, ◌∙◌, sym, ap, arith, Bool, true, ◌⊎◌, inl, inr, ◌==◌,
  ltb, if◌then◌else◌, holds_upto, holds_upto-at, ==→eq, Bool-cases,
}
use nextufs_offline.Memory.{Bytes, upd, zeroed}
use nextufs_offline.Bitmap.{
  test_bit, run_length, count_run, count_runs_from, count_free_runs_in_block,
}
use nextufs_offline.Fsck.{fragtbl, acct_positions, acct_sizes, fragacct}

-- The counts depend on the bits of the block alone.
module _ (m m' : Bytes) (off off' base base' : ℕ) where
  run_length_cong :
      (left i : ℕ)
      → ((k : ℕ) → k < i + left → test_bit m off (base + k) ≡ test_bit m' off' (base' + k))
      → run_length m off (base + i) left ≡ run_length m' off' (base' + i) left
  unfolding run_length
  run_length_cong zero i agree = refl
  run_length_cong (suc left) i agree =
      let p : base + i + 1 ≡ base + (i + 1) = omega arith in
      let p' : base' + i + 1 ≡ base' + (i + 1) = omega arith in
      rw (agree i (omega arith), p, p', run_length_cong left (i + 1) (λ k h. agree k (omega arith)))
        refl

  count_runs_cong :
      (fuel n i : ℕ) (counts : Bytes)
      → ((k : ℕ) → k < n → test_bit m off (base + k) ≡ test_bit m' off' (base' + k))
      → count_runs_from fuel m off base n i counts ≡ count_runs_from fuel m' off' base' n i counts
  unfolding count_runs_from
  count_runs_cong zero n i counts agree = refl
  count_runs_cong (suc fuel) n i counts agree = elim (Bool-cases (ltb i n)) [
    | inr e ↦ rw e refl
    | inl e ↦
        rw
          (
            e,
            run_length_cong (n - i) i (λ k h. agree k (ground arith)),
            count_runs_cong fuel n
                (i
                  + (if ltb 0 (run_length m' off' (base' + i) (n - i))
                      then run_length m' off' (base' + i) (n - i)
                      else 1))
                (count_run (run_length m' off' (base' + i) (n - i)) n counts) agree,
          )
          refl
  ]

-- A block whose map is the number `v`.
abbrev pub byte_map : ℕ → Bytes
byte_map v j = v

entry_agrees : ℕ → ℕ → ℕ → Bool
entry_agrees frag v siz =
    fragacct frag v zeroed 1 siz == count_free_runs_in_block (byte_map v) 0 0 frag siz

entries_agree : ℕ → Bool
entries_agree frag = holds_upto (λ v. holds_upto (entry_agrees frag v) 9) (2 ^ frag)

tables_agree :
    (entries_agree 1 ≡ true)
    × (entries_agree 2 ≡ true)
    × (entries_agree 4 ≡ true)
    × (entries_agree 8 ≡ true)
unfolding entries_agree entry_agrees holds_upto fragacct acct_sizes acct_positions fragtbl upd
    count_free_runs_in_block count_runs_from count_run run_length test_bit
tables_agree = (refl, refl, refl, refl)

entries_at :
    (frag v siz : ℕ)
    → entries_agree frag ≡ true
    → v < 2 ^ frag
    → siz < 9
    → fragacct frag v zeroed 1 siz ≡ count_free_runs_in_block (byte_map v) 0 0 frag siz
unfolding entries_agree entry_agrees
entries_at frag v siz table small lt = ==→eq _ _ (
    holds_upto-at (entry_agrees frag v) 9 siz lt
      (holds_upto-at (λ v. holds_upto (entry_agrees frag v) 9) (2 ^ frag) v small table))

-- For blocks of 1, 2, 4 or 8 fragments: where the number `v` holds the bits of a block, `fragacct`
-- counts from `v`, by its tables and masks, the same runs of each length as the allocator's loop
-- over the block does.
pub fragacct-count_free_runs_in_block :
    (m : Bytes) (off base frag v siz : ℕ)
    → (frag ≡ 1) ⊎ ((frag ≡ 2) ⊎ ((frag ≡ 4) ⊎ (frag ≡ 8)))
    → v < 2 ^ frag
    → siz < 9
    → ((k : ℕ) → k < frag → test_bit m off (base + k) ≡ test_bit (byte_map v) 0 k)
    → fragacct frag v zeroed 1 siz ≡ count_free_runs_in_block m off base frag siz
unfolding count_free_runs_in_block
fragacct-count_free_runs_in_block m off base frag v siz size small lt agree =
    entries_at frag v siz (table size) small lt
    ∙ ap (λ c. c siz)
        (sym (
          count_runs_cong m (byte_map v) off 0 base 0 frag frag 0 zeroed
            (λ k h. let z : 0 + k ≡ k = omega arith in rw z (agree k h))))
  where
    table : (frag ≡ 1) ⊎ ((frag ≡ 2) ⊎ ((frag ≡ 4) ⊎ (frag ≡ 8))) → entries_agree frag ≡ true
    table (inl e) = rw e (tables_agree.0)
    table (inr (inl e)) = rw e (tables_agree.1)
    table (inr (inr (inl e))) = rw e (tables_agree.2)
    table (inr (inr (inr e))) = rw e (tables_agree.3)
