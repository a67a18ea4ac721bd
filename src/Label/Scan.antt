-- ===== src/Label/Scan.antt =====
-- What the check of all copies of a label has seen when it succeeds.
use nextufs_offline.Base.{
  ℕ, zero, suc, ◌+◌, ◌*◌, ◌≤◌, ◌<◌, ◌≡◌, ◌≢◌, refl, ◌∙◌, sym, ap, arith, Bool, true, false, not,
  ◌==◌, leb, if◌then◌else◌, inl, inr, Bool-cases, ==→eq,
}
use nextufs_offline.Memory.{Bytes}
use nextufs_offline.Io.{Result, ok, Errno, M, require, einval, enotsup}
use nextufs_offline.Io.Laws.{bind_ok, require_ok, pure_ok, hang_ne_ok, err_ne_ok}
use nextufs_offline.Fd.{Fd, read_exact_fd}
use nextufs_offline.Fd.Laws.{IsFile, read_exact_fd_ok}
use nextufs_offline.Label.{validate_size, scan_limit, sector_size, part_count, fs_type, strcmp_zero}
use nextufs_offline.Label.Patch.{
  label_partition_present, count_present, is_label_at, root_ok, root_off, root_base, check_label,
  validate_one_label_copy, scan_from, scan_rounds, label_validate_single_slice,
}

-- A label with one partition, of the type of the file system, that begins at `slice_base`.
pub record IsSingleSlice (m : Bytes) (slice_base : ℕ) : Type 0 where
  pub root : root_ok m ≡ true
  pub present : label_partition_present m (root_off m) ≡ true
  pub alone : count_present part_count m 0 ≡ 1
  pub typed : strcmp_zero m (root_off m + 0x23) fs_type ≡ true
  pub based : root_base m ≡ slice_base

-- The bytes at `off` of a file are no label, or one with a single slice.
pub record IsChecked (held : Bytes) (slice_base off : ℕ) (found : Bool) : Type 0 where
  pub label : Bytes
  pub bytes : (j : ℕ) → j < validate_size → label j ≡ held (off + j)
  pub found_lem : found ≡ is_label_at label off
  pub single : found ≡ true → IsSingleSlice label slice_base

require_holds :
    {S : Type 0} (b : Bool) (e : Errno) (s : S) {u : Unit {0}} {s' : S}
    → require b e s ≡ (ok u, s')
    → b ≡ true
require_holds true e s h = refl
require_holds false e s h = absurd (err_ne_ok e s h)

check_label_ok :
    {W : Type 0} (m : Bytes) (off slice_base : ℕ) (w w' : W) {found : Bool}
    → check_label m off slice_base w ≡ (ok found, w')
    → (found ≡ is_label_at m off) × (found ≡ true → IsSingleSlice m slice_base) × (w ≡ w')
unfolding check_label
check_label_ok m off slice_base w w' h = elim (Bool-cases (is_label_at m off)) [
  | inr e ↦
      let (f, ew) = pure_ok false w (rw e at h) in
      (f ∙ sym e, λ t. let no : false ≡ true = sym f ∙ t in cc, ew)
  | inl e ↦
      let (root, h₁) = require_ok (root_ok m) einval _ w (rw e at h) in
      let (present, h₂) = require_ok (label_partition_present m (root_off m)) einval _ w h₁ in
      let (alone, h₃) = require_ok (count_present part_count m 0 == 1) enotsup _ w h₂ in
      let (typed, h₄) = require_ok (strcmp_zero m (root_off m + 0x23) fs_type) enotsup _ w h₃ in
      let (based, h₅) = require_ok (root_base m == slice_base) einval _ w h₄ in
      let (f, ew) = pure_ok true w h₅ in
      (
        f ∙ sym e,
        λ t. record {
          root = root;
          present = present;
          alone = ==→eq _ _ alone;
          typed = typed;
          based = ==→eq _ _ based;
        },
        ew,
      )
]

module _ {W : Type 0} (contents : W → Bytes) (each : ℕ → M W Bool) (held : Bytes) (slice_base : ℕ)
    (step : (o : ℕ) (w w' : W) (found : Bool)
      → o + validate_size ≤ scan_limit
      → ((j : ℕ) → contents w j ≡ held j)
      → each o w ≡ (ok found, w')
      → IsChecked held slice_base o found × ((j : ℕ) → contents w' j ≡ held j)) where
  -- Every place from `off` on is checked, and one of them is a label unless none is counted.
  abbrev HasScanned : ℕ → ℕ → ℕ → Type 0
  HasScanned off count n =
      ((k : ℕ)
        → off + k * sector_size + validate_size ≤ scan_limit
        → (found : Bool) × IsChecked held slice_base (off + k * sector_size) found)
      × (n ≢ count → (o : ℕ) × IsChecked held slice_base o true)

  from_here :
      (off : ℕ) (found : Bool)
      → IsChecked held slice_base off found
      → ((k : ℕ)
          → off + sector_size + k * sector_size + validate_size ≤ scan_limit
          → (b : Bool) × IsChecked held slice_base (off + sector_size + k * sector_size) b)
      → (k : ℕ) → off + k * sector_size + validate_size ≤ scan_limit
      → (b : Bool) × IsChecked held slice_base (off + k * sector_size) b
  from_here off found checked all zero le =
      let here : off + 0 * sector_size ≡ off = omega arith in (found, rw here checked)
  from_here off found checked all (suc k) le =
      let there : off + suc k * sector_size ≡ off + sector_size + k * sector_size = omega arith in
      rw there (all k (omega arith))

  nothing_left :
      (off count n : ℕ) (w w' : W)
      → leb (off + validate_size) scan_limit ≡ false
      → ◌≡◌ {A = Result ℕ × W} (ok count, w) (ok n, w')
      → HasScanned off count n
  nothing_left off count n w w' e h =
      (λ k le. absurd (ground arith), λ ne. absurd (ne (pure_ok count w h).0))

  scan_from_ok :
      (fuel off count n : ℕ) (w w' : W)
      → ((j : ℕ) → contents w j ≡ held j)
      → scan_from fuel each off count w ≡ (ok n, w')
      → HasScanned off count n
  unfolding scan_from
  scan_from_ok zero off count n w w' kept h =
      elim (Bool-cases (leb (off + validate_size) scan_limit)) [
        | inr e ↦ nothing_left off count n w w' e (rw e at h)
        | inl e ↦ absurd (hang_ne_ok w (rw e at h))
      ]
  scan_from_ok (suc fuel) off count n w w' kept h =
      elim (Bool-cases (leb (off + validate_size) scan_limit)) [
        | inr e ↦ nothing_left off count n w w' e (rw e at h)
        | inl e ↦
            let (found, w₁, e₁, h₁) = bind_ok (each off) _ w (rw e at h) in
            let (checked, kept₁) = step off w w₁ found (ground arith) kept e₁ in
            let (all, some_one) =
              scan_from_ok fuel (off + sector_size) (if found then suc count else count) n w₁ w'
                kept₁ h₁ in
            (
              from_here off found checked all,
              λ ne. elim (Bool-cases found) [
                | inl t ↦ (off, rw t at checked)
                | inr f ↦ some_one (rw f ne)
              ],
            )
      ]

module _ {W : Type 0} (fd : Fd W) (contents : W → Bytes) (file : IsFile fd contents) where
  one_copy :
      (slice_base : ℕ) (held : Bytes) (o : ℕ) (w w' : W) (found : Bool)
      → o + validate_size ≤ scan_limit
      → ((j : ℕ) → contents w j ≡ held j)
      → validate_one_label_copy fd slice_base o w ≡ (ok found, w')
      → IsChecked held slice_base o found × ((j : ℕ) → contents w' j ≡ held j)
  unfolding validate_one_label_copy
  one_copy slice_base held o w w' found le kept h =
      let (m, w₁, e₁, h₁) = bind_ok (read_exact_fd fd validate_size o) _ w h in
      let (bytes, kept₁) =
        read_exact_fd_ok fd contents file validate_size o m w w₁ (omega arith) e₁ in
      let (f, single, ew) = check_label_ok m o slice_base w₁ w' h₁ in
      (
        record {
          label = m;
          bytes = λ j lt. bytes j lt ∙ kept (o + j);
          found_lem = f;
          single = single;
        },
        λ j. ap (λ (x : W). contents x j) (sym ew) ∙ kept₁ j ∙ kept j,
      )

  -- A check that succeeds has found no label but those with a single slice at `slice_base`, at any
  -- whole sector of the scanned range, and at least one of these.
  pub label_validate_single_slice_ok :
      (slice_base : ℕ) (w w' : W) {u : Unit {0}}
      → label_validate_single_slice fd slice_base w ≡ (ok u, w')
      → ((k : ℕ)
          → k * sector_size + validate_size ≤ scan_limit
          → (found : Bool) × IsChecked (contents w) slice_base (k * sector_size) found)
        × ((o : ℕ) × IsChecked (contents w) slice_base o true)
  unfolding label_validate_single_slice
  label_validate_single_slice_ok slice_base w w' h =
      let (n, w₁, e₁, h₁) =
        bind_ok (scan_from scan_rounds (validate_one_label_copy fd slice_base) 0 0) _ w h in
      let some_found = require_holds (not (n == 0)) einval w₁ h₁ in
      let (all, one) =
        scan_from_ok contents (validate_one_label_copy fd slice_base) (contents w) slice_base
          (one_copy slice_base (contents w)) scan_rounds 0 0 n w w₁ (λ j. refl) e₁ in
      (
        λ k le.
            let start : k * sector_size ≡ 0 + k * sector_size = omega arith in
            rw start (all k (omega arith)),
        one (ground arith),
      )
