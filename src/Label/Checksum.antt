-- ===== src/Label/Checksum.antt =====
-- The checksum of a label is the sum of its words, with the carries added in again.
use nextufs_offline.Base.{
  ℕ, zero, suc, ◌+◌, ◌-◌, ◌*◌, ◌%◌, ◌≤◌, ◌<◌, ◌≡◌, refl, ◌∙◌, ap, arith, true, u16, ltb, lt→ltb,
  Bool-cases, inl, inr, ◌==◌, if◌then◌else◌,
}
use nextufs_offline.Memory.{Bytes, read_be16}
use nextufs_offline.Label.{add_word, checksum_from, checksum_be16}

-- The sum of the `n` big-endian words from offset `i` on.
abbrev pub words_sum : Bytes → ℕ → ℕ → ℕ
words_sum m i zero = 0
words_sum m i (suc n) = read_be16 m i + words_sum m (i + 2) n

-- The remainder by 65535, where a number that is a positive multiple of it gives 65535.
abbrev pub end_around : ℕ → ℕ
end_around s = if s == 0 then 0 else suc ((s - 1) % 65535)

add_word_lem : (s word : ℕ) → word ≤ 65535 → add_word (end_around s) word ≡ end_around (s + word)
unfolding add_word
add_word_lem s word le = ground arith

checksum_from_lem :
    (fuel : ℕ) (m : Bytes) (size i n s : ℕ)
    → size ≡ i + 2 * n
    → n ≤ fuel
    → ((j : ℕ) → j < size → m j < 256)
    → checksum_from fuel m size i (end_around s) ≡ end_around (s + words_sum m i n)
unfolding checksum_from read_be16
checksum_from_lem zero m size i zero s e le bytes = ap end_around (omega arith)
checksum_from_lem zero m size i (suc n) s e le bytes = absurd (omega arith)
checksum_from_lem (suc fuel) m size i zero s e le bytes = ground arith
checksum_from_lem (suc fuel) m size i (suc n) s e le bytes =
    let word : read_be16 m i ≤ 65535 =
      omega (arith, bytes i (omega arith), bytes (i + 1) (omega arith)) in
    let more : ltb (i + 1) size ≡ true = lt→ltb (i + 1) size (omega arith) in
    rw (more, add_word_lem s (read_be16 m i) word)
      (checksum_from_lem fuel m size (i + 2) n (s + read_be16 m i) (omega arith) (omega arith) bytes
        ∙ ap end_around (omega arith))

-- For an even number of bytes.
pub checksum_be16_lem :
    (m : Bytes) (n : ℕ)
    → ((j : ℕ) → j < 2 * n → m j < 256)
    → checksum_be16 m (2 * n) ≡ end_around (words_sum m 0 n)
unfolding checksum_be16
checksum_be16_lem m n bytes =
    let e = checksum_from_lem (2 * n) m (2 * n) 0 n 0 (omega arith) (omega arith) bytes in
    ap (λ (x : ℕ). u16 x) e ∙ ground arith

checksum_from_cong :
    (fuel : ℕ) (m m' : Bytes) (size i sum : ℕ)
    → ((j : ℕ) → j < size → m j ≡ m' j)
    → checksum_from fuel m size i sum ≡ checksum_from fuel m' size i sum
unfolding checksum_from read_be16
checksum_from_cong zero m m' size i sum h = refl
checksum_from_cong (suc fuel) m m' size i sum h = elim (Bool-cases (ltb (i + 1) size)) [
  | inl more ↦
      let word : read_be16 m i ≡ read_be16 m' i =
        omega (arith, h i (ground arith), h (i + 1) (ground arith)) in
      rw (more, word) (checksum_from_cong fuel m m' size (i + 2) (add_word sum (read_be16 m' i)) h)
  | inr last ↦ rw last refl
]

-- Bytes behind `size` do not count.
pub checksum_be16_cong :
    (m m' : Bytes) (size : ℕ)
    → ((j : ℕ) → j < size → m j ≡ m' j)
    → checksum_be16 m size ≡ checksum_be16 m' size
unfolding checksum_be16
checksum_be16_cong m m' size h = ap (λ (x : ℕ). u16 x) (checksum_from_cong size m m' size 0 0 h)
