-- ===== src/Fsck/Blocks.antt =====
-- The block tests of the checker against those of the allocator, on the same map.
use nextufs_offline.Base.{
  ℕ, zero, suc, ◌+◌, ◌*◌, ◌/◌, ◌%◌, ◌^◌, ◌≤◌, ◌<◌, ◌≡◌, refl, ◌∙◌, sym, ap, arith, Bool, true, not,
  ◌&&◌, ◌⊎◌, inl, inr, some, bit_and, ◌==◌, holds_upto, holds_upto-at, same, same_eq,
}
use nextufs_offline.Memory.{Bytes}
use nextufs_offline.Bitmap.{test_bit, set_run_bits}
use nextufs_offline.Fsck.{isblock}

-- The bits of one byte from `s` on, `n` of them.
byte_run : ℕ → ℕ → ℕ → Bool
byte_run v s zero = true
byte_run v s (suc n) = not (bit_and v (2 ^ s) == 0) && byte_run v (s + 1) n

set_run_bits-byte_run :
    (cp : Bytes) (q s n base : ℕ)
    → s + n ≤ 8
    → base ≡ q * 8 + s
    → set_run_bits cp 0 base n ≡ byte_run (cp q) s n
unfolding set_run_bits test_bit byte_run
set_run_bits-byte_run cp q s zero base h e = refl
set_run_bits-byte_run cp q s (suc n) base h e =
    let here : 0 + base / 8 ≡ q = omega arith in
    let digit : base % 8 ≡ s = omega arith in
    rw (here, digit, set_run_bits-byte_run cp q (s + 1) n (base + 1) (omega arith) (omega arith))
      refl

-- The masks of the checker, at every byte.
whole_byte : holds_upto (λ v. same (v == 0xff) (byte_run v 0 8)) 256 ≡ true
unfolding holds_upto same byte_run
whole_byte = refl

mask_agrees : ℕ → ℕ → ℕ → ℕ → Bool
mask_agrees ones n s v = let mask = ones * 2 ^ s in same (bit_and v mask == mask) (byte_run v s n)

masks_agree :
    (holds_upto (λ s. holds_upto (mask_agrees 0x0f 4 s) 256) 5 ≡ true)
    × (holds_upto (λ s. holds_upto (mask_agrees 0x03 2 s) 256) 7 ≡ true)
    × (holds_upto (λ s. holds_upto (mask_agrees 0x01 1 s) 256) 8 ≡ true)
unfolding holds_upto same byte_run mask_agrees
masks_agree = (refl, refl, refl)

mask-set_run_bits :
    (cp : Bytes) (ones n starts q s base : ℕ)
    → holds_upto (λ s. holds_upto (mask_agrees ones n s) 256) starts ≡ true
    → s < starts
    → s + n ≤ 8
    → cp q < 256
    → base ≡ q * 8 + s
    → (bit_and (cp q) (ones * 2 ^ s) == ones * 2 ^ s) ≡ set_run_bits cp 0 base n
unfolding mask_agrees
mask-set_run_bits cp ones n starts q s base table lt fits byte e =
    same_eq _ _ (
      holds_upto-at (mask_agrees ones n s) 256 (cp q) byte
        (holds_upto-at (λ s. holds_upto (mask_agrees ones n s) 256) starts s lt table))
    ∙ sym (set_run_bits-byte_run cp q s n base fits e)

-- On a map of bytes, for blocks of 1, 2, 4 or 8 fragments, `isblock` says that a block is free
-- exactly where `nextufs__block_is_free` of the allocator does.
pub isblock-set_run_bits :
    (cp : Bytes) (frag h : ℕ)
    → ((j : ℕ) → cp j < 256)
    → (frag ≡ 1) ⊎ ((frag ≡ 2) ⊎ ((frag ≡ 4) ⊎ (frag ≡ 8)))
    → isblock frag cp h ≡ some (set_run_bits cp 0 (h * frag) frag)
unfolding isblock
isblock-set_run_bits cp frag h bytes (inl e) = rw e (
    ap some (
      mask-set_run_bits cp 0x01 1 8 (h / 8) (h % 8) (h * 1) masks_agree.2 (omega arith)
        (omega arith) (bytes (h / 8)) (omega arith)))
isblock-set_run_bits cp frag h bytes (inr (inl e)) = rw e (
    ap some (
      mask-set_run_bits cp 0x03 2 7 (h / 4) (h % 4 * 2) (h * 2) masks_agree.1 (omega arith)
        (omega arith) (bytes (h / 4)) (omega arith)))
isblock-set_run_bits cp frag h bytes (inr (inr (inl e))) = rw e (
    ap some (
      mask-set_run_bits cp 0x0f 4 5 (h / 2) (h % 2 * 4) (h * 4) masks_agree.0 (omega arith)
        (omega arith) (bytes (h / 2)) (omega arith)))
isblock-set_run_bits cp frag h bytes (inr (inr (inr e))) = rw e (
    ap some (
      same_eq _ _
        (holds_upto-at (λ v. same (v == 0xff) (byte_run v 0 8)) 256 (cp h) (bytes h) whole_byte)
      ∙ sym (set_run_bits-byte_run cp h 0 8 (h * 8) (omega arith) (omega arith))))
