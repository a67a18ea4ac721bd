-- ===== src/Memory/Laws.antt =====
-- What a big-endian write leaves in a buffer, at its own offset and at every other.
use nextufs_offline.Base.{
  ℕ, ◌+◌, ◌-◌, ◌/◌, ◌%◌, ◌^◌, ◌≤◌, ◌<◌, ◌≡◌, ◌⊎◌, inl, refl, arith, u8, u16, u32, u64, ◌==◌,
  if◌then◌else◌,
}
use nextufs_offline.Memory.{
  Bytes, upd, copy, clear, shift, read_be16, read_be32, read_be64, write_be16, write_be32,
  write_be64,
}

-- An offset outside `[p, p + n)`.
abbrev pub Outside : ℕ → ℕ → ℕ → Type 0
Outside j p n = (j < p) ⊎ (p + n ≤ j)

pub write_be16_at :
    (m : Bytes) (p v : ℕ)
    → (write_be16 m p v p ≡ u8 (v / 2 ^ 8)) × (write_be16 m p v (p + 1) ≡ u8 v)
unfolding write_be16
write_be16_at m p v = ground arith

pub write_be32_at :
    (m : Bytes) (p v : ℕ)
    → (write_be32 m p v p ≡ u8 (v / 2 ^ 24))
      × (write_be32 m p v (p + 1) ≡ u8 (v / 2 ^ 16))
      × (write_be32 m p v (p + 2) ≡ u8 (v / 2 ^ 8))
      × (write_be32 m p v (p + 3) ≡ u8 v)
unfolding write_be32
write_be32_at m p v = ground arith

pub write_be16_elsewhere : (m : Bytes) (p v j : ℕ) → Outside j p 2 → write_be16 m p v j ≡ m j
unfolding write_be16
write_be16_elsewhere m p v j h = ground arith

pub write_be32_elsewhere : (m : Bytes) (p v j : ℕ) → Outside j p 4 → write_be32 m p v j ≡ m j
unfolding write_be32
write_be32_elsewhere m p v j h = ground arith

pub write_be64_elsewhere : (m : Bytes) (p v j : ℕ) → Outside j p 8 → write_be64 m p v j ≡ m j
unfolding write_be64
write_be64_elsewhere m p v j h = ground (
  arith,
  write_be32_elsewhere (write_be32 m p (v / 2 ^ 32)) (p + 4) (v % 2 ^ 32) j,
  write_be32_elsewhere m p (v / 2 ^ 32) j,
)

pub read-write_be16 : (m : Bytes) (p v : ℕ) → read_be16 (write_be16 m p v) p ≡ u16 v
unfolding read_be16
read-write_be16 m p v = omega (arith, write_be16_at m p v)

pub read-write_be32 : (m : Bytes) (p v : ℕ) → read_be32 (write_be32 m p v) p ≡ u32 v
unfolding read_be32
read-write_be32 m p v = omega (arith, write_be32_at m p v)

pub read_be32_elsewhere :
    (m : Bytes) (p v q : ℕ)
    → (q + 4 ≤ p) ⊎ (p + 4 ≤ q)
    → read_be32 (write_be32 m p v) q ≡ read_be32 m q
unfolding read_be32
read_be32_elsewhere m p v q h = ground (
  arith,
  write_be32_elsewhere m p v q,
  write_be32_elsewhere m p v (q + 1),
  write_be32_elsewhere m p v (q + 2),
  write_be32_elsewhere m p v (q + 3),
)

pub read_be32-write_be16_elsewhere :
    (m : Bytes) (p v q : ℕ)
    → (q + 4 ≤ p) ⊎ (p + 2 ≤ q)
    → read_be32 (write_be16 m p v) q ≡ read_be32 m q
unfolding read_be32
read_be32-write_be16_elsewhere m p v q h = ground (
  arith,
  write_be16_elsewhere m p v q,
  write_be16_elsewhere m p v (q + 1),
  write_be16_elsewhere m p v (q + 2),
  write_be16_elsewhere m p v (q + 3),
)

pub read-write_be64 : (m : Bytes) (p v : ℕ) → read_be64 (write_be64 m p v) p ≡ u64 v
unfolding read_be64 write_be64
read-write_be64 m p v = omega (
  arith,
  read-write_be32 (write_be32 m p (v / 2 ^ 32)) (p + 4) (v % 2 ^ 32),
  read-write_be32 m p (v / 2 ^ 32),
  read_be32_elsewhere (write_be32 m p (v / 2 ^ 32)) (p + 4) (v % 2 ^ 32) p (inl (omega arith)),
)

pub copy_inside :
    (m : Bytes) (off : ℕ) (src : Bytes) (n k : ℕ) → k < n → copy m off src n (off + k) ≡ src k
unfolding copy
copy_inside m off src n k h = ground arith

pub copy_elsewhere :
    (m : Bytes) (off : ℕ) (src : Bytes) (n j : ℕ) → Outside j off n → copy m off src n j ≡ m j
unfolding copy
copy_elsewhere m off src n j h = ground arith

pub clear_inside : (m : Bytes) (off n k : ℕ) → k < n → clear m off n (off + k) ≡ 0
unfolding clear
clear_inside m off n k h = ground arith

pub clear_elsewhere : (m : Bytes) (off n j : ℕ) → Outside j off n → clear m off n j ≡ m j
unfolding clear
clear_elsewhere m off n j h = ground arith

pub copy_cong :
    (m m' buf : Bytes) (off n j : ℕ) → m j ≡ m' j → copy m off buf n j ≡ copy m' off buf n j
unfolding copy
copy_cong m m' buf off n j e = ground arith

-- Two copies that meet are one.
pub copy-copy :
    (m m₁ buf : Bytes) (off p done n size j : ℕ)
    → done < size
    → n ≤ size - done
    → p ≡ off + done
    → m₁ j ≡ copy m p (shift buf done) n j
    → copy m₁ (off + (done + n)) (shift buf (done + n)) (size - (done + n)) j
      ≡ copy m (off + done) (shift buf done) (size - done) j
unfolding copy shift
copy-copy m m₁ buf off p done n size j lt le at first = ground arith

pub copy_whole :
    (m buf : Bytes) (off size j : ℕ)
    → copy m (off + 0) (shift buf 0) (size - 0) j ≡ copy m off buf size j
unfolding copy shift
copy_whole m buf off size j = ground arith

pub upd_at : (m : Bytes) (i v j : ℕ) → upd m i v j ≡ (if j == i then v else m j)
unfolding upd
upd_at m i v j = refl
