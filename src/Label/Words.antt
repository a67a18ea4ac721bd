-- ===== src/Label/Words.antt =====
-- Fields of a label, read back and read from buffers that agree.
use nextufs_offline.Base.{ℕ, ◌+◌, ◌^◌, ◌<◌, ◌≡◌, arith}
use nextufs_offline.Memory.{Bytes, upd, read_be16, read_be32}
use nextufs_offline.Memory.Laws.{Outside}
use nextufs_offline.Label.{read_be24, write_be24}

pub write_be24_elsewhere : (m : Bytes) (p v j : ℕ) → Outside j p 3 → write_be24 m p v j ≡ m j
unfolding write_be24 upd
write_be24_elsewhere m p v j h = ground arith

pub read-write_be24 : (m : Bytes) (p v : ℕ) → v < 2 ^ 24 → read_be24 (write_be24 m p v) p ≡ v
unfolding write_be24 read_be24 upd
read-write_be24 m p v lt = ground arith

pub read_be16_cong :
    (m m' : Bytes) (p : ℕ) → m p ≡ m' p → m (p + 1) ≡ m' (p + 1) → read_be16 m p ≡ read_be16 m' p
unfolding read_be16
read_be16_cong m m' p h₀ h₁ = omega (arith, h₀, h₁)

pub read_be24_cong :
    (m m' : Bytes) (p : ℕ)
    → m p ≡ m' p
    → m (p + 1) ≡ m' (p + 1)
    → m (p + 2) ≡ m' (p + 2)
    → read_be24 m p ≡ read_be24 m' p
unfolding read_be24
read_be24_cong m m' p h₀ h₁ h₂ = omega (arith, h₀, h₁, h₂)

pub read_be32_cong :
    (m m' : Bytes) (p : ℕ)
    → m p ≡ m' p
    → m (p + 1) ≡ m' (p + 1)
    → m (p + 2) ≡ m' (p + 2)
    → m (p + 3) ≡ m' (p + 3)
    → read_be32 m p ≡ read_be32 m' p
unfolding read_be32
read_be32_cong m m' p h₀ h₁ h₂ h₃ = omega (arith, h₀, h₁, h₂, h₃)
