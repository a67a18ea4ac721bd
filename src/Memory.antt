-- ===== src/Memory.antt =====
-- Memory buffers, and the big-endian codecs of src/core/layout.c. A buffer is a function from
-- offsets to bytes, so `p + n` of the source is an offset, and no access is out of range.
pub mod Laws
use nextufs_offline.Base.{ℕ, ◌+◌, ◌*◌, ◌/◌, ◌%◌, ◌^◌, ◌-◌, ◌&&◌, u8, ltb, leb, ◌==◌, if◌then◌else◌}

abbrev pub Bytes : Type 0
Bytes = ℕ → ℕ

-- `calloc`, and `memset` to zero of a whole buffer.
abbrev pub zeroed : Bytes
zeroed j = 0

unfoldable pub upd : Bytes → ℕ → ℕ → Bytes
upd m i v j = if j == i then v else m j

-- `m + off`
unfoldable pub shift : Bytes → ℕ → Bytes
shift m off j = m (off + j)

-- `memcpy(m + off, src, n)`
unfoldable pub copy : Bytes → ℕ → Bytes → ℕ → Bytes
copy m off src n j = if leb off j && ltb j (off + n) then src (j - off) else m j

-- `memset(m + off, 0, n)`
unfoldable pub clear : Bytes → ℕ → ℕ → Bytes
clear m off n j = if leb off j && ltb j (off + n) then 0 else m j

-- The bytes are disjoint, so the `|` of the shifted bytes is their sum.
unfoldable pub read_be16 : Bytes → ℕ → ℕ
read_be16 m p = m p * 2 ^ 8 + m (p + 1)

unfoldable pub read_be32 : Bytes → ℕ → ℕ
read_be32 m p = m p * 2 ^ 24 + m (p + 1) * 2 ^ 16 + m (p + 2) * 2 ^ 8 + m (p + 3)

unfoldable pub read_be64 : Bytes → ℕ → ℕ
read_be64 m p = read_be32 m p * 2 ^ 32 + read_be32 m (p + 4)

unfoldable pub write_be16 : Bytes → ℕ → ℕ → Bytes
unfolding upd
write_be16 m p v = upd (upd m p (u8 (v / 2 ^ 8))) (p + 1) (u8 v)

unfoldable pub write_be32 : Bytes → ℕ → ℕ → Bytes
unfolding upd
write_be32 m p v =
    upd (upd (upd (upd m p (u8 (v / 2 ^ 24))) (p + 1) (u8 (v / 2 ^ 16))) (p + 2) (u8 (v / 2 ^ 8)))
      (p + 3) (u8 v)

unfoldable pub write_be64 : Bytes → ℕ → ℕ → Bytes
write_be64 m p v = write_be32 (write_be32 m p (v / 2 ^ 32)) (p + 4) (v % 2 ^ 32)
