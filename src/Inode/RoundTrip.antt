-- ===== src/Inode/RoundTrip.antt =====
-- What `decode_inode` reads from the buffer that `nextufs__write_inode_raw` fills.
use nextufs_offline.Base.{ℕ, zero, suc, ◌+◌, ◌*◌, ◌^◌, ◌≤◌, ◌<◌, ◌≡◌, refl, arith, ◌⊎◌, u32}
use nextufs_offline.Memory.{
  Bytes, read_be16, read_be32, read_be64, write_be16, write_be32, write_be64,
}
use nextufs_offline.Memory.Laws.{read-write_be32, read_be32_elsewhere}
use nextufs_offline.Inode.{
  Inode, decode_inode, encode_inode, write_words, encode_ids, encode_times, encode_tail,
}

-- Every field fits its width.
pub record Fits (ino : Inode) : Type 0 where
  pub mode : ino.mode < 2 ^ 16
  pub nlink : ino.nlink < 2 ^ 16
  pub uid : ino.uid < 2 ^ 16
  pub gid : ino.gid < 2 ^ 16
  pub size : ino.size < 2 ^ 64
  pub atime : ino.atime < 2 ^ 32
  pub mtime : ino.mtime < 2 ^ 32
  pub ctime : ino.ctime < 2 ^ 32
  pub db : (i : ℕ) → i < 12 → ino.db i < 2 ^ 32
  pub ib : (i : ℕ) → i < 3 → ino.ib i < 2 ^ 32
  pub flags : ino.flags < 2 ^ 32
  pub blocks : ino.blocks < 2 ^ 32
  pub gen : ino.gen < 2 ^ 32

-- Two inodes with the same fields, and the same entries in their arrays of 12 and 3.
pub record Same (a b : Inode) : Type 0 where
  pub mode : a.mode ≡ b.mode
  pub nlink : a.nlink ≡ b.nlink
  pub uid : a.uid ≡ b.uid
  pub gid : a.gid ≡ b.gid
  pub size : a.size ≡ b.size
  pub atime : a.atime ≡ b.atime
  pub mtime : a.mtime ≡ b.mtime
  pub ctime : a.ctime ≡ b.ctime
  pub db : (i : ℕ) → i < 12 → a.db i ≡ b.db i
  pub ib : (i : ℕ) → i < 3 → a.ib i ≡ b.ib i
  pub flags : a.flags ≡ b.flags
  pub blocks : a.blocks ≡ b.blocks
  pub gen : a.gen ≡ b.gen

pub read-write_words :
    (raw : Bytes) (off : ℕ) (a : ℕ → ℕ) (n i : ℕ)
    → i < n
    → read_be32 (write_words raw off a n) (off + i * 4) ≡ u32 (a i)
unfolding write_words
read-write_words raw off a zero i h = elim h [ ]
read-write_words raw off a (suc n) i h = ground (
  arith,
  read-write_be32 (write_words raw off a n) (off + n * 4) (a n),
  read_be32_elsewhere (write_words raw off a n) (off + n * 4) (a n) (off + i * 4),
  read-write_words raw off a n i,
)

pub read_be32-write_words_elsewhere :
    (raw : Bytes) (off : ℕ) (a : ℕ → ℕ) (n q : ℕ)
    → (q + 4 ≤ off) ⊎ (off + n * 4 ≤ q)
    → read_be32 (write_words raw off a n) q ≡ read_be32 raw q
unfolding write_words
read_be32-write_words_elsewhere raw off a zero q h = refl
read_be32-write_words_elsewhere raw off a (suc n) q h = ground (
  arith,
  read_be32_elsewhere (write_words raw off a n) (off + n * 4) (a n) q,
  read_be32-write_words_elsewhere raw off a n q,
)

-- The writes of `encode_tail` lie behind both arrays.
encode_tail_elsewhere :
    (ino : Inode) (raw : Bytes) (q : ℕ)
    → q + 4 ≤ 0x64
    → read_be32 (encode_tail ino raw) q ≡ read_be32 raw q
unfolding encode_tail
encode_tail_elsewhere ino raw q h = ground (
  arith,
  read_be32_elsewhere (write_be32 (write_be32 raw 0x64 ino.flags) 0x68 ino.blocks) 0x6c ino.gen q,
  read_be32_elsewhere (write_be32 raw 0x64 ino.flags) 0x68 ino.blocks q,
  read_be32_elsewhere raw 0x64 ino.flags q,
)

arrays : Inode → Bytes
arrays ino = write_words (encode_times ino (encode_ids ino)) 0x28 ino.db 12

encoded_db :
    (ino : Inode) (i : ℕ) → i < 12 → read_be32 (encode_inode ino) (0x28 + i * 4) ≡ u32 (ino.db i)
unfolding arrays
encoded_db ino i h =
    unfold encode_inode in
    ground (
      arith,
      encode_tail_elsewhere ino (write_words (arrays ino) 0x58 ino.ib 3) (0x28 + i * 4),
      read_be32-write_words_elsewhere (arrays ino) 0x58 ino.ib 3 (0x28 + i * 4),
      read-write_words (encode_times ino (encode_ids ino)) 0x28 ino.db 12 i,
    )

encoded_ib :
    (ino : Inode) (i : ℕ) → i < 3 → read_be32 (encode_inode ino) (0x58 + i * 4) ≡ u32 (ino.ib i)
unfolding arrays
encoded_ib ino i h =
    unfold encode_inode in
    ground (
      arith,
      encode_tail_elsewhere ino (write_words (arrays ino) 0x58 ino.ib 3) (0x58 + i * 4),
      read-write_words (arrays ino) 0x58 ino.ib 3 i,
    )

-- An inode whose fields fit their widths is read back as it was written.
pub decode-encode_inode : (ino : Inode) → Fits ino → Same (decode_inode (encode_inode ino)) ino
unfolding decode_inode encode_inode encode_ids encode_times encode_tail write_words read_be16
    read_be32 read_be64 write_be64 write_be32 write_be16
decode-encode_inode ino fits = record {
  mode = omega arith;
  nlink = omega arith;
  uid = omega arith;
  gid = omega arith;
  size = omega arith;
  atime = omega arith;
  mtime = omega arith;
  ctime = omega arith;
  db = λ i h. omega (arith, encoded_db ino i h, fits.db i h);
  ib = λ i h. omega (arith, encoded_ib ino i h, fits.ib i h);
  flags = omega arith;
  blocks = omega arith;
  gen = omega arith;
}
