-- ===== src/Inode.antt =====
-- `struct nextufs_inode`, its decoder in src/core/image.c and its encoder in src/core/layout.c.
pub mod RoundTrip
use nextufs_offline.Base.{ℕ, zero, suc, ◌+◌, ◌*◌}
use nextufs_offline.Memory.{
  Bytes, zeroed, read_be16, read_be32, read_be64, write_be16, write_be32, write_be64,
}

-- `db` holds 12 block addresses and `ib` 3.
pub record Inode : Type 0 where
  pub mode : ℕ
  pub nlink : ℕ
  pub uid : ℕ
  pub gid : ℕ
  pub size : ℕ
  pub atime : ℕ
  pub mtime : ℕ
  pub ctime : ℕ
  pub db : ℕ → ℕ
  pub ib : ℕ → ℕ
  pub flags : ℕ
  pub blocks : ℕ
  pub gen : ℕ

unfoldable pub decode_inode : Bytes → Inode
decode_inode buf = record {
  mode = read_be16 buf 0x00;
  nlink = read_be16 buf 0x02;
  uid = read_be16 buf 0x04;
  gid = read_be16 buf 0x06;
  size = read_be64 buf 0x08;
  atime = read_be32 buf 0x10;
  mtime = read_be32 buf 0x18;
  ctime = read_be32 buf 0x20;
  db = λ i. read_be32 buf (0x28 + i * 4);
  ib = λ i. read_be32 buf (0x58 + i * 4);
  flags = read_be32 buf 0x64;
  blocks = read_be32 buf 0x68;
  gen = read_be32 buf 0x6c;
}

-- `for (i = 0; i < n; i++) write_be32(raw + off + i * 4, a[i])`, the last entry outermost.
unfoldable pub write_words : Bytes → ℕ → (ℕ → ℕ) → ℕ → Bytes
write_words raw off a zero = raw
write_words raw off a (suc n) = write_be32 (write_words raw off a n) (off + n * 4) (a n)

unfoldable pub encode_ids : Inode → Bytes
encode_ids ino =
    write_be16
      (write_be16 (write_be16 (write_be16 zeroed 0x00 ino.mode) 0x02 ino.nlink) 0x04 ino.uid) 0x06
      ino.gid

unfoldable pub encode_times : Inode → Bytes → Bytes
encode_times ino raw =
    write_be32
      (write_be32 (write_be32 (write_be64 raw 0x08 ino.size) 0x10 ino.atime) 0x18 ino.mtime) 0x20
      ino.ctime

unfoldable pub encode_tail : Inode → Bytes → Bytes
encode_tail ino raw =
    write_be32 (write_be32 (write_be32 raw 0x64 ino.flags) 0x68 ino.blocks) 0x6c ino.gen

-- The buffer that `nextufs__write_inode_raw` fills.
unfoldable pub encode_inode : Inode → Bytes
encode_inode ino =
    encode_tail ino
      (write_words (write_words (encode_times ino (encode_ids ino)) 0x28 ino.db 12) 0x58 ino.ib 3)
