-- ===== src/Dirent.antt =====
-- Directory records: `nextufs__write_dirent_raw` of src/mutate/dir_mutate.c and the comparison of
-- names. A name is a buffer and a length.
use nextufs_offline.Base.{
  ℕ, zero, suc, ◌+◌, Bool, true, ◌&&◌, Option, none, some, ltb, ◌==◌, if◌then◌else◌,
}
pub mod RoundTrip
use nextufs_offline.Memory.{Bytes, clear, copy, write_be16, write_be32}

-- `memcmp(a + i, b + j, n) == 0`
unfoldable pub same_bytes : Bytes → ℕ → Bytes → ℕ → ℕ → Bool
same_bytes a i b j zero = true
same_bytes a i b j (suc n) = (a i == b j) && same_bytes a (i + 1) b (j + 1) n

-- `none` is -ENAMETOOLONG. The record is written at offset `p` of the buffer.
unfoldable pub write_dirent_raw : Bytes → ℕ → ℕ → ℕ → Bytes → ℕ → Option Bytes
write_dirent_raw m p ino reclen name name_len =
    let cleared = clear m p reclen in
    let headed =
      write_be16 (write_be16 (write_be32 cleared p ino) (p + 4) reclen) (p + 6) name_len in
    if ltb 255 name_len then none else some (copy headed (p + 8) name name_len)
