-- ===== src/Dirent/RoundTrip.antt =====
-- A directory record that `nextufs__write_dirent_raw` writes and `nextufs__read_dirent` reads.
use nextufs_offline.Base.{ℕ, ◌+◌, ◌^◌, ◌≤◌, ◌<◌, ◌≡◌, refl, ◌∙◌, arith, inl, some, le→ltb}
use nextufs_offline.Memory.{Bytes, clear, copy, read_be16, read_be32, write_be16, write_be32}
use nextufs_offline.Memory.Laws.{
  Outside, copy_inside, copy_elsewhere, clear_elsewhere, read-write_be16, read-write_be32,
  read_be32-write_be16_elsewhere, write_be16_elsewhere, write_be32_elsewhere,
}
use nextufs_offline.Cg.Frames.{read_be32_cong}
use nextufs_offline.Layout.{read_dirent}
use nextufs_offline.Dirent.{write_dirent_raw}

read_be16_cong :
    (m m' : Bytes) (p : ℕ) → m p ≡ m' p → m (p + 1) ≡ m' (p + 1) → read_be16 m p ≡ read_be16 m' p
unfolding read_be16
read_be16_cong m m' p e e' = rw (e, e') refl

module _ (m : Bytes) (p ino reclen : ℕ) (name : Bytes) (n : ℕ) where
  abbrev numbered : Bytes
  numbered = write_be32 (clear m p reclen) p ino

  abbrev sized : Bytes
  sized = write_be16 numbered (p + 4) reclen

  abbrev headed : Bytes
  headed = write_be16 sized (p + 6) n

  -- The record for a name that fits it.
  abbrev pub record_written : Bytes
  record_written = copy headed (p + 8) name n

  header_kept : (j : ℕ) → j < p + 8 → record_written j ≡ headed j
  header_kept j h = copy_elsewhere headed (p + 8) name n j (inl h)

  ino_read : ino < 2 ^ 32 → read_be32 record_written p ≡ ino
  ino_read small =
      read_be32_cong record_written headed p (λ j lo hi. header_kept j (omega arith))
      ∙ read_be32-write_be16_elsewhere sized (p + 6) n p (inl (omega arith))
      ∙ read_be32-write_be16_elsewhere numbered (p + 4) reclen p (inl (omega arith))
      ∙ omega (arith, read-write_be32 (clear m p reclen) p ino)

  reclen_read : reclen < 2 ^ 16 → read_be16 record_written (p + 4) ≡ reclen
  reclen_read small =
      read_be16_cong record_written sized (p + 4)
        (header_kept (p + 4) (omega arith)
          ∙ write_be16_elsewhere sized (p + 6) n (p + 4) (inl (omega arith)))
        (header_kept (p + 4 + 1) (omega arith)
          ∙ write_be16_elsewhere sized (p + 6) n (p + 4 + 1) (inl (omega arith)))
      ∙ omega (arith, read-write_be16 numbered (p + 4) reclen)

  namlen_read : n < 2 ^ 16 → read_be16 record_written (p + 6) ≡ n
  namlen_read small =
      read_be16_cong record_written headed (p + 6) (header_kept (p + 6) (omega arith))
        (header_kept (p + 6 + 1) (omega arith))
      ∙ omega (arith, read-write_be16 sized (p + 6) n)

  rest_kept : 8 + n ≤ reclen → (j : ℕ) → Outside j p reclen → record_written j ≡ m j
  rest_kept fits j out =
      copy_elsewhere headed (p + 8) name n j (ground arith)
      ∙ write_be16_elsewhere sized (p + 6) n j (ground arith)
      ∙ write_be16_elsewhere numbered (p + 4) reclen j (ground arith)
      ∙ write_be32_elsewhere (clear m p reclen) p ino j (ground arith)
      ∙ clear_elsewhere m p reclen j out

  -- Where the name is of at most 255 bytes and fits the record, the record fits its 16-bit length
  -- and the buffer, and the inode number fits 32 bits, `nextufs__write_dirent_raw` succeeds;
  -- `nextufs__read_dirent` then reads the same inode number, length and length of the name, the name
  -- is in the buffer byte for byte, and no byte outside the record is changed.
  pub read_dirent-write_dirent_raw :
      (size : ℕ)
      → n ≤ 255
      → 8 + n ≤ reclen
      → reclen < 2 ^ 16
      → p + reclen ≤ size
      → ino < 2 ^ 32
      → (b : Bytes) × (write_dirent_raw m p ino reclen name n ≡ some b)
        × (read_dirent b size p
            ≡ some (record { ino = ino; reclen = reclen; namlen = n; name = p + 8 }))
        × ((k : ℕ) → k < n → b (p + 8 + k) ≡ name k)
        × ((j : ℕ) → Outside j p reclen → b j ≡ m j)
  unfolding write_dirent_raw read_dirent
  read_dirent-write_dirent_raw size short fits small inside small_ino = (
    record_written,
    rw (le→ltb 255 n short) refl,
    rw
        (
          ino_read small_ino,
          reclen_read small,
          namlen_read (omega arith),
          le→ltb size (p + 8) (omega arith),
          le→ltb reclen 8 (omega arith),
          le→ltb size (p + reclen) inside,
          le→ltb size (p + 8 + n) (omega arith),
        )
        refl,
    copy_inside headed (p + 8) name n,
    rest_kept fits,
  )
