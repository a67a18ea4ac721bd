-- ===== src/File/Symlink.antt =====
-- Symbolic links that are kept in the block arrays of the inode: `decode_inline_symlink` of
-- src/core/image.c and `nextufs__store_inline_symlink` of src/mutate/dir_mutate.c.
use nextufs_offline.Base.{
  ℕ, zero, suc, ◌+◌, ◌-◌, ◌*◌, ◌/◌, ◌%◌, ◌≤◌, ◌<◌, ◌≡◌, refl, ◌∙◌, ap, arith, true, false, not,
  ◌||◌, ltb, leb, ◌==◌, if◌then◌else◌, inl, inr, Bool-cases, ==_self, fun_ext,
}
use nextufs_offline.Memory.{Bytes, zeroed, upd, copy, read_be32, write_be32}
use nextufs_offline.Memory.Laws.{write_be32_at, write_be32_elsewhere, copy_inside, upd_at, Outside}
use nextufs_offline.Inode.{Inode, write_words}
use nextufs_offline.Alloc.Storage.{is_fast_link}

unfoldable pub store_inline_symlink : Inode → Bytes → ℕ → Inode
store_inline_symlink ino target len =
    let raw = copy zeroed 0 target len in
    record ino { db = λ i. read_be32 raw (i * 4); ib = λ i. read_be32 raw (48 + i * 4) }

-- The 60 bytes that the arrays hold.
unfoldable pub inline_bytes : Inode → Bytes
inline_bytes ino = write_words (write_words zeroed 0 ino.db 12) 48 ino.ib 3

-- The number of bytes and the caller's buffer with them and a NUL.
unfoldable pub decode_inline_symlink : Inode → Bytes → ℕ → ℕ × Bytes
decode_inline_symlink ino out out_size =
    let nbytes = if leb out_size ino.size then out_size - 1 else ino.size in
    if not (is_fast_link ino) || ino.size == 0 || ltb 60 ino.size || out_size == 0
    then (0, out)
    else (nbytes, upd (copy out 0 (inline_bytes ino) nbytes) nbytes 0)

write_be32-read_be32 :
    (m raw : Bytes) (p q r : ℕ)
    → ((j : ℕ) → m j < 256)
    → r < 4
    → write_be32 raw p (read_be32 m q) (p + r) ≡ m (q + r)
unfolding read_be32
write_be32-read_be32 m raw p q r bytes lt = ground (
  arith,
  write_be32_at raw p (read_be32 m q),
  bytes q,
  bytes (q + 1),
  bytes (q + 2),
  bytes (q + 3),
)

write_words_elsewhere :
    (raw : Bytes) (off : ℕ) (a : ℕ → ℕ) (n j : ℕ)
    → Outside j off (n * 4)
    → write_words raw off a n j ≡ raw j
unfolding write_words
write_words_elsewhere raw off a zero j h = refl
write_words_elsewhere raw off a (suc n) j h =
    write_be32_elsewhere (write_words raw off a n) (off + n * 4) (a n) j (ground arith)
    ∙ write_words_elsewhere raw off a n j (ground arith)

-- Entries that were read from `q` on give the bytes back.
write_words-read_be32 :
    (m raw : Bytes) (off q n i r : ℕ)
    → ((j : ℕ) → m j < 256)
    → i < n
    → r < 4
    → write_words raw off (λ i. read_be32 m (q + i * 4)) n (off + i * 4 + r) ≡ m (q + i * 4 + r)
unfolding write_words
write_words-read_be32 m raw off q zero i r bytes lt lt' = elim lt [ ]
write_words-read_be32 m raw off q (suc n) i r bytes lt lt' = elim (Bool-cases (i == n)) [
  | inl e ↦
      let same : i ≡ n = ground arith in
      rw same (
        write_be32-read_be32 m (write_words raw off (λ i. read_be32 m (q + i * 4)) n) (off + n * 4)
          (q + n * 4) r bytes lt')
  | inr e ↦
      write_be32_elsewhere (write_words raw off (λ i. read_be32 m (q + i * 4)) n) (off + n * 4)
        (read_be32 m (q + n * 4)) (off + i * 4 + r) (inl (ground arith))
      ∙ write_words-read_be32 m raw off q n i r bytes (ground arith) lt'
]

words_at :
    (m raw : Bytes) (a : ℕ → ℕ) (off q n j t : ℕ)
    → ((i : ℕ) → a i ≡ read_be32 m (q + i * 4))
    → ((j : ℕ) → m j < 256)
    → off ≤ j
    → j < off + n * 4
    → t + off ≡ q + j
    → write_words raw off a n j ≡ m t
words_at m raw a off q n j t entries bytes lo hi e =
    let i = (j - off) / 4 in
    let r = (j - off) % 4 in
    let from : j ≡ off + i * 4 + r = omega arith in
    let to : q + i * 4 + r ≡ t = omega arith in
    ap (λ (a : ℕ → ℕ). write_words raw off a n j) (fun_ext entries)
    ∙ ap (write_words raw off (λ i. read_be32 m (q + i * 4)) n) from
    ∙ write_words-read_be32 m raw off q n i r bytes (omega arith) (omega arith)
    ∙ ap m to

-- Each of the 60 bytes is the target's, or 0 behind it.
inline_bytes-store_inline_symlink :
    (ino : Inode) (target : Bytes) (len j : ℕ)
    → ((j : ℕ) → copy zeroed 0 target len j < 256)
    → j < 60
    → inline_bytes (store_inline_symlink ino target len) j ≡ copy zeroed 0 target len j
unfolding inline_bytes store_inline_symlink
inline_bytes-store_inline_symlink ino target len j bytes lt =
    let raw = copy zeroed 0 target len in
    let first = write_words zeroed 0 (λ i. read_be32 raw (i * 4)) 12 in
    elim (Bool-cases (ltb j 48)) [
      | inl e ↦
          write_words_elsewhere first 48 (λ i. read_be32 raw (48 + i * 4)) 3 j (inl (ground arith))
          ∙ words_at raw zeroed (λ i. read_be32 raw (i * 4)) 0 0 12 j j
              (λ i. let z : i * 4 ≡ 0 + i * 4 = omega arith in ap (read_be32 raw) z) bytes
              (omega arith) (ground arith) (omega arith)
      | inr e ↦
          words_at raw first (λ i. read_be32 raw (48 + i * 4)) 48 48 3 j j (λ i. refl) bytes
            (ground arith) (omega arith) (omega arith)
    ]

copy_byte :
    (target : Bytes) (len j : ℕ) → ((k : ℕ) → target k < 256) → copy zeroed 0 target len j < 256
unfolding copy
copy_byte target len j bytes = ground (arith, bytes (j - 0))

-- A target of 1 to 60 bytes that is stored in a link of this size is decoded, in a buffer with room
-- for it and a NUL, byte for byte and followed by the NUL.
pub decode_inline_symlink-store_inline_symlink :
    (ino : Inode) (target out : Bytes) (len out_size : ℕ)
    → is_fast_link ino ≡ true
    → ino.size ≡ len
    → 0 < len
    → len ≤ 60
    → len < out_size
    → ((k : ℕ) → target k < 256)
    → (b : Bytes) × (decode_inline_symlink (store_inline_symlink ino target len) out out_size
        ≡ (len, b))
      × ((k : ℕ) → k < len → b k ≡ target k)
      × (b len ≡ 0)
unfolding decode_inline_symlink store_inline_symlink is_fast_link
decode_inline_symlink-store_inline_symlink ino target out len out_size link size pos short room
      bytes =
    let raw = inline_bytes (store_inline_symlink ino target len) in
    let nonzero : (len == 0) ≡ false = ground arith in
    let short_enough : ltb 60 len ≡ false = ground arith in
    let some_room : (out_size == 0) ≡ false = ground arith in
    let enough_room : leb out_size len ≡ false = ground arith in
    (
      upd (copy out 0 raw len) len 0,
      rw (size, link, nonzero, short_enough, some_room, enough_room) refl,
      λ k lt.
          let z : k ≡ 0 + k = omega arith in
          let before : (k == len) ≡ false = ground arith in
          upd_at (copy out 0 raw len) len 0 k
          ∙ rw before (ap (copy out 0 raw len) z)
          ∙ copy_inside out 0 raw len k lt
          ∙ inline_bytes-store_inline_symlink ino target len k (λ j. copy_byte target len j bytes)
              (omega arith)
          ∙ ap (copy zeroed 0 target len) z
          ∙ copy_inside zeroed 0 target len k lt,
      upd_at (copy out 0 raw len) len 0 len ∙ rw (==_self len) refl,
    )
