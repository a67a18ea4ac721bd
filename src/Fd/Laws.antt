-- ===== src/Fd/Laws.antt =====
-- What the loops over `pread` and `pwrite` do to a file, however the calls divide the work.
use nextufs_offline.Base.{
  ℕ, zero, suc, ◌+◌, ◌-◌, ◌^◌, ◌≤◌, ◌<◌, ◌≡◌, ◌∙◌, sym, ap, arith, false, not, ◌==◌, add64, ltb,
  inl, inr, Bool-cases, ltb→lt, ltb→le,
}
use nextufs_offline.Memory.{Bytes, copy, shift, zeroed}
use nextufs_offline.Memory.Laws.{copy_inside, copy_elsewhere, copy-copy, copy_whole}
use nextufs_offline.Io.{Result, ok, eio}
use nextufs_offline.Io.Laws.{bind_ok, require_ok, pure_ok, hang_ne_ok}
use nextufs_offline.Fd.{Fd, read_fd_from, read_exact_fd, write_fd_from, write_exact_fd}

-- What `pread` and `pwrite` promise of a file whose bytes are `contents`: a successful call has read
-- or written some first part of what was asked.
pub record IsFile {W : Type 0} (fd : Fd W) (contents : W → Bytes) : Type 0 where
  pub pread_ok :
      (size off n : ℕ) (b : Bytes) (w w' : W)
      → fd.pread size off w ≡ (ok (n, b), w')
      → (n ≤ size)
        × ((j : ℕ) → j < n → b j ≡ contents w (off + j))
        × ((j : ℕ) → contents w' j ≡ contents w j)
  pub pwrite_ok :
      (buf : Bytes) (size off n : ℕ) (w w' : W)
      → fd.pwrite buf size off w ≡ (ok n, w')
      → (n ≤ size) × ((j : ℕ) → contents w' j ≡ copy (contents w) off buf n j)

module _ {W : Type 0} (fd : Fd W) (contents : W → Bytes) (file : IsFile fd contents) where
  -- The bytes from `done` on are the file's, those before are as they were, and the file is.
  abbrev HasRead : ℕ → ℕ → ℕ → Bytes → Bytes → W → W → Type 0
  HasRead size off done out b w w' =
      ((j : ℕ) → done ≤ j → j < size → b j ≡ contents w (off + j))
      × ((j : ℕ) → j < done → b j ≡ out j)
      × ((j : ℕ) → contents w' j ≡ contents w j)

  all_read :
      (size off done : ℕ) (out b : Bytes) (w w' : W)
      → ltb done size ≡ false
      → ◌≡◌ {A = Result Bytes × W} (ok out, w) (ok b, w')
      → HasRead size off done out b w w'
  all_read size off done out b w w' e h = (
    λ j lo hi. absurd (ground arith),
    λ j lt. ap (λ (m : Bytes). m j) (pure_ok out w h).0,
    λ j. ap (λ (x : W). contents x j) (sym (pure_ok out w h).1),
  )

  read_from_ok :
      (fuel size off done : ℕ) (out b : Bytes) (w w' : W)
      → off + size < 2 ^ 64
      → read_fd_from fd fuel size off done out w ≡ (ok b, w')
      → HasRead size off done out b w w'
  unfolding read_fd_from
  read_from_ok zero size off done out b w w' small h = elim (Bool-cases (ltb done size)) [
    | inr e ↦ all_read size off done out b w w' e (rw e at h)
    | inl e ↦ absurd (hang_ne_ok w (rw e at h))
  ]
  read_from_ok (suc fuel) size off done out b w w' small h = elim (Bool-cases (ltb done size)) [
    | inr e ↦ all_read size off done out b w w' e (rw e at h)
    | inl e ↦
        let at : add64 off done ≡ off + done = ground arith in
        let ((n, got), v, e₁, h₁) =
          bind_ok (fd.pread (size - done) (add64 off done)) _ w (rw e at h) in
        let (some_read, h₂) = require_ok (not (n == 0)) eio _ v h₁ in
        let (le, bytes, kept) = file.pread_ok (size - done) (add64 off done) n got w v e₁ in
        let (rest, before, kept') =
          read_from_ok fuel size off (done + n) (copy out done got n) b v w' small h₂ in
        (
          λ j lo hi. elim (Bool-cases (ltb j (done + n))) [
            | inr far ↦ rest j (ltb→le j (done + n) far) hi ∙ kept (off + j)
            | inl near ↦
                let here : j ≡ done + (j - done) = omega arith in
                let there : add64 off done + (j - done) ≡ off + j = omega (arith, at) in
                before j (ltb→lt j (done + n) near)
                ∙ ap (copy out done got n) here
                ∙ copy_inside out done got n (j - done) (ground arith)
                ∙ bytes (j - done) (ground arith)
                ∙ ap (contents w) there
          ],
          λ j lt. before j (omega arith) ∙ copy_elsewhere out done got n j (inl lt),
          λ j. kept' j ∙ kept j,
        )
  ]

  -- A read that succeeds has read the file's bytes, and leaves the file as it was.
  pub read_exact_fd_ok :
      (size off : ℕ) (b : Bytes) (w w' : W)
      → off + size < 2 ^ 64
      → read_exact_fd fd size off w ≡ (ok b, w')
      → ((j : ℕ) → j < size → b j ≡ contents w (off + j)) × ((j : ℕ) → contents w' j ≡ contents w j)
  unfolding read_exact_fd
  read_exact_fd_ok size off b w w' small h =
      let (bytes, _, kept) = read_from_ok size size off 0 zeroed b w w' small h in
      (λ j lt. bytes j (omega arith) lt, kept)

  all_written :
      (size off done : ℕ) (buf : Bytes) (w w' : W) {u : Unit {0}}
      → ltb done size ≡ false
      → ◌≡◌ {A = Result (Unit {0}) × W} (ok tt, w) (ok u, w')
      → (j : ℕ) → contents w' j ≡ copy (contents w) (off + done) (shift buf done) (size - done) j
  all_written size off done buf w w' e h j =
      ap (λ (x : W). contents x j) (sym (pure_ok tt w h).1)
      ∙ sym
          (copy_elsewhere (contents w) (off + done) (shift buf done) (size - done) j (ground arith))

  write_from_ok :
      (fuel : ℕ) (buf : Bytes) (size off done : ℕ) (w w' : W) {u : Unit {0}}
      → off + size < 2 ^ 64
      → write_fd_from fd fuel buf size off done w ≡ (ok u, w')
      → (j : ℕ) → contents w' j ≡ copy (contents w) (off + done) (shift buf done) (size - done) j
  unfolding write_fd_from
  write_from_ok zero buf size off done w w' small h = elim (Bool-cases (ltb done size)) [
    | inr e ↦ all_written size off done buf w w' e (rw e at h)
    | inl e ↦ absurd (hang_ne_ok w (rw e at h))
  ]
  write_from_ok (suc fuel) buf size off done w w' small h = elim (Bool-cases (ltb done size)) [
    | inr e ↦ all_written size off done buf w w' e (rw e at h)
    | inl e ↦
        let at : add64 off done ≡ off + done = ground arith in
        let (n, v, e₁, h₁) =
          bind_ok (fd.pwrite (shift buf done) (size - done) (add64 off done)) _ w (rw e at h) in
        let (some_read, h₂) = require_ok (not (n == 0)) eio _ v h₁ in
        let (le, first) = file.pwrite_ok (shift buf done) (size - done) (add64 off done) n w v e₁ in
        let rest = write_from_ok fuel buf size off (done + n) v w' small h₂ in
        λ j.
          rest j
          ∙ copy-copy (contents w) (contents v) buf off (add64 off done) done n size j
              (ltb→lt done size e) le at (first j)
  ]

  -- A write that succeeds has written the bytes to the file, and no others.
  pub write_exact_fd_ok :
      (buf : Bytes) (size off : ℕ) (w w' : W) {u : Unit {0}}
      → off + size < 2 ^ 64
      → write_exact_fd fd buf size off w ≡ (ok u, w')
      → (j : ℕ) → contents w' j ≡ copy (contents w) off buf size j
  unfolding write_exact_fd
  write_exact_fd_ok buf size off w w' small h j =
      write_from_ok size buf size off 0 w w' small h j ∙ copy_whole (contents w) buf off size j
