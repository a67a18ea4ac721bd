-- ===== src/Fd/Totality.antt =====
-- The loops over `pread` and `pwrite` end: each round moves at least one byte.
use nextufs_offline.Base.{ℕ, zero, suc, ◌+◌, ◌-◌, ◌≤◌, ◌≡◌, arith, false, not, ◌==◌, add64, ltb}
use nextufs_offline.Memory.{Bytes, copy, shift, zeroed}
use nextufs_offline.Io.{eio}
use nextufs_offline.Io.Returns.{
  IsReturning, pure-IsReturning, if-IsReturning, bind-IsReturning, require-then-IsReturning,
}
use nextufs_offline.Fd.{Fd, read_fd_from, read_exact_fd, write_fd_from, write_exact_fd}

-- The calls of the system return.
pub record IsTotalFd {W : Type 0} (fd : Fd W) : Type 0 where
  pub pread : (size off : ℕ) → IsReturning (fd.pread size off)
  pub pwrite : (buf : Bytes) (size off : ℕ) → IsReturning (fd.pwrite buf size off)

module _ {W : Type 0} (fd : Fd W) (total : IsTotalFd fd) where
  read_fd_from-IsReturning :
      (fuel size off done : ℕ) (out : Bytes)
      → size ≤ fuel + done
      → IsReturning (read_fd_from fd fuel size off done out)
  unfolding read_fd_from
  read_fd_from-IsReturning zero size off done out le =
      let last : ltb done size ≡ false = ground arith in rw last (pure-IsReturning out)
  read_fd_from-IsReturning (suc fuel) size off done out le =
      if-IsReturning (ltb done size) _ _
        (bind-IsReturning _ _ (total.pread (size - done) (add64 off done)) (λ (n, got).
          require-then-IsReturning (not (n == 0)) eio _ (λ some_read.
            read_fd_from-IsReturning fuel size off (done + n) (copy out done got n)
              (ground arith))))
        (pure-IsReturning out)

  pub read_exact_fd-IsReturning : (size off : ℕ) → IsReturning (read_exact_fd fd size off)
  unfolding read_exact_fd
  read_exact_fd-IsReturning size off = read_fd_from-IsReturning size size off 0 zeroed (omega arith)

  write_fd_from-IsReturning :
      (fuel : ℕ) (buf : Bytes) (size off done : ℕ)
      → size ≤ fuel + done
      → IsReturning (write_fd_from fd fuel buf size off done)
  unfolding write_fd_from
  write_fd_from-IsReturning zero buf size off done le =
      let last : ltb done size ≡ false = ground arith in rw last (pure-IsReturning tt)
  write_fd_from-IsReturning (suc fuel) buf size off done le =
      if-IsReturning (ltb done size) _ _
        (bind-IsReturning _ _ (total.pwrite (shift buf done) (size - done) (add64 off done)) (λ n.
          require-then-IsReturning (not (n == 0)) eio _ (λ some_written.
            write_fd_from-IsReturning fuel buf size off (done + n) (ground arith))))
        (pure-IsReturning tt)

  pub write_exact_fd-IsReturning :
      (buf : Bytes) (size off : ℕ) → IsReturning (write_exact_fd fd buf size off)
  unfolding write_exact_fd
  write_exact_fd-IsReturning buf size off =
      write_fd_from-IsReturning size buf size off 0 (omega arith)
