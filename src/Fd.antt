-- ===== src/Fd.antt =====
-- `nextufs__read_exact_fd` and `nextufs__write_exact_fd` of src/core/layout.c: the loops over `pread`
-- and `pwrite`, which are parameters. A call may read or write less than it is asked to.
pub mod Laws
pub mod Totality
use nextufs_offline.Base.{ℕ, zero, suc, not, ◌+◌, ◌-◌, ◌==◌, add64, ltb, if◌then◌else◌}
use nextufs_offline.Memory.{Bytes, copy, shift, zeroed}
use nextufs_offline.Io.{M, ◌>>=◌, ◌>>◌, pure, require, out_of_fuel, eio}

-- A file descriptor: a count with the bytes, a count, and the flush. A negative return is an error.
pub record Fd (W : Type 0) : Type 0 where
  pub pread : ℕ → ℕ → M W (ℕ × Bytes)
  pub pwrite : Bytes → ℕ → ℕ → M W ℕ
  pub fsync : M W (Unit {0})

module _ {W : Type 0} (fd : Fd W) where
  -- `done` bytes are read; each round reads at least one.
  unfoldable pub read_fd_from : ℕ → ℕ → ℕ → ℕ → Bytes → M W Bytes
  read_fd_from zero size off done out = if ltb done size then out_of_fuel else pure out
  read_fd_from (suc fuel) size off done out =
      let round : M W Bytes = (do
        got ← fd.pread (size - done) (add64 off done)
        require (not (got.0 == 0)) eio
        read_fd_from fuel size off (done + got.0) (copy out done got.1 got.0)) in
      if ltb done size then round else pure out

  -- The buffer of the caller is taken to be zeroed.
  unfoldable pub read_exact_fd : ℕ → ℕ → M W Bytes
  read_exact_fd size off = read_fd_from size size off 0 zeroed

  unfoldable pub write_fd_from : ℕ → Bytes → ℕ → ℕ → ℕ → M W (Unit {0})
  write_fd_from zero buf size off done = if ltb done size then out_of_fuel else pure tt
  write_fd_from (suc fuel) buf size off done =
      let round : M W (Unit {0}) = (do
        n ← fd.pwrite (shift buf done) (size - done) (add64 off done)
        require (not (n == 0)) eio
        write_fd_from fuel buf size off (done + n)) in
      if ltb done size then round else pure tt

  unfoldable pub write_exact_fd : Bytes → ℕ → ℕ → M W (Unit {0})
  write_exact_fd buf size off = write_fd_from size buf size off 0
