-- ===== src/Examples/Records.antt =====
-- A directory record is written into an empty block and read again.
use nextufs_offline.Base.{ℕ, ◌+◌, ◌<◌, ◌≡◌, arith, some}
use nextufs_offline.Memory.{Bytes, zeroed}
use nextufs_offline.Memory.Laws.{Outside}
use nextufs_offline.Layout.{read_dirent}
use nextufs_offline.Dirent.{write_dirent_raw}
use nextufs_offline.Dirent.RoundTrip.{read_dirent-write_dirent_raw}

abbrev letters : Bytes
letters j = 97 + j

record_example :
    (b : Bytes) × (write_dirent_raw zeroed 12 7 20 letters 3 ≡ some b)
    × (read_dirent b 1024 12 ≡ some (record { ino = 7; reclen = 20; namlen = 3; name = 12 + 8 }))
    × ((k : ℕ) → k < 3 → b (12 + 8 + k) ≡ letters k)
    × ((j : ℕ) → Outside j 12 20 → b j ≡ zeroed j)
record_example =
    read_dirent-write_dirent_raw zeroed 12 7 20 letters 3 1024 (omega arith) (omega arith)
      (omega arith) (omega arith) (omega arith)
