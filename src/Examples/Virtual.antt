-- ===== src/Examples/Virtual.antt =====
-- A file in memory, and a VDI of two blocks of 4 bytes in it.
use nextufs_offline.Base.{◌<◌, ℕ, ◌+◌, ◌≡◌, refl, arith, none, none_ne_some, ◌∙◌, sym, ap}
use nextufs_offline.Memory.{Bytes, zeroed, copy}
use nextufs_offline.Io.{ok}
use nextufs_offline.Io.Laws.{pure_ok}
use nextufs_offline.Fd.{Fd}
use nextufs_offline.Fd.Laws.{IsFile, read_exact_fd_ok, write_exact_fd_ok}
use nextufs_offline.Fd.Totality.{IsTotalFd}
use nextufs_offline.Io.Returns.{IsReturning, pure-IsReturning}
use nextufs_offline.Vdi.Totality.{vdi_write-IsReturning}
use nextufs_offline.Vdi.{Vdi, VdiState, unallocated, vdi_write, materialize_block}
use nextufs_offline.Vdi.View.{guest_byte, IsGeometry, IsSound, IsAbove, IsQuiet}
use nextufs_offline.Vdi.Reading.{vdi_read_ok}
use nextufs_offline.Vdi.Materialize.{IsMaterialized, materialize_block_ok}
use nextufs_offline.Vdi.Writing.{vdi_write_ok}
use nextufs_offline.Examples.Code.{code}
use nextufs_offline.Examples.Disk.{toy_os}

abbrev pub file_of : Bytes → Bytes
file_of w = w

-- All bytes of a call are moved at once.
abbrev pub memory_fd : Fd Bytes
memory_fd = record {
  pread = λ size off w. (ok (size, λ j. w (off + j)), w);
  pwrite = λ buf size off w. (ok size, copy w off buf size);
  fsync = λ w. (ok tt, w);
}

abbrev memory_vdi : Vdi Bytes
memory_vdi = record {
  fd = memory_fd;
  map_offset = 512;
  data_offset = 1024;
  block_size = 4;
  block_extra = 2;
  block_count = 2;
  disk_size = 8;
  parent = none;
}

abbrev empty_vdi : VdiState Bytes
empty_vdi = record { block_map = λ i. unallocated; blocks_allocated = 0; world = zeroed }

abbrev sevens : Bytes
sevens j = 7

pub memory_fd-IsFile : IsFile memory_fd file_of
memory_fd-IsFile = record {
  pread_ok = λ size off n b w w' h.
      let (e, ew) = pure_ok (size, λ j. w (off + j)) w h in
      (
        omega (arith, ap (λ (r : ℕ × Bytes). r.0) e),
        λ j lt. ap (λ (r : ℕ × Bytes). r.1 j) e,
        λ j. ap (λ (x : Bytes). x j) (sym ew),
      );
  pwrite_ok = λ buf size off n w w' h.
      let (e, ew) = pure_ok size (copy w off buf size) h in
      (
        omega (arith, e),
        λ j. ap (λ (x : Bytes). x j) (sym ew) ∙ ap (λ (x : ℕ). copy w off buf x j) (sym e),
      );
}

pub memory_fd-IsTotalFd : IsTotalFd memory_fd
memory_fd-IsTotalFd = record {
  pread = λ size off w. pure-IsReturning (size, λ j. w (off + j)) w;
  pwrite = λ buf size off w. pure-IsReturning size w;
}

memory_vdi-IsGeometry : IsGeometry memory_vdi
memory_vdi-IsGeometry = record {
  block_pos = omega arith;
  disk = omega arith;
  disk_small = omega arith;
  header = omega arith;
  map_fits = omega arith;
  data_fits = omega arith;
  count_small = omega arith;
}

empty_vdi-IsSound : IsSound memory_vdi (λ i. unallocated) 0
empty_vdi-IsSound = record {
  below = omega arith;
  counted = λ i lt ne ne'. absurd (ne refl);
  separate = λ i j lt lt' ne ne' e. absurd (ne refl);
}

memory_vdi-IsAbove : IsAbove memory_vdi file_of zeroed
memory_vdi-IsAbove = record { read_ok = λ p size off b w w' e h. absurd (none_ne_some e) }

toy_os-IsQuiet : IsQuiet toy_os file_of
toy_os-IsQuiet = record { malloc_keeps = λ n w j. refl }

abbrev written : VdiState Bytes
written = (vdi_write memory_vdi toy_os sevens 3 2 empty_vdi).1

-- The write goes over the end of the first block.
vdi_write_example :
    IsSound memory_vdi written.block_map written.blocks_allocated
    × ((x : ℕ)
        → x < 8
        → guest_byte memory_vdi written.world zeroed written.block_map x
          ≡ copy (guest_byte memory_vdi zeroed zeroed (λ i. unallocated)) 2 sevens 3 x)
unfolding code
vdi_write_example =
    vdi_write_ok toy_os memory_vdi memory_vdi-IsGeometry file_of zeroed toy_os-IsQuiet
      memory_fd-IsFile memory_vdi-IsAbove sevens 3 2 empty_vdi written empty_vdi-IsSound
      (omega arith) refl

abbrev five_read : Bytes
five_read = copy (copy zeroed 0 zeroed 4) 4 zeroed 1

vdi_read_example :
    ((j : ℕ) → j < 5 → five_read j ≡ guest_byte memory_vdi zeroed zeroed (λ i. unallocated) (0 + j))
    × ((j : ℕ) → zeroed j ≡ zeroed j)
    × (empty_vdi.block_map ≡ empty_vdi.block_map)
    × (empty_vdi.blocks_allocated ≡ empty_vdi.blocks_allocated)
unfolding code
vdi_read_example =
    vdi_read_ok memory_vdi memory_vdi-IsGeometry file_of zeroed memory_fd-IsFile memory_vdi-IsAbove
      5 0 five_read empty_vdi empty_vdi empty_vdi-IsSound (omega arith) refl

materialize_block_example :
    IsMaterialized toy_os memory_vdi memory_vdi-IsGeometry file_of zeroed toy_os-IsQuiet
      memory_fd-IsFile memory_vdi-IsAbove 1 empty_vdi
      (materialize_block memory_vdi toy_os 1 empty_vdi).1
unfolding code
materialize_block_example =
    materialize_block_ok toy_os memory_vdi memory_vdi-IsGeometry file_of zeroed toy_os-IsQuiet
      memory_fd-IsFile memory_vdi-IsAbove 1 empty_vdi
      (materialize_block memory_vdi toy_os 1 empty_vdi).1 empty_vdi-IsSound (omega arith) refl

read_exact_fd_example :
    ((j : ℕ) → j < 5 → copy zeroed 0 sevens 5 j ≡ sevens (3 + j)) × ((j : ℕ) → sevens j ≡ sevens j)
unfolding code
read_exact_fd_example =
    read_exact_fd_ok memory_fd file_of memory_fd-IsFile 5 3 (copy zeroed 0 sevens 5) sevens sevens
      (omega arith) refl

write_exact_fd_example : file_of (copy zeroed 3 sevens 5) 4 ≡ copy (file_of zeroed) 3 sevens 5 4
unfolding code
write_exact_fd_example =
    write_exact_fd_ok memory_fd file_of memory_fd-IsFile sevens 5 3 zeroed (copy zeroed 3 sevens 5)
      (omega arith) refl 4

vdi_write_returns_example : IsReturning (vdi_write memory_vdi toy_os sevens 3 2)
vdi_write_returns_example =
    vdi_write-IsReturning memory_vdi memory_fd-IsTotalFd (omega arith)
      (λ p size off e. absurd (none_ne_some e)) toy_os sevens 3 2
