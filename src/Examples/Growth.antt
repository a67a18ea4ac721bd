-- ===== src/Examples/Growth.antt =====
-- Fragments of a new group, and sizes as they are read.
use nextufs_offline.Base.{
  ℕ, ◌+◌, ◌-◌, ◌*◌, ◌≤◌, ◌≡◌, refl, arith, ◌&&◌, List, [], ◌∷◌, Option, some, none, leb,
  if◌then◌else◌,
}
use nextufs_offline.Memory.{Bytes, zeroed}
use nextufs_offline.Io.{ok, err, hang}
use nextufs_offline.Size.{sectors_1k}
use nextufs_offline.Size.Bounds.{IsSize, parse_size_bytes_ok}
use nextufs_offline.Resize.{add_free_frag_range}
use nextufs_offline.Resize.Whole.{WholeBlocks}
use nextufs_offline.Resize.Laws.{IsRangeAdded, IsCounted, add_free_frag_range_ok}
use nextufs_offline.Examples.Code.{code}
use nextufs_offline.Examples.Disk.{toy_sb}

-- One block and four fragments of an empty map.
abbrev twelve_free : Bytes
twelve_free = elim (add_free_frag_range toy_sb zeroed 0 12) [
  | ok added ↦ added.0
  | err e ↦ zeroed
  | hang ↦ zeroed
]

add_free_frag_range_example :
    (0 ≤ 12)
    × (12 ≤ 32)
    × IsRangeAdded zeroed twelve_free 0 12
    × ((wholes : ℕ) × WholeBlocks 8 twelve_free 12 0 wholes × IsCounted 8 12 wholes 1 4)
unfolding code
add_free_frag_range_example =
    add_free_frag_range_ok toy_sb zeroed twelve_free 0 12 1 4 (omega arith) refl

-- Decimal digits, and what stands behind them.
abbrev digits_from : ℕ → List ℕ → ℕ × List ℕ
digits_from value [] = (value, [])
digits_from value (c ∷ cs) =
    let rest = digits_from (value * 10 + (c - 0x30)) cs in
    if leb 0x30 c && leb c 0x39 then rest else (value, c ∷ cs)

abbrev read_digits : List ℕ → Option (ℕ × List ℕ)
read_digits [] = none
read_digits (c ∷ cs) = if leb 0x30 c && leb c 0x39 then some (digits_from 0 (c ∷ cs)) else none

-- `"12m"`
parse_size_bytes_example :
    (value : ℕ) × (rest : List ℕ) × (read_digits (0x31 ∷ 0x32 ∷ 0x6d ∷ []) ≡ some (value, rest))
    × IsSize sectors_1k value rest 12582912
unfolding code
parse_size_bytes_example =
    parse_size_bytes_ok read_digits (0x31 ∷ 0x32 ∷ 0x6d ∷ []) sectors_1k 12582912 refl
