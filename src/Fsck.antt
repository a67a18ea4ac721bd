-- ===== src/Fsck.antt =====
-- src/fsck/frag_support.c: the checker's own view of the fragment map.
pub mod Accounting
pub mod Blocks
mod Tables
use nextufs_offline.Base.{
  ℕ, zero, suc, ◌+◌, ◌-◌, ◌*◌, ◌/◌, ◌%◌, ◌^◌, Bool, ◌||◌, Option, none, some, List, [], ◌∷◌,
  bit_and, bit_or, add32, ltb, leb, ◌==◌, if◌then◌else◌,
}
use nextufs_offline.Memory.{Bytes, upd}
use Tables.{around, inside, fragtbl124, fragtbl8}

abbrev pub get_or : List ℕ → ℕ → ℕ → ℕ
get_or [] i d = d
get_or (x ∷ xs) zero d = x
get_or (x ∷ xs) (suc i) d = get_or xs i d

-- `fragtbl[frag][map]`; the source has no table for other sizes.
unfoldable pub fragtbl : ℕ → ℕ → ℕ
fragtbl frag map =
    if frag == 8
    then get_or fragtbl8 map 0
    else if frag == 1 || frag == 2 || frag == 4
    then get_or fragtbl124 map 0
    else 0

-- The loop over the positions of a size: after a match the run is skipped. `pos` ends above `frag`
-- within `frag + 1` rounds.
unfoldable pub acct_positions : ℕ → ℕ → ℕ → ℕ → ℕ → ℕ → ℕ → ℕ → Bytes → Bytes
unfolding upd
acct_positions zero frag siz fragmap field subfield pos cnt fraglist = fraglist
acct_positions (suc fuel) frag siz fragmap field subfield pos cnt fraglist =
    let matched =
      acct_positions fuel frag siz fragmap (field * 2 ^ siz * 2) (subfield * 2 ^ siz * 2)
        (pos + siz + 1) cnt (upd fraglist siz (add32 (fraglist siz) cnt)) in
    let unmatched =
      acct_positions fuel frag siz fragmap (field * 2) (subfield * 2) (pos + 1) cnt fraglist in
    if leb pos frag
    then (if bit_and fragmap field == subfield then matched else unmatched)
    else fraglist

-- The loop over the sizes from `siz` on; the table says whether a size occurs at all.
unfoldable pub acct_sizes : ℕ → ℕ → ℕ → ℕ → ℕ → ℕ → Bytes → Bytes
unfolding acct_positions
acct_sizes zero frag inblk fragmap siz cnt fraglist = fraglist
acct_sizes (suc left) frag inblk fragmap siz cnt fraglist =
    acct_sizes left frag inblk fragmap (siz + 1) cnt (
      if bit_and inblk (2 ^ (siz + frag % 8)) == 0
      then fraglist
      else acct_positions (frag + 1) frag siz fragmap (get_or around siz 0) (get_or inside siz 0)
          siz cnt fraglist)

-- `fragacct`; `fraglist` is an array of `int32_t` patterns.
unfoldable pub fragacct : ℕ → ℕ → Bytes → ℕ → Bytes
unfolding acct_sizes fragtbl
fragacct frag fragmap fraglist cnt =
    acct_sizes (frag - 1) frag (fragtbl frag fragmap * 2) (fragmap * 2) 1 cnt fraglist

-- Whether block `h` of the map is all free; `none` is the panic at another size. `h & 0x1` is
-- `h % 2`, `h >> 1` is `h / 2`, and so on.
unfoldable pub isblock : ℕ → Bytes → ℕ → Option Bool
isblock frag cp h =
    let mask4 = 0x0f * 2 ^ (h % 2 * 4) in
    let mask2 = 0x03 * 2 ^ (h % 4 * 2) in
    let mask1 = 0x01 * 2 ^ (h % 8) in
    if frag == 8
    then some (cp h == 0xff)
    else if frag == 4
    then some (bit_and (cp (h / 2)) mask4 == mask4)
    else if frag == 2
    then some (bit_and (cp (h / 4)) mask2 == mask2)
    else if frag == 1
    then some (bit_and (cp (h / 8)) mask1 == mask1)
    else none

unfoldable pub clrblock : ℕ → Bytes → ℕ → Option Bytes
clrblock frag cp h =
    if frag == 8
    then some (upd cp h 0)
    else if frag == 4
    then some (upd cp (h / 2) (bit_and (cp (h / 2)) (255 - 0x0f * 2 ^ (h % 2 * 4))))
    else if frag == 2
    then some (upd cp (h / 4) (bit_and (cp (h / 4)) (255 - 0x03 * 2 ^ (h % 4 * 2))))
    else if frag == 1
    then some (upd cp (h / 8) (bit_and (cp (h / 8)) (255 - 0x01 * 2 ^ (h % 8))))
    else none

unfoldable pub setblock : ℕ → Bytes → ℕ → Option Bytes
setblock frag cp h =
    if frag == 8
    then some (upd cp h 0xff)
    else if frag == 4
    then some (upd cp (h / 2) (bit_or (cp (h / 2)) (0x0f * 2 ^ (h % 2 * 4))))
    else if frag == 2
    then some (upd cp (h / 4) (bit_or (cp (h / 4)) (0x03 * 2 ^ (h % 4 * 2))))
    else if frag == 1
    then some (upd cp (h / 8) (bit_or (cp (h / 8)) (0x01 * 2 ^ (h % 8))))
    else none
