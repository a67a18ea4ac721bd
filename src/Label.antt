-- ===== src/Label.antt =====
-- The disk label of src/core/label.c: its fields, its checksum and its strings. A label is a buffer;
-- an offset into it stands for the pointer of the source.
pub mod Decode
pub mod Build
pub mod Patch
pub mod Checksum
pub mod Fields
pub mod Words
pub mod RoundTrip
pub mod Resize
pub mod Scan
pub mod Totality
use nextufs_offline.Base.{
  ℕ, zero, suc, ◌+◌, ◌-◌, ◌*◌, ◌/◌, ◌^◌, Bool, true, List, [], ◌∷◌, u8, u16, add32, ◌&&◌, ltb, leb,
  ◌==◌, if◌then◌else◌,
}
use nextufs_offline.Text.{CString}
use nextufs_offline.Memory.{Bytes, upd, copy, clear, zeroed, shift, read_be16}

abbrev pub sector_size : ℕ
sector_size = 512

abbrev pub scan_limit : ℕ
scan_limit = 131072

abbrev pub decode_size : ℕ
decode_size = 0x1c5a

abbrev pub part_count : ℕ
part_count = 8

abbrev pub validate_size : ℕ
validate_size = 0x660

abbrev pub dl_v1 : ℕ
dl_v1 = 0x4e65_5854

abbrev pub dl_v2 : ℕ
dl_v2 = 0x646c_5632

abbrev pub dl_v3 : ℕ
dl_v3 = 0x646c_5633

abbrev pub disktab_off : ℕ
disktab_off = 0x02c

abbrev pub v3_cksum_off : ℕ
v3_cksum_off = 0x022e

abbrev pub cksum_off : ℕ
cksum_off = 0x1c58

abbrev pub cksum_size : ℕ
cksum_size = 0x230

abbrev pub dt_secsize_off : ℕ
dt_secsize_off = 0x032

abbrev pub dt_front_off : ℕ
dt_front_off = 0x044

abbrev pub dt_rootpart_off : ℕ
dt_rootpart_off = 0x090

abbrev pub dt_partitions_off : ℕ
dt_partitions_off = 0x094

abbrev pub dt_partition_size : ℕ
dt_partition_size = 0x040

-- Entry `i` of the table of partitions.
abbrev pub partition_off : ℕ → ℕ
partition_off i = disktab_off + dt_partitions_off + i * dt_partition_size

-- `'a'`
abbrev pub letter_a : ℕ
letter_a = 97

-- The bytes are disjoint, so the `|` of the shifted bytes is their sum.
unfoldable pub read_be24 : Bytes → ℕ → ℕ
read_be24 m p = m p * 2 ^ 16 + m (p + 1) * 2 ^ 8 + m (p + 2)

unfoldable pub write_be24 : Bytes → ℕ → ℕ → Bytes
write_be24 m p v = upd (upd (upd m p (u8 (v / 2 ^ 16))) (p + 1) (u8 (v / 2 ^ 8))) (p + 2) (u8 v)

-- One round of `checksum_be16`: the carry out of 16 bits is added again.
unfoldable pub add_word : ℕ → ℕ → ℕ
add_word sum word = let s = add32 sum word in if ltb 65535 s then s - 65535 else s

unfoldable pub checksum_from : ℕ → Bytes → ℕ → ℕ → ℕ → ℕ
checksum_from zero buf size i sum = sum
checksum_from (suc fuel) buf size i sum =
    let rest = checksum_from fuel buf size (i + 2) (add_word sum (read_be16 buf i)) in
    if ltb (i + 1) size then rest else sum

unfoldable pub checksum_be16 : Bytes → ℕ → ℕ
checksum_be16 buf size = u16 (checksum_from size buf size 0 0)

-- The buffer that is summed up: the label with its block number and its checksum taken as 0.
unfoldable pub summed : Bytes → Bytes
summed m = clear (clear (copy zeroed 0 m cksum_size) 4 4) v3_cksum_off 2

-- `"4.3BSD"`
abbrev pub fs_type : List ℕ
fs_type = 0x34 ∷ 0x2e ∷ 0x33 ∷ 0x42 ∷ 0x53 ∷ 0x44 ∷ []

unfoldable pub put_string : Bytes → ℕ → ℕ → CString → Bytes
put_string m p len s = let n = if leb len s.strlen then len - 1 else s.strlen in copy m p s.chars n

-- `strcmp(m + p, s) == 0`, for a literal.
unfoldable pub strcmp_zero : Bytes → ℕ → List ℕ → Bool
strcmp_zero m p [] = m p == 0
strcmp_zero m p (c ∷ cs) = m p == c && strcmp_zero m (p + 1) cs

-- The scan of `copy_cstr_field` for the end of the string, with `left` bytes left.
unfoldable pub cstr_len : ℕ → Bytes → ℕ → ℕ
cstr_len zero src n = n
cstr_len (suc left) src n = let rest = cstr_len left src (n + 1) in if src n == 0 then n else rest

unfoldable pub copy_cstr_field : ℕ → Bytes → ℕ → Bytes
copy_cstr_field dst_size src src_size =
    let len = cstr_len src_size src 0 in
    let n = if leb dst_size len then dst_size - 1 else len in upd (copy zeroed 0 src n) n 0

-- Whether the first `n` bytes from `p` on are all `v`.
unfoldable pub all_bytes : Bytes → ℕ → ℕ → ℕ → Bool
all_bytes m p zero v = true
all_bytes m p (suc n) v = m (p + n) == v && all_bytes m p n v
