-- ===== src/Cg.antt =====
-- The cylinder group block: its field offsets in include/nextufs_internal.h, and the buffer updates
-- that the functions of src/core/alloc.c share.
pub mod Frames
use nextufs_offline.Base.{
  ℕ, zero, suc, ◌+◌, ◌-◌, ◌*◌, ◌/◌, ◌%◌, ◌^◌, Bool, true, false, ◌&&◌, bit_and, u16, u32, add32,
  sub32, mul32, ltb, ◌==◌, if◌then◌else◌,
}
use nextufs_offline.Memory.{Bytes, read_be16, read_be32, write_be16, write_be32}
use nextufs_offline.Superblock.{Superblock}
use nextufs_offline.Layout.{cg_block_offset}
use nextufs_offline.Io.{
  M, ◌>>=◌, ◌>>◌, pure, require, einval, Os, Image, read_exact, malloc_or_fail,
}

abbrev pub magic_number : ℕ
magic_number = 0x00090255

abbrev pub nrpos : ℕ
nrpos = 8

abbrev pub time_off : ℕ
time_off = 8

-- `cg_ndblk`, the fragments of the group
abbrev pub ndblk_off : ℕ
ndblk_off = 20

abbrev pub ndir_off : ℕ
ndir_off = 24

abbrev pub nbfree_off : ℕ
nbfree_off = 28

abbrev pub nifree_off : ℕ
nifree_off = 32

abbrev pub nffree_off : ℕ
nffree_off = 36

abbrev pub rotor_off : ℕ
rotor_off = 40

abbrev pub irotor_off : ℕ
irotor_off = 48

abbrev pub frsum_off : ℕ → ℕ
frsum_off i = 52 + i * 4

abbrev pub btot_off : ℕ
btot_off = 84

abbrev pub bpos_off : ℕ
bpos_off = 212

abbrev pub iused_off : ℕ
iused_off = 724

abbrev pub magic_off : ℕ
magic_off = 980

abbrev pub free_off : ℕ
free_off = 984

-- `(mode & NEXTUFS_IFMT) == NEXTUFS_IFDIR`
abbrev pub is_dir_mode : ℕ → Bool
is_dir_mode mode = bit_and mode 0xf000 == 0x4000

-- `write_be32(p, read_be32(p) + n)` and `- n`
unfoldable pub add_be32 : Bytes → ℕ → ℕ → Bytes
add_be32 buf p n = write_be32 buf p (add32 (read_be32 buf p) n)

unfoldable pub sub_be32 : Bytes → ℕ → ℕ → Bytes
sub_be32 buf p n = write_be32 buf p (sub32 (read_be32 buf p) n)

-- `nextufs__apply_cg_frsum_delta` from entry `i` on, with so many rounds left. An entry that did not
-- change is not written.
unfoldable pub apply_frsum_from : ℕ → ℕ → Bytes → Bytes → Bytes → Bytes
apply_frsum_from zero i before after buf = buf
apply_frsum_from (suc left) i before after buf = apply_frsum_from left (i + 1) before after (
    if after i == before i
    then buf
    else write_be32 buf (frsum_off i)
        (u32 (read_be32 buf (frsum_off i) + sub32 (after i) (before i))))

unfoldable pub apply_cg_frsum_delta : Bytes → Bytes → Bytes → ℕ → Bytes
apply_cg_frsum_delta buf before after frags_per_block =
    apply_frsum_from (frags_per_block - 1) 1 before after buf

-- The cylinder of a block in its group, and its rotational position.
unfoldable pub cylno_of : Superblock → ℕ → ℕ
cylno_of sb frag = mul32 frag sb.sectors_per_frag / sb.sectors_per_cyl

unfoldable pub rotpos_of : Superblock → ℕ → ℕ
rotpos_of sb frag =
    mul32 (mul32 frag sb.sectors_per_frag % sb.sectors_per_cyl % sb.sectors_per_track) nrpos
    / sb.sectors_per_track

-- The totals of free blocks by cylinder and by rotational position, less one or plus one. `d` is
-- the 32-bit pattern of -1 or 1, and its low half serves the 16-bit total.
unfoldable pub adjust_totals : ℕ → ℕ → ℕ → Bytes → Bytes
adjust_totals cylno rotpos d buf =
    let btotp = btot_off + cylno * 4 in
    let bposp = bpos_off + (cylno * nrpos + rotpos) * 2 in
    let with_btot = write_be32 buf btotp (add32 (read_be32 buf btotp) d) in
    if ltb cylno 32 && ltb rotpos nrpos
    then write_be16 with_btot bposp (u16 (read_be16 with_btot bposp + d))
    else buf

unfoldable pub adjust_rotation : Superblock → ℕ → ℕ → Bytes → Bytes
adjust_rotation sb frag d buf = adjust_totals (cylno_of sb frag) (rotpos_of sb frag) d buf

-- How each function starts: the group's block is read into a fresh buffer and its magic is tested.
unfoldable pub load_cg : {W : Type 0} → Os W → Image W → ℕ → M W Bytes
load_cg os img cg = do
  malloc_or_fail os img.sb.cg_size
  buf ← read_exact img img.sb.cg_size (cg_block_offset img cg)
  require (read_be32 buf magic_off == magic_number) einval
  pure buf
