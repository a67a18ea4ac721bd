-- ===== src/Cg/Frames.antt =====
-- What each update of a group's buffer leaves alone: the bit maps are not touched by the writes to
-- the header and the tables, nor the header by those to the bit maps.
use nextufs_offline.Base.{
  ℕ, zero, suc, ◌+◌, ◌-◌, ◌*◌, ◌/◌, ◌≤◌, ◌<◌, ◌≡◌, refl, ◌∙◌, arith, ◌⊎◌, inl, inr, if◌then◌else◌,
  add32, sub32, u16, u32, ◌==◌, Bool-cases,
}
use nextufs_offline.Memory.{Bytes, upd, read_be16, read_be32, write_be32}
use nextufs_offline.Memory.Laws.{Outside, write_be32_elsewhere, write_be16_elsewhere}
use nextufs_offline.Superblock.{Superblock}
use nextufs_offline.Bitmap.{test_bit, set_bit, clear_bit, clear_block_bits}
use nextufs_offline.Cg.{
  frsum_off, btot_off, bpos_off, add_be32, sub_be32, apply_frsum_from, apply_cg_frsum_delta,
  adjust_totals, adjust_rotation, cylno_of, rotpos_of,
}

pub test_bit_cong :
    (m m' : Bytes) (off i : ℕ)
    → m (off + i / 8) ≡ m' (off + i / 8)
    → test_bit m off i ≡ test_bit m' off i
unfolding test_bit
test_bit_cong m m' off i e = rw e refl

pub read_be32_cong :
    (m m' : Bytes) (p : ℕ)
    → ((j : ℕ) → p ≤ j → j < p + 4 → m j ≡ m' j)
    → read_be32 m p ≡ read_be32 m' p
unfolding read_be32
read_be32_cong m m' p h = ground (arith, h p, h (p + 1), h (p + 2), h (p + 3))

pub add_be32_elsewhere : (m : Bytes) (p n j : ℕ) → Outside j p 4 → add_be32 m p n j ≡ m j
unfolding add_be32
add_be32_elsewhere m p n j h = write_be32_elsewhere m p (add32 (read_be32 m p) n) j h

pub sub_be32_elsewhere : (m : Bytes) (p n j : ℕ) → Outside j p 4 → sub_be32 m p n j ≡ m j
unfolding sub_be32
sub_be32_elsewhere m p n j h = write_be32_elsewhere m p (sub32 (read_be32 m p) n) j h

pub clear_bit_below : (m : Bytes) (off i j : ℕ) → j < off → clear_bit m off i j ≡ m j
unfolding clear_bit upd
clear_bit_below m off i j h = ground arith

pub set_bit_below : (m : Bytes) (off i j : ℕ) → j < off → set_bit m off i j ≡ m j
unfolding set_bit upd
set_bit_below m off i j h = ground arith

pub clear_block_bits_below :
    (m : Bytes) (off base n j : ℕ) → j < off → clear_block_bits m off base n j ≡ m j
unfolding clear_block_bits
clear_block_bits_below m off base zero j h = refl
clear_block_bits_below m off base (suc n) j h =
    clear_block_bits_below (clear_bit m off base) off (base + 1) n j h
    ∙ clear_bit_below m off base j h

-- One round of the loop over the table of free runs.
pub frsum_round : ℕ → Bytes → Bytes → Bytes → Bytes
frsum_round i before after m =
    if after i == before i
    then m
    else write_be32 m (frsum_off i) (u32 (read_be32 m (frsum_off i) + sub32 (after i) (before i)))

pub frsum_round_elsewhere :
    (i : ℕ) (before after m : Bytes) (j : ℕ)
    → Outside j (frsum_off i) 4
    → frsum_round i before after m j ≡ m j
unfolding frsum_round
frsum_round_elsewhere i before after m j h = elim (Bool-cases (after i == before i)) [
  | inl e ↦ rw e
  | inr e ↦ rw e (
      write_be32_elsewhere m (frsum_off i)
        (u32 (read_be32 m (frsum_off i) + sub32 (after i) (before i))) j h)
]

-- The table of free runs is entry 1 up to `fpb - 1`, at most 7 entries behind offset 52.
pub apply_frsum_from_elsewhere :
    (left i : ℕ) (before after m : Bytes) (j : ℕ)
    → (j < frsum_off i) ⊎ (frsum_off (i + left) ≤ j)
    → apply_frsum_from left i before after m j ≡ m j
unfolding apply_frsum_from frsum_round
apply_frsum_from_elsewhere zero i before after m j h = refl
apply_frsum_from_elsewhere (suc left) i before after m j h =
    apply_frsum_from_elsewhere left (i + 1) before after (frsum_round i before after m) j
      (ground arith)
    ∙ frsum_round_elsewhere i before after m j (ground arith)

pub apply_cg_frsum_delta_elsewhere :
    (m before after : Bytes) (fpb j : ℕ)
    → fpb ≤ 8
    → (j < 52) ⊎ (84 ≤ j)
    → apply_cg_frsum_delta m before after fpb j ≡ m j
unfolding apply_cg_frsum_delta
apply_cg_frsum_delta_elsewhere m before after fpb j small h =
    apply_frsum_from_elsewhere (fpb - 1) 1 before after m j (ground arith)

-- The totals lie between the table of free runs and the map of inodes.
adjust_totals_elsewhere :
    (cylno rotpos d : ℕ) (m : Bytes) (j : ℕ)
    → (j < btot_off) ⊎ (724 ≤ j)
    → adjust_totals cylno rotpos d m j ≡ m j
unfolding adjust_totals
adjust_totals_elsewhere cylno rotpos d m j h =
    let btotp = btot_off + cylno * 4 in
    let bposp = bpos_off + (cylno * 8 + rotpos) * 2 in
    let with_btot = write_be32 m btotp (add32 (read_be32 m btotp) d) in
    ground (
      arith,
      write_be16_elsewhere with_btot bposp (u16 (read_be16 with_btot bposp + d)) j,
      write_be32_elsewhere m btotp (add32 (read_be32 m btotp) d) j,
    )

pub adjust_rotation_elsewhere :
    (sb : Superblock) (frag d : ℕ) (m : Bytes) (j : ℕ)
    → (j < btot_off) ⊎ (724 ≤ j)
    → adjust_rotation sb frag d m j ≡ m j
unfolding adjust_rotation
adjust_rotation_elsewhere sb frag d m j h =
    adjust_totals_elsewhere (cylno_of sb frag) (rotpos_of sb frag) d m j h
