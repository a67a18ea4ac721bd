-- ===== src/Label/Fields.antt =====
-- What makes a buffer a label that the code accepts, and whose slice it takes.
use nextufs_offline.Base.{
  ℕ, zero, suc, ◌+◌, ◌-◌, ◌*◌, ◌%◌, ◌^◌, ◌≤◌, ◌<◌, ◌≡◌, ◌≢◌, ◌⊎◌, refl, ◌∙◌, sym, ap, arith, Bool,
  true, false, not, ◌&&◌, ◌||◌, Option, none, some, inl, inr, mul64, ltb, leb, ◌==◌, if◌then◌else◌,
  Bool-cases, none_ne_some,
}
use nextufs_offline.Memory.{Bytes, shift, upd, copy, zeroed, read_be16, read_be32}
use nextufs_offline.Label.{
  decode_size, sector_size, letter_a, part_count, dt_partition_size, disktab_off, dt_secsize_off,
  dt_rootpart_off, partition_off, read_be24, all_bytes, cstr_len, copy_cstr_field,
}
use nextufs_offline.Label.Decode.{
  DiskLabel, is_version, partition_used, decode_partition, stored_checksum, checksum_holds,
  label_fields, label_decode, slice_of, pick_slice,
}

pub all_bytes_at : (m : Bytes) (p n v j : ℕ) → all_bytes m p n v ≡ true → j < n → m (p + j) ≡ v
unfolding all_bytes
all_bytes_at m p zero v j h lt = absurd (omega arith)
all_bytes_at m p (suc n) v j h lt = elim (Bool-cases (j == n)) [
  | inl e ↦ let here : j ≡ n = ground arith in ap (λ (t : ℕ). m (p + t)) here ∙ ground arith
  | inr e ↦ all_bytes_at m p n v j (ground arith) (ground arith)
]

cstr_len_bound : (left : ℕ) (src : Bytes) (n : ℕ) → n ≤ cstr_len left src n
unfolding cstr_len
cstr_len_bound zero src n = omega arith
cstr_len_bound (suc left) src n = ground (arith, cstr_len_bound left src (n + 1))

first_of : (src : Bytes) (n : ℕ) → 0 < n → upd (copy zeroed 0 src n) n 0 0 ≡ src 0
unfolding copy upd
first_of src n pos = ground arith

-- A string that begins with a character keeps it.
pub copy_cstr_field_first : (src : Bytes) → src 0 ≢ 0 → copy_cstr_field 9 src 8 0 ≡ src 0
unfolding copy_cstr_field cstr_len
copy_cstr_field_first src ne =
    let len = cstr_len 8 src 0 in
    let some_chars : 0 < len = ground (arith, cstr_len_bound 7 src 1) in
    first_of src (if leb 9 len then 8 else len) (ground arith)

copy_cstr_field_empty : (src : Bytes) → src 0 ≡ 0 → copy_cstr_field 9 src 8 0 ≡ 0
unfolding copy_cstr_field cstr_len copy upd
copy_cstr_field_empty src e = ground (arith, e)

-- The fields that a partition in use has.
pub record IsPartition (m : Bytes) (p : ℕ) : Type 0 where
  pub base : read_be24 m p ≢ 0xff_ffff
  pub size_pos : read_be24 m (p + 3) ≢ 0
  pub size_used : read_be24 m (p + 3) ≢ 0xff_ffff
  pub block_pos : read_be16 m (p + 6) ≢ 0
  pub block_used : read_be16 m (p + 6) ≢ 0xffff
  pub frag_pos : read_be16 m (p + 8) ≢ 0
  pub frag_used : read_be16 m (p + 8) ≢ 0xffff
  pub frag_fits : read_be16 m (p + 8) ≤ read_be16 m (p + 6)
  pub typed : m (p + 0x23) ≢ 0

block_bytes :
    (m : Bytes) (p v : ℕ)
    → all_bytes m p dt_partition_size v ≡ true
    → read_be16 m (p + 6) ≡ v * 2 ^ 8 + v
unfolding read_be16
block_bytes m p v h =
    let low : m (p + 6 + 1) ≡ v =
      ap m (omega arith) ∙ all_bytes_at m p dt_partition_size v 7 h (omega arith) in
    omega (arith, low, all_bytes_at m p dt_partition_size v 6 h (omega arith))

-- A partition in use is neither all zeros nor all ones.
pub used_intro : (m : Bytes) (p : ℕ) → IsPartition m p → partition_used m p ≡ true
unfolding partition_used shift
used_intro m p part =
    let zeros : all_bytes m p dt_partition_size 0 ≡ false =
      elim (Bool-cases (all_bytes m p dt_partition_size 0)) [
        | inr e ↦ e
        | inl e ↦ absurd (part.block_pos (block_bytes m p 0 e))
      ] in
    let ones : all_bytes m p dt_partition_size 0xff ≡ false =
      elim (Bool-cases (all_bytes m p dt_partition_size 0xff)) [
        | inr e ↦ e
        | inl e ↦ absurd (part.block_used (block_bytes m p 0xff e))
      ] in
    let type : copy_cstr_field 9 (shift m (p + 0x23)) 8 0 ≡ m (p + 0x23) =
      copy_cstr_field_first (shift m (p + 0x23)) (λ e. part.typed (ap m (omega arith) ∙ e))
      ∙ ap m (omega arith) in
    rw (zeros, ones, type) (ground arith)

-- The tests of a partition in use.
pub used_elim : (m : Bytes) (p : ℕ) → partition_used m p ≡ true → IsPartition m p
unfolding partition_used shift
used_elim m p h =
    let typed : m (p + 0x23) ≢ 0 = λ e.
      let none : copy_cstr_field 9 (shift m (p + 0x23)) 8 0 ≡ 0 =
        copy_cstr_field_empty (shift m (p + 0x23)) (ap m (omega arith) ∙ e) in
      ground arith in
    record {
      base = ground arith;
      size_pos = ground arith;
      size_used = ground arith;
      block_pos = ground arith;
      block_used = ground arith;
      frag_pos = ground arith;
      frag_used = ground arith;
      frag_fits = ground arith;
      typed = typed;
    }

some_value : {A : Type 0} {a b : A} → some a ≡ some b → a ≡ b
some_value {a = a} h = ap (λ o. elim o [ none ↦ a | some x ↦ x ]) h

guard_none :
    {A : Type 0} (b : Bool) (x : Option A) {y : A}
    → (if b then none else x) ≡ some y
    → (b ≡ false) × (x ≡ some y)
guard_none true x h = absurd (none_ne_some h)
guard_none false x h = (refl, h)

-- A label that the code accepts.
pub record IsLabel (m : Bytes) (off : ℕ) : Type 0 where
  pub versioned : is_version (read_be32 m 0) ≡ true
  pub sectors_pos : read_be16 m (disktab_off + dt_secsize_off) ≢ 0
  pub sectors : read_be16 m (disktab_off + dt_secsize_off) % sector_size ≡ 0
  pub placed : mul64 (read_be32 m 4) sector_size ≡ off
  pub summed_up : (stored_checksum m ≡ 0) ⊎ (checksum_holds m ≡ true)

pub decode_intro :
    (m : Bytes) (size off : ℕ)
    → decode_size ≤ size
    → IsLabel m off
    → label_decode m size off ≡ some (label_fields m off)
unfolding label_decode label_fields
decode_intro m size off le label =
    let long : ltb size decode_size ≡ false = ground arith in
    let sec = read_be16 m (disktab_off + dt_secsize_off) in
    let sectors : (sec == 0 || not (sec % sector_size == 0)) ≡ false =
      ground (arith, label.sectors_pos, label.sectors) in
    let placed : not (mul64 (read_be32 m 4) sector_size == off) ≡ false =
      ground (arith, label.placed) in
    let sound : (not (stored_checksum m == 0) && not (checksum_holds m)) ≡ false =
      elim label.summed_up [ inl e ↦ ground arith | inr e ↦ ground arith ] in
    rw (long, label.versioned, sectors, placed, sound) refl

pub decode_elim :
    (m : Bytes) (size off : ℕ) (dl : DiskLabel)
    → label_decode m size off ≡ some dl
    → (decode_size ≤ size) × IsLabel m off × (dl ≡ label_fields m off)
unfolding label_decode label_fields
decode_elim m size off dl h =
    let sec = read_be16 m (disktab_off + dt_secsize_off) in
    let (long, h₁) = guard_none (ltb size decode_size) _ h in
    let (versioned, h₂) = guard_none (not (is_version (read_be32 m 0))) _ h₁ in
    let (sectors, h₃) = guard_none (sec == 0 || not (sec % sector_size == 0)) _ h₂ in
    let (placed, h₄) = guard_none (not (mul64 (read_be32 m 4) sector_size == off)) _ h₃ in
    let (sound, h₅) = guard_none (not (stored_checksum m == 0) && not (checksum_holds m)) _ h₄ in
    (
      ground arith,
      record {
        versioned = ground arith;
        sectors_pos = ground arith;
        sectors = ground arith;
        placed = ground arith;
        summed_up = elim (Bool-cases (checksum_holds m)) [
          | inl e ↦ inr e
          | inr e ↦ inl (ground arith)
        ];
      },
      sym (some_value h₅),
    )

-- The root partition is taken where it is in use.
pub pick_intro :
    (m : Bytes) (off i : ℕ)
    → m (disktab_off + dt_rootpart_off) ≡ letter_a + i
    → i < part_count
    → IsPartition m (partition_off i)
    → pick_slice (label_fields m off) ≡ some (slice_of (label_fields m off) i)
unfolding pick_slice label_fields decode_partition
pick_intro m off i e lt part =
    let used = used_intro m (partition_off i) part in
    let back : m (disktab_off + dt_rootpart_off) - letter_a ≡ i = omega (arith, e) in
    let first : leb letter_a (m (disktab_off + dt_rootpart_off)) ≡ true = ground (arith, e) in
    let last : ltb (m (disktab_off + dt_rootpart_off)) (letter_a + part_count) ≡ true =
      ground (arith, e) in
    let size : (read_be24 m (partition_off i + 3) == 0) ≡ false = ground (arith, part.size_pos) in
    rw (first, last, back, used, size) refl
