-- ===== src/Vdi/View.antt =====
-- The disk that a VDI stands for, as a function from offsets to bytes, and the places of its blocks
-- in the file.
use native.Mathlib.Nat.{
  mul-add, mod-eq_of_lt, div-lt_iff_lt-mul, div-add-mod, div-eq_of_lt, add-mul-div_left,
  add-mul-mod_self_left,
}
use nextufs_offline.Base.{
  ℕ, ◌+◌, ◌*◌, ◌/◌, ◌%◌, ◌^◌, ◌≤◌, ◌<◌, ◌≡◌, ◌≢◌, ◌∙◌, sym, ap, arith, Option, none, some, ltb,
  ◌==◌, if◌then◌else◌, mul64,
}
use nextufs_offline.Memory.{Bytes}
use nextufs_offline.Io.{ok, M, ◌>>=◌, Os, read_exact}
use nextufs_offline.Io.Laws.{bind_ok}
use nextufs_offline.Vdi.{
  Vdi, VdiState, Parent, unallocated, zero_entry, blocks_alloc_off, stride, data_file_off, lift_vdi,
}

-- The byte of a block that is missing.
abbrev pub parent_byte : {W : Type 0} → Option (Parent W) → Bytes → ℕ → ℕ
parent_byte none above g = 0
parent_byte (some p) above g = if ltb g p.image_size then above g else 0

module _ {W : Type 0} (vdi : Vdi W) where
  -- The place in the file of byte `o` of the block with this entry.
  abbrev pub place : ℕ → ℕ → ℕ
  place entry o = vdi.data_offset + entry * stride vdi + vdi.block_extra + o

  -- Byte `g` of the disk, in a block with this entry; `above` is the parent's disk.
  abbrev pub mapped_byte : Bytes → Bytes → ℕ → ℕ → ℕ
  mapped_byte file above entry g =
      if entry == unallocated
      then parent_byte vdi.parent above g
      else if entry == zero_entry
      then 0
      else file (place entry (g % vdi.block_size))

  -- Byte `g` of the disk.
  abbrev pub guest_byte : Bytes → Bytes → (ℕ → ℕ) → ℕ → ℕ
  guest_byte file above map g = mapped_byte file above (map (g / vdi.block_size)) g

  -- The parts of the file do not overlap, and all offsets fit.
  pub record IsGeometry : Type 0 where
    pub block_pos : 0 < vdi.block_size
    pub disk : vdi.disk_size ≤ vdi.block_count * vdi.block_size
    pub disk_small : vdi.disk_size < 2 ^ 62
    pub header : blocks_alloc_off + 4 ≤ vdi.map_offset
    pub map_fits : vdi.map_offset + vdi.block_count * 4 ≤ vdi.data_offset
    pub data_fits : vdi.data_offset + vdi.block_count * stride vdi < 2 ^ 62
    pub count_small : vdi.block_count < zero_entry

  -- Each allocated block has a place of its own, below the count.
  pub record IsSound (map : ℕ → ℕ) (allocated : ℕ) : Type 0 where
    pub below : allocated ≤ vdi.block_count
    pub counted :
        (i : ℕ) → i < vdi.block_count → map i ≢ unallocated → map i ≢ zero_entry → map i < allocated
    pub separate :
        (i j : ℕ)
        → i < vdi.block_count
        → j < vdi.block_count
        → map i ≢ unallocated
        → map i ≢ zero_entry
        → map i ≡ map j
        → i ≡ j

  -- The parent's disk is `above`, and reading it leaves the file alone.
  pub record IsAbove (contents : W → Bytes) (above : Bytes) : Type 0 where
    pub read_ok :
        (p : Parent W) (size off : ℕ) (b : Bytes) (w w' : W)
        → vdi.parent ≡ some p
        → read_exact p.image size off w ≡ (ok b, w')
        → ((j : ℕ) → j < size → (b j ≡ above (off + j)) × (off + j < p.image_size))
          × ((j : ℕ) → contents w' j ≡ contents w j)

-- `entry` blocks of `s` bytes end where the next begins.
pub entry_room : (entry count s : ℕ) → entry < count → entry * s + s ≤ count * s
entry_room entry count s lt = grind arith

-- An offset in the same block.
pub same_block :
    (g j bs : ℕ) → 0 < bs → g % bs + j < bs → ((g + j) / bs ≡ g / bs) × ((g + j) % bs ≡ g % bs + j)
same_block g j bs pos lt =
    let split : g + j ≡ g % bs + j + bs * (g / bs) = omega (arith, div-add-mod g bs) in
    (
      ap (λ (x : ℕ). x / bs) split
          ∙ add-mul-div_left (g % bs + j) (g / bs) pos
          ∙ omega (arith, div-eq_of_lt lt),
      ap (λ (x : ℕ). x % bs) split
          ∙ add-mul-mod_self_left (g % bs + j) bs (g / bs)
          ∙ mod-eq_of_lt lt,
    )

module _ {W : Type 0} (vdi : Vdi W) (geo : IsGeometry vdi) where
  -- The place of an allocated block's byte lies behind the map and in the 64-bit range.
  pub place_bounds :
      (entry o : ℕ)
      → entry < vdi.block_count
      → o < vdi.block_size
      → (vdi.data_offset ≤ place vdi entry o) × (place vdi entry o < 2 ^ 62)
  place_bounds entry o lt lt' =
      omega (arith, entry_room entry vdi.block_count (stride vdi) lt, geo.data_fits)

  -- The offset that the code computes is this place.
  pub data_file_off_lem :
      (entry o : ℕ)
      → entry < vdi.block_count
      → o < vdi.block_size
      → data_file_off vdi entry o ≡ place vdi entry o
  data_file_off_lem entry o lt lt' =
      omega (arith, entry_room entry vdi.block_count (stride vdi) lt, geo.data_fits)

  -- The first byte of a block.
  pub block_start :
      (index : ℕ) → index < vdi.block_count → mul64 index vdi.block_size ≡ index * vdi.block_size
  block_start index lt = omega (
    arith,
    geo.data_fits,
    entry_room index vdi.block_count (stride vdi) lt,
    mul-add index vdi.block_size vdi.block_extra,
  )

  -- A byte of the disk has its block in the map.
  pub block_in_map : (g : ℕ) → g < vdi.disk_size → g / vdi.block_size < vdi.block_count
  block_in_map g lt = (div-lt_iff_lt-mul geo.block_pos).1 (omega (arith, lt, geo.disk))

  -- A part of the block ends inside the file's range, and its bytes follow one another.
  pub data_file_off_fits :
      (entry o n : ℕ)
      → entry < vdi.block_count
      → o < vdi.block_size
      → o + n ≤ vdi.block_size
      → data_file_off vdi entry o + n < 2 ^ 62
  data_file_off_fits entry o n lt lt' fits =
      omega (arith, entry_room entry vdi.block_count (stride vdi) lt, geo.data_fits)

  pub data_file_off_shift :
      (entry g j : ℕ)
      → entry < vdi.block_count
      → g % vdi.block_size + j < vdi.block_size
      → data_file_off vdi entry (g % vdi.block_size) + j
        ≡ place vdi entry ((g + j) % vdi.block_size)
  data_file_off_shift entry g j lt fits = omega (
    arith,
    data_file_off_lem entry (g % vdi.block_size) lt (omega arith),
    same_block g j vdi.block_size geo.block_pos fits,
  )

  -- The byte `k` behind `g`, in the same block.
  pub guest_byte_near :
      (file above : Bytes) (map : ℕ → ℕ) (g k : ℕ)
      → g % vdi.block_size + k < vdi.block_size
      → mapped_byte vdi file above (map (g / vdi.block_size)) (g + k)
        ≡ guest_byte vdi file above map (g + k)
  guest_byte_near file above map g k near =
      ap (λ (x : ℕ). mapped_byte vdi file above (map x) (g + k))
        (sym ((same_block g k vdi.block_size geo.block_pos near).0))

-- A sequence that begins with a call that leaves the fields alone, and succeeds.
pub lift_vdi-bind :
    {W A B : Type 0} (m : M W A) (k : A → M (VdiState W) B) (st : VdiState W) {b : B}
    {st' : VdiState W}
    → (lift_vdi m >>= k) st ≡ (ok b, st')
    → (a : A) × (w : W) × (m st.world ≡ (ok a, w)) × (k a (record st { world = w }) ≡ (ok b, st'))
lift_vdi-bind m k st h =
    let (a, st₁, e, rest) = bind_ok (lift_vdi m) k st h in
    (a, (m st.world).1, (λ i. ((e i).0, (m st.world).1)), (λ i. k a ((e i).1)) ∙ rest)

pub lift_vdi_ok :
    {W A : Type 0} (m : M W A) (st : VdiState W) {a : A} {st' : VdiState W}
    → lift_vdi m st ≡ (ok a, st')
    → (w : W) × (m st.world ≡ (ok a, w)) × (st' ≡ record st { world = w })
lift_vdi_ok m st h = ((m st.world).1, (λ i. ((h i).0, (m st.world).1)), sym (λ i. (h i).1))

-- An allocation of memory leaves the file alone.
pub record IsQuiet {W : Type 0} (os : Os W) (contents : W → Bytes) : Type 0 where
  pub malloc_keeps : (n : ℕ) (w : W) (j : ℕ) → contents (os.malloc n w).1 j ≡ contents w j
