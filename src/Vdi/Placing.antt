-- ===== src/Vdi/Placing.antt =====
-- A missing block gets a place in the map and in the file, and the disk stays the same.
use native.Mathlib.Nat.{mod-lt, div-add-mod, mul_comm}
use nextufs_offline.Base.{
  ℕ, ◌+◌, ◌*◌, ◌/◌, ◌%◌, ◌≤◌, ◌<◌, ◌≡◌, ◌≢◌, ◌⊎◌, refl, ◌∙◌, sym, ap, arith, false, ◌==◌, add32,
  inl, inr, Bool-cases, ==→eq,
}
use nextufs_offline.Memory.{Bytes, upd}
use nextufs_offline.Memory.Laws.{upd_at}
use nextufs_offline.Vdi.{Vdi, unallocated, zero_entry, stride}
use nextufs_offline.Vdi.View.{mapped_byte, guest_byte, place, IsGeometry, IsSound, entry_room}

-- The entry of a block that has no place yet.
abbrev pub IsMissing : ℕ → Type 0
IsMissing entry = (entry ≡ unallocated) ⊎ (entry ≡ zero_entry)

module _ {W : Type 0} (vdi : Vdi W) (geo : IsGeometry vdi) where
  -- A new place for a missing block keeps the map sound.
  pub upd-IsSound :
      (map : ℕ → ℕ) (allocated index : ℕ)
      → IsSound vdi map allocated
      → allocated < vdi.block_count
      → IsSound vdi (upd map index allocated) (add32 allocated 1)
  unfolding upd
  upd-IsSound map allocated index sound lt =
      let small = geo.count_small in
      record {
        below = omega arith;
        counted = λ i lti ne ne'. ground (arith, sound.counted i lti);
        separate = λ i j lti ltj ne ne' e.
            ground (arith, sound.separate i j lti ltj, sound.counted i lti, sound.counted j ltj);
      }

  -- What the writes of the allocation leave in the file.
  pub record IsPlaced (held later block : Bytes) (entry : ℕ) : Type 0 where
    pub earlier :
        (x : ℕ) → vdi.data_offset ≤ x → x < vdi.data_offset + entry * stride vdi → later x ≡ held x
    pub here : (o : ℕ) → o < vdi.block_size → later (place vdi entry o) ≡ block o

  -- A byte of a block that has its place below the new one, or none.
  kept_byte :
      (held later above block : Bytes) (allocated entry g : ℕ)
      → IsPlaced held later block allocated
      → (entry ≢ unallocated → entry ≢ zero_entry → entry < allocated)
      → mapped_byte vdi later above entry g ≡ mapped_byte vdi held above entry g
  kept_byte held later above block allocated entry g placed counted =
      elim (Bool-cases (entry == unallocated)) [
        | inl e ↦ rw e refl
        | inr e ↦ elim (Bool-cases (entry == zero_entry)) [
          | inl e' ↦ rw (e, e') refl
          | inr e' ↦
              let lt : entry < allocated = counted (ground arith) (ground arith) in
              let near = mod-lt g geo.block_pos in
              rw (e, e')
                (placed.earlier (place vdi entry (g % vdi.block_size)) (omega arith)
                  (omega (arith, entry_room entry allocated (stride vdi) lt)))
        ]
      ]

  -- A byte of the block that has its new place.
  new_byte :
      (held later above block : Bytes) (allocated entry index g : ℕ)
      → allocated < vdi.block_count
      → IsPlaced held later block allocated
      → ((o : ℕ)
          → o < vdi.block_size
          → block o ≡ mapped_byte vdi held above entry (index * vdi.block_size + o))
      → g / vdi.block_size ≡ index
      → mapped_byte vdi later above allocated g ≡ mapped_byte vdi held above entry g
  new_byte held later above block allocated entry index g room placed bytes e =
      let o = g % vdi.block_size in
      let near : o < vdi.block_size = mod-lt g geo.block_pos in
      let small = geo.count_small in
      let present : (allocated == unallocated) ≡ false = ground arith in
      let other : (allocated == zero_entry) ≡ false = ground arith in
      let back : index * vdi.block_size + o ≡ g = omega (
        arith,
        div-add-mod g vdi.block_size,
        ap (λ (t : ℕ). t * vdi.block_size) e,
        mul_comm (g / vdi.block_size) vdi.block_size,
      ) in
      rw (present, other) (placed.here o near)
      ∙ bytes o near
      ∙ ap (mapped_byte vdi held above entry) back

  -- The disk after a block got its place.
  pub placed_view :
      (held later above block : Bytes) (map : ℕ → ℕ) (allocated index g : ℕ)
      → IsSound vdi map allocated
      → allocated < vdi.block_count
      → index < vdi.block_count
      → IsPlaced held later block allocated
      → ((o : ℕ)
          → o < vdi.block_size
          → block o ≡ mapped_byte vdi held above (map index) (index * vdi.block_size + o))
      → g / vdi.block_size < vdi.block_count
      → guest_byte vdi later above (upd map index allocated) g ≡ guest_byte vdi held above map g
  placed_view held later above block map allocated index g sound room lti placed bytes ltg =
      elim (Bool-cases (g / vdi.block_size == index)) [
        | inl same ↦
            let e = ==→eq _ _ same in
            let at : upd map index allocated (g / vdi.block_size) ≡ allocated =
              upd_at map index allocated (g / vdi.block_size) ∙ rw same refl in
            ap (λ (x : ℕ). mapped_byte vdi later above x g) at
            ∙ new_byte held later above block allocated (map index) index g room placed bytes e
            ∙ ap (λ (x : ℕ). mapped_byte vdi held above (map x) g) (sym e)
        | inr other ↦
            let at : upd map index allocated (g / vdi.block_size) ≡ map (g / vdi.block_size) =
              upd_at map index allocated (g / vdi.block_size) ∙ rw other refl in
            ap (λ (x : ℕ). mapped_byte vdi later above x g) at
            ∙ kept_byte held later above block allocated (map (g / vdi.block_size)) g placed
                (sound.counted (g / vdi.block_size) ltg)
      ]
