-- ===== src/Vdi/Materialize.antt =====
-- `nextufs_vdi_materialize_block`: a block gets its place in the file, and the disk stays the same.
use nextufs_offline.Base.{
  ℕ, ◌+◌, ◌*◌, ◌/◌, ◌^◌, ◌≤◌, ◌<◌, ◌≡◌, ◌≢◌, ◌⊎◌, refl, ◌∙◌, sym, ap, arith, true, not, ◌||◌,
  Option, none, some, leb, ◌==◌, add32, add64, mul64, inl, inr, Bool-cases, lt→ltb, ==→eq, ==_self,
}
use nextufs_offline.Memory.{Bytes, upd, copy, zeroed}
use nextufs_offline.Memory.Laws.{copy_inside, copy_elsewhere, upd_at}
use nextufs_offline.Io.{Result, ok, enospc, enomem, Os, malloc_or_fail}
use nextufs_offline.Io.Laws.{bind_ok, require_ok, require_state, pure_ok}
use nextufs_offline.Fd.{write_exact_fd}
use nextufs_offline.Fd.Laws.{IsFile, write_exact_fd_ok}
use nextufs_offline.Vdi.{
  Vdi, VdiState, Parent, unallocated, zero_entry, blocks_alloc_off, stride, block_file_off, le32,
  inherited, write_extra, vdi_write_le32, allocate_block, materialize_block,
}
use nextufs_offline.Vdi.Placing.{IsMissing, IsPlaced, upd-IsSound, placed_view}
use nextufs_offline.Vdi.View.{
  parent_byte, mapped_byte, guest_byte, place, IsGeometry, IsSound, IsAbove, entry_room,
  block_start, lift_vdi-bind, lift_vdi_ok, IsQuiet,
}

malloc_ok :
    {W : Type 0} (os : Os W) (n : ℕ) (w : W) {u : Unit {0}} {w' : W}
    → malloc_or_fail os n w ≡ (ok u, w')
    → (os.malloc n w).1 ≡ w'
unfolding malloc_or_fail
malloc_ok os n w h = require_state (os.malloc n w).0 enomem (os.malloc n w).1 h

module _ {W : Type 0} (os : Os W) (vdi : Vdi W) (geo : IsGeometry vdi) (contents : W → Bytes)
    (above : Bytes) (quiet : IsQuiet os contents) (file : IsFile vdi.fd contents)
    (over : IsAbove vdi contents above) where
  zeros_ok :
      (entry g : ℕ) (held block : Bytes) (w w' : W)
      → IsMissing entry
      → (entry ≡ unallocated → (k : ℕ) → parent_byte vdi.parent above (g + k) ≡ 0)
      → ◌≡◌ {A = Result Bytes × W} (ok zeroed, w) (ok block, w')
      → ((k : ℕ) → k < vdi.block_size → block k ≡ mapped_byte vdi held above entry (g + k))
        × ((j : ℕ) → contents w' j ≡ contents w j)
  zeros_ok entry g held block w w' missing nothing h =
      let (eb, ew) = pure_ok zeroed w h in
      (
        λ k lt. ap (λ (m : Bytes). m k) eb ∙ sym (zero_byte k),
        λ j. ap (λ (x : W). contents x j) (sym ew),
      )
    where
      zero_byte : (k : ℕ) → mapped_byte vdi held above entry (g + k) ≡ 0
      zero_byte k = elim (Bool-cases (entry == unallocated)) [
        | inl u ↦ rw u (nothing (==→eq _ _ u) k)
        | inr z ↦ let other : (entry == zero_entry) ≡ true = ground arith in rw (z, other) refl
      ]

  -- The first contents of a missing block are the bytes of the disk there.
  inherited_ok :
      (o : Option (Parent W)) (entry guest_off : ℕ) (held block : Bytes) (w w' : W)
      → vdi.parent ≡ o
      → IsMissing entry
      → inherited vdi o entry guest_off w ≡ (ok block, w')
      → ((k : ℕ) → k < vdi.block_size → block k ≡ mapped_byte vdi held above entry (guest_off + k))
        × ((j : ℕ) → contents w' j ≡ contents w j)
  unfolding inherited
  inherited_ok none entry g held block w w' e missing h =
      zeros_ok entry g held block w w' missing (λ u k. rw e refl) h
  inherited_ok (some p) entry g held block w w' e missing h =
      elim (Bool-cases (entry == unallocated)) [
        | inl u ↦
            let (bytes, kept) = over.read_ok p vdi.block_size g block w w' e (rw u at h) in
            (λ k lt. rw (u, e, lt→ltb _ _ (bytes k lt).1) (bytes k lt).0, kept)
        | inr z ↦ zeros_ok entry g held block w w' missing (λ u k. ground arith) (rw z at h)
      ]

  -- The extra area in front of a block.
  write_extra_ok :
      (off : ℕ) (w w' : W) {u : Unit {0}}
      → off + vdi.block_extra < 2 ^ 64
      → write_extra vdi os off w ≡ (ok u, w')
      → (x : ℕ) → (x < off) ⊎ (off + vdi.block_extra ≤ x)
      → contents w' x ≡ contents w x
  unfolding write_extra
  write_extra_ok off w w' small h x out = elim (Bool-cases (vdi.block_extra == 0)) [
    | inl none_there ↦ ap (λ (v : W). contents v x) (sym (pure_ok tt w (rw none_there at h)).1)
    | inr some_there ↦
        let (_, v, e₁, h₁) = bind_ok (malloc_or_fail os vdi.block_extra) _ w (rw some_there at h) in
        write_exact_fd_ok vdi.fd contents file zeroed vdi.block_extra off v w' small h₁ x
        ∙ copy_elsewhere (contents v) off zeroed vdi.block_extra x out
        ∙ ap (λ (y : W). contents y x) (sym (malloc_ok os vdi.block_extra w e₁))
        ∙ quiet.malloc_keeps vdi.block_extra w x
  ]

  -- The five writes of an allocation, as they change the file.
  writes-IsPlaced :
      (c₀ c₁ c₂ c₃ c₄ c₅ block raw raw' : Bytes) (index entry : ℕ)
      → index < vdi.block_count
      → entry < vdi.block_count
      → ((x : ℕ) → c₁ x ≡ c₀ x)
      → ((x : ℕ)
          → (x < vdi.data_offset + entry * stride vdi)
            ⊎ (vdi.data_offset + entry * stride vdi + vdi.block_extra ≤ x)
          → c₂ x ≡ c₁ x)
      → ((x : ℕ)
          → c₃ x
            ≡ copy c₂
                (vdi.data_offset + entry * stride vdi + vdi.block_extra)
                block
                vdi.block_size
                x)
      → ((x : ℕ) → c₄ x ≡ copy c₃ (vdi.map_offset + index * 4) raw 4 x)
      → ((x : ℕ) → c₅ x ≡ copy c₄ blocks_alloc_off raw' 4 x)
      → IsPlaced vdi geo c₀ c₅ block entry
  writes-IsPlaced c₀ c₁ c₂ c₃ c₄ c₅ block raw raw' index entry lti lt k₁ k₂ k₃ k₄ k₅ = record {
    earlier = λ x lo hi.
        behind x lo
        ∙ k₃ x
        ∙ copy_elsewhere c₂ (vdi.data_offset + entry * stride vdi + vdi.block_extra) block
            vdi.block_size x (inl (omega arith))
        ∙ k₂ x (inl hi)
        ∙ k₁ x;
    here = λ o near.
        behind (place vdi entry o) (omega arith)
        ∙ k₃ (place vdi entry o)
        ∙ copy_inside c₂ (vdi.data_offset + entry * stride vdi + vdi.block_extra) block
            vdi.block_size o near;
  }
    where
      behind : (x : ℕ) → vdi.data_offset ≤ x → c₅ x ≡ c₃ x
      behind x lo =
          let map_fits = geo.map_fits in
          let header = geo.header in
          k₅ x
          ∙ copy_elsewhere c₄ blocks_alloc_off raw' 4 x (inr (omega arith))
          ∙ k₄ x
          ∙ copy_elsewhere c₃ (vdi.map_offset + index * 4) raw 4 x (inr (omega arith))

  -- An allocation that succeeds: the new entry and count, and what the file then holds.
  record IsAllocation (index : ℕ) (st st' : VdiState W) : Type 0 where
    block : Bytes
    world : W
    state : st' ≡ record {
      block_map = upd st.block_map index st.blocks_allocated;
      blocks_allocated = add32 st.blocks_allocated 1;
      world = world;
    }
    placed : IsPlaced vdi geo (contents st.world) (contents world) block st.blocks_allocated
    bytes :
        (k : ℕ)
        → k < vdi.block_size
        → block k
          ≡ mapped_byte vdi
              (contents st.world)
              above
              (st.block_map index)
              (index * vdi.block_size + k)

  allocate_block_ok :
      (index : ℕ) (st st' : VdiState W) {u : Unit {0}}
      → index < vdi.block_count
      → st.blocks_allocated < vdi.block_count
      → IsMissing (st.block_map index)
      → allocate_block vdi os index (st.block_map index) st.blocks_allocated st ≡ (ok u, st')
      → IsAllocation index st st'
  unfolding allocate_block vdi_write_le32
  allocate_block_ok index st st' lti room missing h =
      let w = st.world in
      let entry = st.blocks_allocated in
      let base = vdi.data_offset + entry * stride vdi in
      let room' = entry_room entry vdi.block_count (stride vdi) room in
      let small = geo.data_fits in
      let map_fits = geo.map_fits in
      let at : block_file_off vdi entry ≡ base = omega arith in
      let at' : add64 (block_file_off vdi entry) vdi.block_extra ≡ base + vdi.block_extra =
        omega arith in
      let at_map : add64 vdi.map_offset (index * 4) ≡ vdi.map_offset + index * 4 = omega arith in
      let (_, w₁, e₁, h₁) = lift_vdi-bind (malloc_or_fail os _) _ st h in
      let (block, w₂, e₂, h₂) = lift_vdi-bind (inherited vdi vdi.parent _ _) _ _ h₁ in
      let (_, w₃, e₃, h₃) = lift_vdi-bind (write_extra vdi os _) _ _ h₂ in
      let (_, w₄, e₄, h₄) = lift_vdi-bind (write_exact_fd vdi.fd block vdi.block_size _) _ _ h₃ in
      let (_, w₅, e₅, h₅) = lift_vdi-bind (vdi_write_le32 vdi _ entry) _ _ h₄ in
      let (w₆, e₆, es) = lift_vdi_ok (vdi_write_le32 vdi blocks_alloc_off _) _ h₅ in
      let at_block = block_start vdi geo index lti in
      let (bytes, k₂) =
        inherited_ok vdi.parent (st.block_map index) (mul64 index vdi.block_size) (contents w) block
          w₁ w₂ refl missing e₂ in
      record {
        block = block;
        world = w₆;
        state = es;
        placed =
            writes-IsPlaced (contents w) (contents w₂) (contents w₃) (contents w₄) (contents w₅)
              (contents w₆) block (le32 entry) (le32 (add32 entry 1)) index entry lti room
              (λ x.
                k₂ x
                ∙ ap (λ (v : W). contents v x) (sym (malloc_ok os _ w e₁))
                ∙ quiet.malloc_keeps _ w x)
              (λ x out.
                write_extra_ok (block_file_off vdi entry) w₂ w₃ (omega arith) e₃ x (rw at out))
              (λ x.
                write_exact_fd_ok vdi.fd contents file block vdi.block_size _ w₃ w₄
                  (omega (arith, at')) e₄ x
                ∙ ap (λ (o : ℕ). copy (contents w₃) o block vdi.block_size x) at')
              (λ x.
                write_exact_fd_ok vdi.fd contents file (le32 entry) 4 _ w₄ w₅
                  (omega (arith, at_map)) e₅ x
                ∙ ap (λ (o : ℕ). copy (contents w₄) o (le32 entry) 4 x) at_map)
              (write_exact_fd_ok vdi.fd contents file (le32 (add32 entry 1)) 4 blocks_alloc_off w₅
                w₆ (omega arith) e₆);
        bytes = λ k lt.
            bytes k lt
            ∙ ap (λ (o : ℕ). mapped_byte vdi (contents w) above (st.block_map index) (o + k))
                at_block;
      }

  -- What a call has done for the block `index`.
  pub record IsMaterialized (index : ℕ) (st st' : VdiState W) : Type 0 where
    pub sound : IsSound vdi st'.block_map st'.blocks_allocated
    pub view :
        (g : ℕ)
        → g / vdi.block_size < vdi.block_count
        → guest_byte vdi (contents st'.world) above st'.block_map g
          ≡ guest_byte vdi (contents st.world) above st.block_map g
    pub present : (st'.block_map index ≢ unallocated) × (st'.block_map index ≢ zero_entry)

  allocation-IsMaterialized :
      (index : ℕ) (st st' : VdiState W)
      → IsSound vdi st.block_map st.blocks_allocated
      → index < vdi.block_count
      → st.blocks_allocated < vdi.block_count
      → IsAllocation index st st'
      → IsMaterialized index st st'
  allocation-IsMaterialized index st st' sound lti room done = rw (done.state) (record {
    sound = upd-IsSound vdi geo st.block_map st.blocks_allocated index sound room;
    view = λ g lt.
        placed_view vdi geo (contents st.world) (contents done.world) above (done.block)
          st.block_map st.blocks_allocated index g sound room lti (done.placed) (done.bytes) lt;
    present =
        let small = geo.count_small in
        let e : upd st.block_map index st.blocks_allocated index ≡ st.blocks_allocated =
          upd_at st.block_map index st.blocks_allocated index ∙ rw (==_self index) refl in
        (omega (arith, e), omega (arith, e));
  })

  -- A call that succeeds, for a block in the map: the block has its place, the map is sound, and
  -- every byte of the disk is what it was.
  pub materialize_block_ok :
      (index : ℕ) (st st' : VdiState W) {u : Unit {0}}
      → IsSound vdi st.block_map st.blocks_allocated
      → index < vdi.block_count
      → materialize_block vdi os index st ≡ (ok u, st')
      → IsMaterialized index st st'
  unfolding materialize_block
  materialize_block_ok index st st' sound lti h =
      let entry = st.block_map index in
      elim (Bool-cases (entry == unallocated || entry == zero_entry)) [
        | inl missing ↦
            let (room, h₁) =
              require_ok (not (leb vdi.block_count st.blocks_allocated)) enospc _ st
                (rw missing at h) in
            allocation-IsMaterialized index st st' sound lti (ground arith)
              (allocate_block_ok index st st' lti (ground arith) (ground arith) h₁)
        | inr there ↦
            let es = (pure_ok tt st (rw there at h)).1 in
            rw (sym es) (record {
              sound = sound;
              view = λ g lt. refl;
              present = (ground arith, ground arith);
            })
      ]
