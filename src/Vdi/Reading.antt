-- ===== src/Vdi/Reading.antt =====
-- `nextufs_vdi_backend_read` reads the disk that the VDI stands for.
use Prim.Native.Nat.{zero-le}
use native.Mathlib.Nat.{mod-lt}
use nextufs_offline.Base.{
  ℕ, zero, suc, ◌+◌, ◌-◌, ◌/◌, ◌%◌, ◌^◌, ◌≤◌, ◌<◌, ◌≡◌, ◌≢◌, refl, ◌∙◌, sym, ap, fun_ext, arith,
  false, Option, none, some, ltb, leb, ◌==◌, if◌then◌else◌, add64, u32, inl, inr, Bool-cases,
  ltb→lt, ltb→le,
}
use nextufs_offline.Memory.{Bytes, copy, zeroed}
use nextufs_offline.Memory.Laws.{copy_inside, copy_elsewhere}
use nextufs_offline.Io.{Result, ok, or_fail, eio, read_exact}
use nextufs_offline.Io.Laws.{bind_ok, require_ok, pure_ok, hang_ne_ok, or_fail_ok}
use nextufs_offline.Fd.{read_exact_fd}
use nextufs_offline.Fd.Laws.{IsFile, read_exact_fd_ok}
use nextufs_offline.Vdi.{
  Vdi, VdiState, Parent, unallocated, zero_entry, data_file_off, read_parent, read_mapped,
  round_chunk, vdi_read_from, vdi_read, in_disk,
}
use nextufs_offline.Vdi.View.{
  parent_byte, mapped_byte, guest_byte, IsGeometry, IsSound, IsAbove, data_file_off_fits,
  data_file_off_shift, block_in_map, guest_byte_near, lift_vdi-bind,
}

module _ {W : Type 0} (vdi : Vdi W) (contents : W → Bytes) (above : Bytes)
    (over : IsAbove vdi contents above) where
  -- Bytes of a missing block.
  read_parent_ok :
      (o : Option (Parent W)) (g chunk : ℕ) (b : Bytes) (w w' : W)
      → vdi.parent ≡ o
      → read_parent vdi o g chunk w ≡ (ok b, w')
      → ((j : ℕ) → j < chunk → b j ≡ parent_byte o above (g + j))
        × ((j : ℕ) → contents w' j ≡ contents w j)
  unfolding read_parent
  read_parent_ok none g chunk b w w' e h =
      let (eb, ew) = pure_ok zeroed w h in
      (λ j lt. ap (λ (m : Bytes). m j) eb, λ j. ap (λ (x : W). contents x j) (sym ew))
  read_parent_ok (some p) g chunk b w w' e h = elim (Bool-cases (leb p.image_size g)) [
    | inl past ↦
        let (eb, ew) = pure_ok zeroed w (rw past at h) in
        (
          λ j lt. ap (λ (m : Bytes). m j) eb ∙ ground arith,
          λ j. ap (λ (x : W). contents x j) (sym ew),
        )
    | inr inside ↦
        let remaining = p.image_size - g in
        let parent_chunk = if ltb remaining chunk then remaining else chunk in
        let (got, v, e₁, h₁) =
          bind_ok (or_fail eio (read_exact p.image parent_chunk g)) _ w (rw inside at h) in
        let e₂ = or_fail_ok eio (read_exact p.image parent_chunk g) w e₁ in
        let (bytes, kept) = over.read_ok p parent_chunk g got w v e e₂ in
        let (eb, ew) = pure_ok (copy zeroed 0 got parent_chunk) v h₁ in
        (
          λ j lt. ap (λ (m : Bytes). m j) eb ∙ unfold copy in ground (arith, bytes j),
          λ j. ap (λ (x : W). contents x j) (sym ew) ∙ kept j,
        )
  ]

module _ {W : Type 0} (vdi : Vdi W) (geo : IsGeometry vdi) (contents : W → Bytes) (above : Bytes)
    (file : IsFile vdi.fd contents) (over : IsAbove vdi contents above) where
  -- A part of one block.
  read_mapped_ok :
      (e g chunk : ℕ) (b : Bytes) (w w' : W)
      → (e ≢ unallocated → e ≢ zero_entry → e < vdi.block_count)
      → g % vdi.block_size + chunk ≤ vdi.block_size
      → read_mapped vdi e g (g % vdi.block_size) chunk w ≡ (ok b, w')
      → ((j : ℕ) → j < chunk → b j ≡ mapped_byte vdi (contents w) above e (g + j))
        × ((j : ℕ) → contents w' j ≡ contents w j)
  unfolding read_mapped
  read_mapped_ok e g chunk b w w' place_of fits h = elim (Bool-cases (e == unallocated)) [
    | inl missing ↦
        let (bytes, kept) =
          read_parent_ok vdi contents above over vdi.parent g chunk b w w' refl (rw missing at h) in
        (λ j lt. bytes j lt ∙ rw missing refl, kept)
    | inr present ↦ elim (Bool-cases (e == zero_entry)) [
      | inl zeros ↦
          let (eb, ew) = pure_ok zeroed w (rw (present, zeros) at h) in
          (
            λ j lt. ap (λ (m : Bytes). m j) eb ∙ rw (present, zeros) refl,
            λ j. ap (λ (x : W). contents x j) (sym ew),
          )
      | inr other ↦
          let off = g % vdi.block_size in
          let lt = place_of (ground arith) (ground arith) in
          let e₁ =
            or_fail_ok eio (read_exact_fd vdi.fd chunk (data_file_off vdi e off)) w
              (rw (present, other) at h) in
          let near : off < vdi.block_size = mod-lt g geo.block_pos in
          let room = data_file_off_fits vdi geo e off chunk lt near fits in
          let (bytes, kept) =
            read_exact_fd_ok vdi.fd contents file chunk (data_file_off vdi e off) b w w'
              (omega (arith, room)) e₁ in
          (
            λ j lt'.
                bytes j lt'
                ∙ ap (contents w) (data_file_off_shift vdi geo e g j lt (omega arith))
                ∙ rw (present, other) refl,
            kept,
          )
    ]
  ]

  -- What a read from `done` on has found, and that it has changed nothing.
  abbrev HasReadDisk : ℕ → ℕ → ℕ → Bytes → Bytes → VdiState W → VdiState W → Type 0
  HasReadDisk size offset done out b st st' =
      ((j : ℕ)
        → done ≤ j
        → j < size
        → b j ≡ guest_byte vdi (contents st.world) above st.block_map (offset + j))
      × ((j : ℕ) → j < done → b j ≡ out j)
      × ((j : ℕ) → contents st'.world j ≡ contents st.world j)
      × (st'.block_map ≡ st.block_map)
      × (st'.blocks_allocated ≡ st.blocks_allocated)

  all_read :
      (size offset done : ℕ) (out b : Bytes) (st st' : VdiState W)
      → ltb done size ≡ false
      → ◌≡◌ {A = Result Bytes × VdiState W} (ok out, st) (ok b, st')
      → HasReadDisk size offset done out b st st'
  all_read size offset done out b st st' e h =
      let (eb, es) = pure_ok out st h in
      (
        λ j lo hi. absurd (ground arith),
        λ j lt. ap (λ (m : Bytes). m j) eb,
        λ j. ap (λ (x : VdiState W). contents x.world j) (sym es),
        ap (λ (x : VdiState W). x.block_map) (sym es),
        ap (λ (x : VdiState W). x.blocks_allocated) (sym es),
      )

  -- The bytes of one round and those of the rounds behind it.
  joined :
      (size offset done chunk : ℕ) (out part b held later : Bytes) (map : ℕ → ℕ)
      → (offset + done) % vdi.block_size + chunk ≤ vdi.block_size
      → ((k : ℕ)
          → k < chunk
          → part k
            ≡ mapped_byte vdi held above
                (map ((offset + done) / vdi.block_size))
                (offset + done + k))
      → ((j : ℕ) → later j ≡ held j)
      → ((j : ℕ) → j < done + chunk → b j ≡ copy out done part chunk j)
      → ((j : ℕ) → done + chunk ≤ j → j < size → b j ≡ guest_byte vdi later above map (offset + j))
      → (j : ℕ) → done ≤ j
      → j < size
      → b j ≡ guest_byte vdi held above map (offset + j)
  joined size offset done chunk out part b held later map fits bytes kept before rest j lo hi =
      elim (Bool-cases (ltb j (done + chunk))) [
        | inr far ↦
            rest j (ltb→le j (done + chunk) far) hi
            ∙ ap (λ (x : Bytes). guest_byte vdi x above map (offset + j)) (fun_ext kept)
        | inl near ↦
            let here : j ≡ done + (j - done) = omega arith in
            let there : offset + done + (j - done) ≡ offset + j = omega arith in
            let short : j - done < chunk = omega (arith, ltb→lt j (done + chunk) near) in
            before j (ltb→lt j (done + chunk) near)
            ∙ ap (copy out done part chunk) here
            ∙ copy_inside out done part chunk (j - done) short
            ∙ bytes (j - done) short
            ∙ guest_byte_near vdi geo held above map (offset + done) (j - done)
                (omega (arith, short, fits))
            ∙ ap (guest_byte vdi held above map) there
      ]

  read_from_ok :
      (fuel size offset done : ℕ) (out b : Bytes) (st st' : VdiState W)
      → IsSound vdi st.block_map st.blocks_allocated
      → offset + size ≤ vdi.disk_size
      → vdi_read_from vdi fuel size offset done out st ≡ (ok b, st')
      → HasReadDisk size offset done out b st st'
  unfolding vdi_read_from
  read_from_ok zero size offset done out b st st' sound inside h =
      elim (Bool-cases (ltb done size)) [
        | inr e ↦ all_read size offset done out b st st' e (rw e at h)
        | inl e ↦ absurd (hang_ne_ok st (rw e at h))
      ]
  read_from_ok (suc fuel) size offset done out b st st' sound inside h =
      elim (Bool-cases (ltb done size)) [
        | inr e ↦ all_read size offset done out b st st' e (rw e at h)
        | inl e ↦
            let small = geo.disk_small in
            let g = offset + done in
            let at : add64 offset done ≡ g = omega (arith, ltb→lt done size e) in
            let lt : g < vdi.disk_size = omega (arith, ltb→lt done size e) in
            let known = block_in_map vdi geo g lt in
            let index : u32 (g / vdi.block_size) ≡ g / vdi.block_size =
              omega (arith, known, geo.count_small) in
            let chunk = round_chunk vdi g (size - done) in
            let (in_map, h₁) =
              require_ok (ltb (g / vdi.block_size) vdi.block_count) eio _ st
                (rw (e, at, index) at h) in
            let entry = st.block_map (g / vdi.block_size) in
            let call = read_mapped vdi entry g (g % vdi.block_size) chunk in
            let (part, w₁, e₂, h₂) = lift_vdi-bind call _ st h₁ in
            let fits : g % vdi.block_size + chunk ≤ vdi.block_size =
              ground (arith, mod-lt g geo.block_pos) in
            let (bytes, kept) =
              read_mapped_ok entry g chunk part st.world w₁
                (λ ne ne'.
                  omega (arith, sound.counted (g / vdi.block_size) known ne ne', sound.below))
                fits e₂ in
            let (rest, before, kept', maps, counts) =
              read_from_ok fuel size offset (done + chunk) (copy out done part chunk) b
                (record st { world = w₁ }) st' sound inside h₂ in
            (
              joined size offset done chunk out part b (contents st.world) (contents w₁)
                  st.block_map fits bytes kept before rest,
              λ j lt'. before j (omega arith) ∙ copy_elsewhere out done part chunk j (inl lt'),
              λ j. kept' j ∙ kept j,
              maps,
              counts,
            )
      ]

  -- A read that succeeds, of less than 2^62 bytes and of a VDI whose map is sound, has read the bytes of the disk from `offset`
  -- on, and changes neither the map nor the file.
  pub vdi_read_ok :
      (size offset : ℕ) (b : Bytes) (st st' : VdiState W)
      → IsSound vdi st.block_map st.blocks_allocated
      → size < 2 ^ 62
      → vdi_read vdi size offset st ≡ (ok b, st')
      → ((j : ℕ)
          → j < size
          → b j ≡ guest_byte vdi (contents st.world) above st.block_map (offset + j))
        × ((j : ℕ) → contents st'.world j ≡ contents st.world j)
        × (st'.block_map ≡ st.block_map)
        × (st'.blocks_allocated ≡ st.blocks_allocated)
  unfolding vdi_read
  vdi_read_ok size offset b st st' sound short h =
      let (inside, h₁) = require_ok (in_disk vdi size offset) eio _ st h in
      let small = geo.disk_small in
      let fits : offset + size ≤ vdi.disk_size = ground (arith, inside) in
      let (bytes, before, kept, maps, counts) =
        read_from_ok size size offset 0 zeroed b st st' sound fits h₁ in
      (λ j lt. bytes j zero-le lt, kept, maps, counts)
