-- ===== src/Vdi/Writing.antt =====
-- `nextufs_vdi_backend_write` writes to the disk that the VDI stands for.
use native.Mathlib.Nat.{mod-lt, div-add-mod}
use nextufs_offline.Base.{
  ℕ, zero, suc, ◌+◌, ◌-◌, ◌*◌, ◌/◌, ◌%◌, ◌^◌, ◌≤◌, ◌<◌, ◌≡◌, ◌≢◌, refl, ◌∙◌, sym, ap, arith, false,
  not, ◌||◌, ◌&&◌, ltb, leb, ◌==◌, if◌then◌else◌, add64, u32, inl, inr, Bool-cases, ltb→lt, ==→eq,
}
use nextufs_offline.Memory.{Bytes, copy, shift}
use nextufs_offline.Memory.Laws.{Outside, copy_elsewhere, copy-copy, copy_whole, copy_cong}
use nextufs_offline.Io.{Result, ok, eio, Os}
use nextufs_offline.Io.Laws.{bind_ok, require_ok, pure_ok, hang_ne_ok}
use nextufs_offline.Fd.Laws.{IsFile, write_exact_fd_ok}
use nextufs_offline.Vdi.{
  Vdi, VdiState, unallocated, zero_entry, stride, data_file_off, round_chunk, write_mapped,
  materialize_block, vdi_write_from, vdi_write, in_disk,
}
use nextufs_offline.Vdi.View.{
  mapped_byte, guest_byte, place, IsGeometry, IsSound, IsAbove, IsQuiet, entry_room, same_block,
  data_file_off_lem, data_file_off_fits, block_in_map, lift_vdi-bind,
}
use nextufs_offline.Vdi.Materialize.{materialize_block_ok}

-- A copy to a place that lies as far from `c + b` as `g` lies from `x`.
copy_moved :
    (held part : Bytes) (c a b g x n : ℕ)
    → b + g ≡ x + a
    → copy held (c + a) part n (c + b)
      ≡ (if leb g x && ltb x (g + n) then part (x - g) else held (c + b))
unfolding copy
copy_moved held part c a b g x n e =
    let ahead : leb (c + a) (c + b) ≡ leb g x = ground arith in
    let behind : ltb (c + b) (c + a + n) ≡ ltb x (g + n) = ground arith in
    elim (Bool-cases (leb g x)) [
      | inl le ↦
          let away : c + b - (c + a) ≡ x - g = ground arith in rw (ahead, behind, away, le) refl
      | inr gt ↦ rw (ahead, gt) refl
    ]

module _ {W : Type 0} (vdi : Vdi W) (geo : IsGeometry vdi) where
  -- The parts of two blocks do not meet.
  apart :
      (e e' o o' n : ℕ)
      → o + n ≤ vdi.block_size
      → o' < vdi.block_size
      → e ≢ e'
      → Outside (place vdi e' o') (place vdi e o) n
  apart e e' o o' n near near' ne = elim (Bool-cases (ltb e e')) [
    | inl lt ↦ inr (omega (arith, entry_room e e' (stride vdi) (ltb→lt e e' lt)))
    | inr ge ↦
        let gt : e' < e = ground arith in inl (omega (arith, entry_room e' e (stride vdi) gt))
  ]

  -- A byte of another block is not in the part of this one.
  other_block :
      (g chunk x : ℕ)
      → g % vdi.block_size + chunk ≤ vdi.block_size
      → x / vdi.block_size ≢ g / vdi.block_size
      → Outside x g chunk
  other_block g chunk x fits ne = elim (Bool-cases (leb g x && ltb x (g + chunk))) [
    | inl inside ↦
        let back : g + (x - g) ≡ x = ground arith in
        let near : g % vdi.block_size + (x - g) < vdi.block_size = ground arith in
        absurd (
          ne (
            ap (λ (t : ℕ). t / vdi.block_size) (sym back)
            ∙ (same_block g (x - g) vdi.block_size geo.block_pos near).0))
    | inr outside ↦ ground arith
  ]

  -- A byte of the block that is written to.
  written_byte :
      (held part : Bytes) (entry g chunk x : ℕ)
      → x / vdi.block_size ≡ g / vdi.block_size
      → copy held
          (place vdi entry (g % vdi.block_size))
          part
          chunk
          (place vdi entry (x % vdi.block_size))
        ≡ (if leb g x && ltb x (g + chunk)
            then part (x - g)
            else held (place vdi entry (x % vdi.block_size)))
  written_byte held part entry g chunk x same =
      copy_moved held part (vdi.data_offset + entry * stride vdi + vdi.block_extra)
        (g % vdi.block_size) (x % vdi.block_size) g x chunk
        (omega (
          arith,
          div-add-mod g vdi.block_size,
          div-add-mod x vdi.block_size,
          ap (λ (t : ℕ). vdi.block_size * t) same,
        ))

  -- A byte of a block with another entry.
  kept_byte :
      (held later above part : Bytes) (e entry off chunk x : ℕ)
      → off + chunk ≤ vdi.block_size
      → ((y : ℕ) → later y ≡ copy held (place vdi entry off) part chunk y)
      → (e ≢ unallocated → e ≢ zero_entry → e ≢ entry)
      → mapped_byte vdi later above e x ≡ mapped_byte vdi held above e x
  kept_byte held later above part e entry off chunk x fits change separate =
      elim (Bool-cases (e == unallocated)) [
        | inl missing ↦ rw missing refl
        | inr here ↦ elim (Bool-cases (e == zero_entry)) [
          | inl zeros ↦ rw (here, zeros) refl
          | inr here' ↦
              let ne : e ≢ entry = separate (ground arith) (ground arith) in
              let o = x % vdi.block_size in
              rw (here, here')
                (change (place vdi e o)
                  ∙ copy_elsewhere held (place vdi entry off) part chunk (place vdi e o)
                      (apart entry e off o chunk fits (mod-lt x geo.block_pos) (λ t. ne (sym t))))
        ]
      ]

  -- A part of one block, as the disk changes with the file.
  written_view :
      (held later above part : Bytes) (map : ℕ → ℕ) (allocated g chunk x : ℕ)
      → IsSound vdi map allocated
      → g / vdi.block_size < vdi.block_count
      → g % vdi.block_size + chunk ≤ vdi.block_size
      → (map (g / vdi.block_size) ≢ unallocated) × (map (g / vdi.block_size) ≢ zero_entry)
      → ((y : ℕ)
          → later y
            ≡ copy held (place vdi (map (g / vdi.block_size)) (g % vdi.block_size)) part chunk y)
      → x / vdi.block_size < vdi.block_count
      → guest_byte vdi later above map x ≡ copy (guest_byte vdi held above map) g part chunk x
  written_view held later above part map allocated g chunk x sound ltg fits present change ltx =
      let index = g / vdi.block_size in
      let entry = map index in
      let here : (entry == unallocated) ≡ false = ground (arith, present) in
      let here' : (entry == zero_entry) ≡ false = ground (arith, present) in
      elim (Bool-cases (x / vdi.block_size == index)) [
        | inl same ↦
            let e = ==→eq _ _ same in
            let of_entry : (file : Bytes)
                → guest_byte vdi file above map x ≡ file (place vdi entry (x % vdi.block_size)) =
              λ file.
                ap (λ (t : ℕ). mapped_byte vdi file above (map t) x) e ∙ rw (here, here') refl in
            of_entry later
            ∙ change (place vdi entry (x % vdi.block_size))
            ∙ written_byte held part entry g chunk x e
            ∙ unfold copy in rw (of_entry held) refl
        | inr other ↦
            let ne : x / vdi.block_size ≢ index = ground arith in
            kept_byte held later above part (map (x / vdi.block_size)) entry (g % vdi.block_size)
              chunk x fits change
              (λ some some' e. ne (sound.separate (x / vdi.block_size) index ltx ltg some some' e))
            ∙ sym (
                copy_elsewhere (guest_byte vdi held above map) g part chunk x
                  (other_block g chunk x fits ne))
      ]

module _ {W : Type 0} (os : Os W) (vdi : Vdi W) (geo : IsGeometry vdi) (contents : W → Bytes)
    (above : Bytes) (quiet : IsQuiet os contents) (file : IsFile vdi.fd contents)
    (over : IsAbove vdi contents above) where
  abbrev disk_of : VdiState W → Bytes
  disk_of st = guest_byte vdi (contents st.world) above st.block_map

  write_mapped_ok :
      (e g chunk : ℕ) (buf : Bytes) (w w' : W) {u : Unit {0}}
      → e < vdi.block_count
      → g % vdi.block_size + chunk ≤ vdi.block_size
      → write_mapped vdi e (g % vdi.block_size) buf chunk w ≡ (ok u, w')
      → (j : ℕ) → contents w' j ≡ copy (contents w) (place vdi e (g % vdi.block_size)) buf chunk j
  unfolding write_mapped
  write_mapped_ok e g chunk buf w w' lt fits h j =
      let off = g % vdi.block_size in
      let near : off < vdi.block_size = mod-lt g geo.block_pos in
      let (_, h₁) = require_ok (not (e == unallocated || e == zero_entry)) eio _ w h in
      let room = data_file_off_fits vdi geo e off chunk lt near fits in
      write_exact_fd_ok vdi.fd contents file buf chunk (data_file_off vdi e off) w w'
        (omega (arith, room)) h₁ j
      ∙ ap (λ (p : ℕ). copy (contents w) p buf chunk j) (data_file_off_lem vdi geo e off lt near)

  -- What the rounds from `done` on have made of the disk.
  abbrev HasWritten : Bytes → ℕ → ℕ → ℕ → VdiState W → VdiState W → Type 0
  HasWritten buf size offset done st st' =
      IsSound vdi st'.block_map st'.blocks_allocated
      × ((x : ℕ)
          → x / vdi.block_size < vdi.block_count
          → disk_of st' x ≡ copy (disk_of st) (offset + done) (shift buf done) (size - done) x)

  all_written :
      (buf : Bytes) (size offset done : ℕ) (st st' : VdiState W) {u : Unit {0}}
      → IsSound vdi st.block_map st.blocks_allocated
      → ltb done size ≡ false
      → ◌≡◌ {A = Result (Unit {0}) × VdiState W} (ok tt, st) (ok u, st')
      → HasWritten buf size offset done st st'
  all_written buf size offset done st st' sound e h =
      let es = (pure_ok tt st h).1 in
      rw (sym es) (
        sound,
        λ x lt. sym (
            copy_elsewhere (disk_of st) (offset + done) (shift buf done) (size - done) x
              (ground arith)),
      )

  write_from_ok :
      (fuel : ℕ) (buf : Bytes) (size offset done : ℕ) (st st' : VdiState W) {u : Unit {0}}
      → IsSound vdi st.block_map st.blocks_allocated
      → offset + size ≤ vdi.disk_size
      → vdi_write_from vdi os fuel buf size offset done st ≡ (ok u, st')
      → HasWritten buf size offset done st st'
  unfolding vdi_write_from
  write_from_ok zero buf size offset done st st' sound inside h =
      elim (Bool-cases (ltb done size)) [
        | inr e ↦ all_written buf size offset done st st' sound e (rw e at h)
        | inl e ↦ absurd (hang_ne_ok st (rw e at h))
      ]
  write_from_ok (suc fuel) buf size offset done st st' sound inside h =
      elim (Bool-cases (ltb done size)) [
        | inr e ↦ all_written buf size offset done st st' sound e (rw e at h)
        | inl e ↦
            let small = geo.disk_small in
            let g = offset + done in
            let index = g / vdi.block_size in
            let at : add64 offset done ≡ g = omega (arith, ltb→lt done size e) in
            let known = block_in_map vdi geo g (omega (arith, ltb→lt done size e)) in
            let same : u32 index ≡ index = omega (arith, known, geo.count_small) in
            let chunk = round_chunk vdi g (size - done) in
            let fits : g % vdi.block_size + chunk ≤ vdi.block_size =
              ground (arith, mod-lt g geo.block_pos) in
            let (_, h₁) = require_ok (ltb index vdi.block_count) eio _ st (rw (e, at, same) at h) in
            let (_, st₁, e₁, h₂) = bind_ok (materialize_block vdi os index) _ st h₁ in
            let done₁ =
              materialize_block_ok os vdi geo contents above quiet file over index st st₁ sound
                known e₁ in
            let entry = st₁.block_map index in
            let (_, w₂, e₂, h₃) =
              lift_vdi-bind (write_mapped vdi entry (g % vdi.block_size) (shift buf done) chunk) _
                st₁ h₂ in
            let placed : entry < vdi.block_count = omega (
              arith,
              done₁.sound.counted index known done₁.present.0 done₁.present.1,
              done₁.sound.below,
            ) in
            let change =
              write_mapped_ok entry g chunk (shift buf done) st₁.world w₂ placed fits e₂ in
            let (sound', rest) =
              write_from_ok fuel buf size offset (done + chunk) (record st₁ { world = w₂ }) st'
                done₁.sound inside h₃ in
            (
              sound',
              λ x lt.
                  rest x lt
                  ∙ copy-copy (disk_of st) (guest_byte vdi (contents w₂) above st₁.block_map) buf
                      offset g done chunk size x (ltb→lt done size e) (ground arith) refl
                      (written_view vdi geo (contents st₁.world) (contents w₂) above
                          (shift buf done) st₁.block_map st₁.blocks_allocated g chunk x done₁.sound
                          known fits done₁.present change lt
                        ∙ copy_cong (disk_of st₁) (disk_of st) (shift buf done) g chunk x
                            (done₁.view x lt)),
            )
      ]

  -- A write that succeeds, of less than 2^62 bytes and to a VDI whose map is sound, leaves a sound
  -- map, and makes of the disk the old one with the bytes written at `offset`.
  pub vdi_write_ok :
      (buf : Bytes) (size offset : ℕ) (st st' : VdiState W) {u : Unit {0}}
      → IsSound vdi st.block_map st.blocks_allocated
      → size < 2 ^ 62
      → vdi_write vdi os buf size offset st ≡ (ok u, st')
      → IsSound vdi st'.block_map st'.blocks_allocated
        × ((x : ℕ)
            → x < vdi.disk_size
            → guest_byte vdi (contents st'.world) above st'.block_map x
              ≡ copy (guest_byte vdi (contents st.world) above st.block_map) offset buf size x)
  unfolding vdi_write
  vdi_write_ok buf size offset st st' sound short h =
      let (inside, h₁) = require_ok (in_disk vdi size offset) eio _ st h in
      let small = geo.disk_small in
      let fits : offset + size ≤ vdi.disk_size = ground (arith, inside) in
      let (sound', bytes) = write_from_ok size buf size offset 0 st st' sound fits h₁ in
      (
        sound',
        λ x lt. bytes x (block_in_map vdi geo x lt) ∙ copy_whole (disk_of st) buf offset size x,
      )
