-- ===== src/Alloc/Runs/Safety.antt =====
-- `nextufs__free_fragment_run` and `nextufs__extend_fragment_run` as calls: what a success has
-- written, and a run that is free already.
use nextufs_offline.Base.{
  ℕ, ◌+◌, ◌-◌, ◌/◌, ◌%◌, ◌≤◌, ◌<◌, ◌≡◌, ◌∙◌, ap, sym, arith, true, false, not, ◌&&◌, ◌||◌, Option,
  none, some, add32, ltb, leb, ◌==◌,
}
use nextufs_offline.Memory.{Bytes}
use nextufs_offline.Bitmap.{test_bit, set_run_bits}
use nextufs_offline.Bitmap.Laws.{in_run, set_run_bits_sound}
use nextufs_offline.Layout.{cg_block_offset}
use nextufs_offline.Io.{ok, err, einval, enospc, Os, Image, write_exact, now}
use nextufs_offline.Io.Laws.{bind_ok, require_ok, pure_ok, err_ne_ok}
use nextufs_offline.Cg.{free_off, load_cg}
use nextufs_offline.Alloc.Fragments.{take_partial}
use nextufs_offline.Alloc.Fragments.Laws.{test_bit-take_partial}
use nextufs_offline.Alloc.Runs.{
  release_bits, released, give_back, take_tail, extend_fragment_run, free_fragment_run,
}
use nextufs_offline.Alloc.Runs.Laws.{release_bits-some, release_bits_refuses, test_bit-give_back}

module _ {W : Type 0} (os : Os W) (img : Image W) where
  abbrev group_of : ℕ → ℕ
  group_of frag = frag / img.sb.frags_per_group

  abbrev local_of : ℕ → ℕ
  local_of frag = frag % img.sb.frags_per_group

  -- The group's block as it was read, and as it was written: the run was in use, and then its bits
  -- alone are set.
  pub record IsReleased (frag_base frags : ℕ) (w : W) : Type 0 where
    pub buf : Bytes
    pub loaded : W
    pub load_done : load_cg os img (group_of frag_base) w ≡ (ok buf, loaded)
    pub was_used :
        (i : ℕ)
        → local_of frag_base ≤ i
        → i < local_of frag_base + frags
        → test_bit buf free_off i ≡ false
    pub written : Bytes
    pub before : W
    pub after : W
    pub write_done :
        write_exact img written img.sb.cg_size (cg_block_offset img (group_of frag_base)) before
        ≡ (ok tt, after)
    pub set :
        (j : ℕ)
        → test_bit written free_off j
          ≡ (in_run (local_of frag_base) frags j || test_bit buf free_off j)

  released_ok :
      (o : Option Bytes) (w : W) {b : Bytes} {w' : W}
      → released os img o w ≡ (ok b, w')
      → (o ≡ some b) × (w ≡ w')
  unfolding released
  released_ok none w h = absurd (err_ne_ok einval w h)
  released_ok (some b) w h = let (e, e') = pure_ok b w h in (ap some (sym e), e')

  -- With at most 8 fragments per block, a release that succeeds has found every fragment of the run in use, and has written the
  -- group's block with the bits of the run set and no other bit of the map changed.
  pub free_fragment_run-IsReleased :
      (frag_base frags : ℕ) (w w' : W) {u : Unit {0}}
      → img.sb.frags_per_block ≤ 8
      → free_fragment_run os img frag_base frags w ≡ (ok u, w')
      → IsReleased frag_base frags w
  unfolding free_fragment_run
  free_fragment_run-IsReleased frag_base frags w w' small h =
      let fpb = img.sb.frags_per_block in
      let local = local_of frag_base in
      let (asked, h₁) = require_ok (not (frags == 0 || ltb fpb frags)) einval _ w h in
      let (buf, v, e₁, h₂) = bind_ok (load_cg os img (group_of frag_base)) _ w h₁ in
      let (freed, x, e₂, h₃) = bind_ok (released os img (release_bits buf local frags)) _ v h₂ in
      let (time, y, _, h₄) = bind_ok (now os) _ x h₃ in
      let (_, z, e₃, h₅) = bind_ok (write_exact img _ _ _) _ y h₄ in
      let (was, now_set) = release_bits-some buf local frags freed (released_ok _ v e₂).0 in
      record {
        buf = buf;
        loaded = v;
        load_done = e₁;
        was_used = was;
        written = give_back img.sb buf freed (local - local % fpb) frags time;
        before = y;
        after = z;
        write_done = e₃;
        set = λ j.
            test_bit-give_back img.sb buf freed (local - local % fpb) frags time small j
            ∙ now_set j;
      }

  -- A run of at most a block with a fragment that is free already is refused: the call fails with EINVAL once the
  -- group's block is read, and writes nothing.
  pub free_fragment_run_twice :
      (frag_base frags i : ℕ) (buf : Bytes) (w w₁ : W)
      → 0 < frags
      → frags ≤ img.sb.frags_per_block
      → load_cg os img (group_of frag_base) w ≡ (ok buf, w₁)
      → local_of frag_base ≤ i
      → i < local_of frag_base + frags
      → test_bit buf free_off i ≡ true
      → free_fragment_run os img frag_base frags w ≡ (err einval, w₁)
  unfolding free_fragment_run
  free_fragment_run_twice frag_base frags i buf w w₁ pos fits loaded lo hi set =
      let fpb = img.sb.frags_per_block in
      let asked : not (frags == 0 || ltb fpb frags) ≡ true = ground arith in
      let refused = release_bits_refuses buf (local_of frag_base) frags i lo hi set in
      unfold released in rw (asked, loaded, refused)

  -- The group's block as it was read, and as it was written: the added fragments were free, and then
  -- their bits alone are cleared.
  pub record IsExtended (frag_base old_frags new_frags : ℕ) (w : W) : Type 0 where
    pub buf : Bytes
    pub loaded : W
    pub load_done : load_cg os img (group_of frag_base) w ≡ (ok buf, loaded)
    pub in_block : local_of frag_base % img.sb.frags_per_block + new_frags ≤ img.sb.frags_per_block
    pub were_free :
        (i : ℕ)
        → local_of frag_base + old_frags ≤ i
        → i < local_of frag_base + new_frags
        → test_bit buf free_off i ≡ true
    pub written : Bytes
    pub before : W
    pub after : W
    pub write_done :
        write_exact img written img.sb.cg_size (cg_block_offset img (group_of frag_base)) before
        ≡ (ok tt, after)
    pub cleared :
        (j : ℕ)
        → test_bit written free_off j ≡ (
            not (in_run (local_of frag_base + old_frags) (new_frags - old_frags) j)
            && test_bit buf free_off j)

  -- With at most 8 fragments per block, an extension that succeeds has found the added fragments free, in the same block as the run,
  -- and has written the group's block with their bits cleared and no other bit of the map changed.
  pub extend_fragment_run-IsExtended :
      (frag_base old_frags new_frags : ℕ) (w w' : W) {u : Unit {0}}
      → img.sb.frags_per_block ≤ 8
      → extend_fragment_run os img frag_base old_frags new_frags w ≡ (ok u, w')
      → IsExtended frag_base old_frags new_frags w
  unfolding extend_fragment_run take_tail take_partial
  extend_fragment_run-IsExtended frag_base old_frags new_frags w w' small h =
      let fpb = img.sb.frags_per_block in
      let local = local_of frag_base in
      let added = new_frags - old_frags in
      let start = local + old_frags in
      let (asked, h₁) =
        require_ok (not (leb new_frags old_frags || ltb fpb new_frags)) einval _ w h in
      let (inside, h₂) = require_ok (leb (add32 (local % fpb) new_frags) fpb) enospc _ w h₁ in
      let (buf, v, e₁, h₃) = bind_ok (load_cg os img (group_of frag_base)) _ w h₂ in
      let (free, h₄) = require_ok (set_run_bits buf free_off start added) enospc _ v h₃ in
      let (time, y, _, h₅) = bind_ok (now os) _ v h₄ in
      let (_, z, e₃, h₆) = bind_ok (write_exact img _ _ _) _ y h₅ in
      record {
        buf = buf;
        loaded = v;
        load_done = e₁;
        in_block = ground (arith, asked, inside);
        were_free = λ i lo hi. set_run_bits_sound buf free_off start added i free lo (ground arith);
        written = take_tail buf fpb (local - local % fpb) start added time;
        before = y;
        after = z;
        write_done = e₃;
        cleared = test_bit-take_partial buf fpb added (local - local % fpb) start time small;
      }
