-- ===== src/File/Reading.antt =====
-- `nextufs_inode_read_data`: it returns, and what it leaves in the buffer.
use nextufs_offline.Base.{
  ℕ, zero, suc, ◌+◌, ◌-◌, ◌/◌, ◌%◌, ◌≤◌, ◌<◌, ◌≡◌, ◌≢◌, refl, sym, ◌∙◌, ap, ==→eq, ==→ne, add64,
  arith, ◌||◌, ltb, leb, ◌==◌, min, if◌then◌else◌, Bool-cases, mul64, sub64, inl, inr,
}
use mathlib.Core.Path.{subst}
use nextufs_offline.Layout.{frag_offset}
use nextufs_offline.Memory.{Bytes, copy, clear}
use nextufs_offline.Memory.Laws.{
  Outside, copy_inside, copy_elsewhere, clear_inside, clear_elsewhere,
}
use nextufs_offline.Inode.{Inode}
use nextufs_offline.Io.{Result, ok, einval, eio, Image, read_exact}
use nextufs_offline.Io.Laws.{bind_ok, pure_ok}
use nextufs_offline.Io.Returns.{
  IsReturning, IsTotal, pure-IsReturning, fail-IsReturning, if-IsReturning, bind-IsReturning,
  require-IsReturning, or_fail-IsReturning,
}
use nextufs_offline.Alloc.Indirect.{entries_per_block, span_of, read_indirect_entry}
use nextufs_offline.File.{
  resolve_indirect_block_frag, resolve_file_slots, resolve_file_block_frag, read_chunk, read_blocks,
  inode_read_data,
}

module _ {W : Type 0} (img : Image W) (total : IsTotal img) where
  entry-IsReturning : (f i : ℕ) → IsReturning (read_indirect_entry img f i)
  unfolding read_indirect_entry
  entry-IsReturning f i =
      bind-IsReturning _ _ (require-IsReturning _ _)
        (λ u. bind-IsReturning _ _ (total.read _ _) (λ b. pure-IsReturning _))

  indirect-IsReturning : (f l i : ℕ) → IsReturning (resolve_indirect_block_frag img f l i)
  unfolding resolve_indirect_block_frag
  indirect-IsReturning f zero i = fail-IsReturning einval
  indirect-IsReturning f (suc zero) i =
      if-IsReturning (f == 0 || entries_per_block img.sb == 0) _ _ (fail-IsReturning einval)
        (or_fail-IsReturning eio _ (entry-IsReturning f i))
  indirect-IsReturning f (suc (suc l)) i =
      let span = span_of (entries_per_block img.sb) (suc l) in
      if-IsReturning (f == 0 || entries_per_block img.sb == 0) _ _ (fail-IsReturning einval) (
        bind-IsReturning _ _ (or_fail-IsReturning eio _ (entry-IsReturning f _)) (λ g.
          if-IsReturning (g == 0) _ _ (pure-IsReturning 0)
            (indirect-IsReturning g (suc l) (i % span))))

  slots-IsReturning :
      (left : ℕ) (ino : Inode) (slot span index : ℕ)
      → IsReturning (resolve_file_slots img left ino slot span index)
  unfolding resolve_file_slots
  slots-IsReturning zero ino slot span index = fail-IsReturning einval
  slots-IsReturning (suc left) ino slot span index =
      if-IsReturning (ltb index span) _ _ (indirect-IsReturning (ino.ib slot) (slot + 1) index) (
        slots-IsReturning left ino (slot + 1) (mul64 span (entries_per_block img.sb))
          (sub64 index span))

  resolve-IsReturning :
      (ino : Inode) (block : ℕ) → IsReturning (resolve_file_block_frag img ino block)
  unfolding resolve_file_block_frag
  resolve-IsReturning ino block =
      if-IsReturning (ltb block 12) _ _ (pure-IsReturning _) (slots-IsReturning 3 ino 0 _ _)

  chunk-IsReturning :
      (frag offset done chunk : ℕ) (buf : Bytes)
      → IsReturning (read_chunk img frag offset done chunk buf)
  unfolding read_chunk
  chunk-IsReturning frag offset done chunk buf =
      if-IsReturning (frag == 0) _ _ (pure-IsReturning _)
        (bind-IsReturning _ _ (total.read _ _) (λ b. pure-IsReturning _))

  blocks-IsReturning :
      (fuel : ℕ) (ino : Inode) (offset done remaining block : ℕ) (buf : Bytes)
      → offset < img.sb.block_size
      → remaining ≤ fuel
      → IsReturning (read_blocks img fuel ino offset done remaining block buf)
  unfolding read_blocks
  blocks-IsReturning zero ino offset done remaining block buf near enough =
      let z : remaining ≡ 0 = omega arith in rw z (pure-IsReturning (done, buf))
  blocks-IsReturning (suc fuel) ino offset done remaining block buf near enough =
      let room = img.sb.block_size - offset in
      let chunk = if ltb remaining room then remaining else room in
      elim (Bool-cases (ltb 0 remaining)) [
        | inr e ↦ rw e (pure-IsReturning (done, buf))
        | inl e ↦
            let less : remaining - chunk ≤ fuel = ground arith in
            rw e (
              bind-IsReturning _ _ (resolve-IsReturning ino block) (λ frag.
                bind-IsReturning _ _ (chunk-IsReturning frag offset done chunk buf) (λ buf'.
                  blocks-IsReturning fuel ino 0 (done + chunk) (remaining - chunk) (block + 1) buf'
                    (omega arith) less)))
      ]

  -- Where the operations of the backend return and the size of a block is not 0, reading the data of
  -- a file returns: the rounds of its loop are enough.
  pub inode_read_data-IsReturning :
      (ino : Inode) (start : ℕ) (buf : Bytes) (size : ℕ)
      → 0 < img.sb.block_size
      → IsReturning (inode_read_data img ino start buf size)
  unfolding inode_read_data
  inode_read_data-IsReturning ino start buf size pos =
      if-IsReturning (leb ino.size start) _ _ (pure-IsReturning _)
        (blocks-IsReturning _ ino (start % img.sb.block_size) 0 _ _ buf (omega arith) (omega arith))

-- The blocks of a file that a read goes through, and what the buffer holds of each: zeros where the
-- file has a hole, and otherwise what is read of the image at the block's fragment.
pub data IsRead {W : Type 0} (img : Image W) (ino : Inode) (b : Bytes)
    : ℕ → ℕ → ℕ → ℕ → W → W → Type 0 where
  at_end : (offset done block : ℕ) (w : W) → IsRead img ino b offset done 0 block w w
  hole :
      (offset done remaining block chunk : ℕ) (w w₁ w₂ : W)
      → 0 < remaining
      → chunk ≡ min remaining (img.sb.block_size - offset)
      → resolve_file_block_frag img ino block w ≡ (ok 0, w₁)
      → ((k : ℕ) → k < chunk → b (done + k) ≡ 0)
      → IsRead img ino b 0 (done + chunk) (remaining - chunk) (block + 1) w₁ w₂
      → IsRead img ino b offset done remaining block w w₂
  stored :
      (offset done remaining block chunk frag : ℕ) (bytes : Bytes) (w w₁ w₂ w₃ : W)
      → 0 < remaining
      → chunk ≡ min remaining (img.sb.block_size - offset)
      → resolve_file_block_frag img ino block w ≡ (ok frag, w₁)
      → frag ≢ 0
      → read_exact img chunk (add64 (frag_offset img frag) offset) w₁ ≡ (ok bytes, w₂)
      → ((k : ℕ) → k < chunk → b (done + k) ≡ bytes k)
      → IsRead img ino b 0 (done + chunk) (remaining - chunk) (block + 1) w₂ w₃
      → IsRead img ino b offset done remaining block w w₃

module _ {W : Type 0} (img : Image W) where
  chunk_elsewhere :
      (frag offset done chunk : ℕ) (buf b : Bytes) (w w' : W)
      → read_chunk img frag offset done chunk buf w ≡ (ok b, w')
      → (j : ℕ) → Outside j done chunk
      → b j ≡ buf j
  unfolding read_chunk
  chunk_elsewhere frag offset done chunk buf b w w' h j out = elim (Bool-cases (frag == 0)) [
    | inl e ↦
        ap (λ (m : Bytes). m j) (pure_ok (clear buf done chunk) w (rw e at h)).0
        ∙ clear_elsewhere buf done chunk j out
    | inr e ↦
        let (bytes, v, _, h') = bind_ok (read_exact img chunk _) _ w (rw e at h) in
        ap (λ (m : Bytes). m j) (pure_ok (copy buf done bytes chunk) v h').0
        ∙ copy_elsewhere buf done bytes chunk j out
  ]

  no_round :
      (done remaining d : ℕ) (buf b : Bytes) (w w' : W)
      → remaining ≡ 0
      → ◌≡◌ {A = Result (ℕ × Bytes) × W} (ok (done, buf), w) (ok (d, b), w')
      → (d ≡ done + remaining)
        × ((j : ℕ) → Outside j done remaining → b j ≡ buf j)
        × ((ino : Inode) (offset block : ℕ) → IsRead img ino b offset done remaining block w w')
  no_round done remaining d buf b w w' z h =
      let (e, same) = pure_ok (done, buf) w h in
      (
        ap (λ (p : ℕ × Bytes). p.0) e ∙ omega (arith, z),
        (λ j out. ap (λ (p : ℕ × Bytes). p.1 j) e),
        λ ino offset block.
            subst (λ (p : ℕ × W). IsRead img ino b offset done p.0 block w p.1)
              (λ i. (sym z i, same i)) (at_end offset done block w),
      )

  -- One block: a hole, or what is stored there.
  one_block :
      (ino : Inode) (offset done remaining block chunk frag : ℕ) (buf buf' b : Bytes)
      (w w₁ w₂ w₃ : W)
      → 0 < remaining
      → chunk ≡ min remaining (img.sb.block_size - offset)
      → resolve_file_block_frag img ino block w ≡ (ok frag, w₁)
      → read_chunk img frag offset done chunk buf w₁ ≡ (ok buf', w₂)
      → ((k : ℕ) → k < chunk → b (done + k) ≡ buf' (done + k))
      → IsRead img ino b 0 (done + chunk) (remaining - chunk) (block + 1) w₂ w₃
      → IsRead img ino b offset done remaining block w w₃
  unfolding read_chunk
  one_block ino offset done remaining block chunk frag buf buf' b w w₁ w₂ w₃ some_left is_min found
        h kept rest =
      elim (Bool-cases (frag == 0)) [
        | inl e ↦
            let (same, same_world) = pure_ok (clear buf done chunk) w₁ (rw e at h) in
            let none : frag ≡ 0 = ==→eq _ _ e in
            hole offset done remaining block chunk w w₁ w₃ some_left is_min
              (found ∙ (λ i. (ok (none i), w₁)))
              (λ k below.
                kept k below
                ∙ ap (λ (m : Bytes). m (done + k)) same
                ∙ clear_inside buf done chunk k below)
              (subst (λ v. IsRead img ino b 0 (done + chunk) (remaining - chunk) (block + 1) v w₃)
                (sym same_world) rest)
        | inr e ↦
            let (bytes, v, read, h₁) =
              bind_ok (read_exact img chunk (add64 (frag_offset img frag) offset)) _ w₁
                (rw e at h) in
            let (same, same_world) = pure_ok (copy buf done bytes chunk) v h₁ in
            stored offset done remaining block chunk frag bytes w w₁ v w₃ some_left is_min found
              (==→ne _ _ e) read
              (λ k below.
                kept k below
                ∙ ap (λ (m : Bytes). m (done + k)) same
                ∙ copy_inside buf done bytes chunk k below)
              (subst (λ x. IsRead img ino b 0 (done + chunk) (remaining - chunk) (block + 1) x w₃)
                (sym same_world) rest)
      ]

  blocks_ok :
      (fuel : ℕ) (ino : Inode) (offset done remaining block : ℕ) (buf : Bytes) (d : ℕ) (b : Bytes)
      (w w' : W)
      → offset < img.sb.block_size
      → remaining ≤ fuel
      → read_blocks img fuel ino offset done remaining block buf w ≡ (ok (d, b), w')
      → (d ≡ done + remaining)
        × ((j : ℕ) → Outside j done remaining → b j ≡ buf j)
        × IsRead img ino b offset done remaining block w w'
  unfolding read_blocks
  blocks_ok zero ino offset done remaining block buf d b w w' near enough h =
      let z : remaining ≡ 0 = omega arith in
      let (sum, kept, contents) = no_round done remaining d buf b w w' z (rw z at h) in
      (sum, kept, contents ino offset block)
  blocks_ok (suc fuel) ino offset done remaining block buf d b w w' near enough h =
      let room = img.sb.block_size - offset in
      let chunk = if ltb remaining room then remaining else room in
      elim (Bool-cases (ltb 0 remaining)) [
        | inr e ↦
            let (sum, kept, contents) =
              no_round done remaining d buf b w w' (ground arith) (rw e at h) in
            (sum, kept, contents ino offset block)
        | inl e ↦
            let (frag, v, found, h₁) =
              bind_ok (resolve_file_block_frag img ino block) _ w (rw e at h) in
            let (buf', x, e', h₂) = bind_ok (read_chunk img frag offset done chunk buf) _ v h₁ in
            let (sum, kept, contents) =
              blocks_ok fuel ino 0 (done + chunk) (remaining - chunk) (block + 1) buf' d b x w'
                (omega arith) (ground arith) h₂ in
            (
              ground arith,
              (λ j out.
                  kept j (ground arith)
                  ∙ chunk_elsewhere frag offset done chunk buf buf' v x e' j (ground arith)),
              one_block ino offset done remaining block chunk frag buf buf' b w v x w'
                  (ground arith) (ground arith) found e' (λ k below. kept (done + k) (ground arith))
                  contents,
            )
      ]

  -- Where the size of a block is not 0, a read that succeeds has read as many bytes as are asked, or
  -- are left of the file where that is less. It goes through the blocks of the file one after the
  -- other from the one the start lies in: the buffer has zeros for a hole, and otherwise the bytes
  -- of the image from the block's fragment on, the first block from its offset on. The rest of the
  -- caller's buffer is left as it was.
  pub inode_read_data_ok :
      (ino : Inode) (start : ℕ) (buf : Bytes) (size d : ℕ) (b : Bytes) (w w' : W)
      → 0 < img.sb.block_size
      → inode_read_data img ino start buf size w ≡ (ok (d, b), w')
      → (d ≡ min size (ino.size - start))
        × ((j : ℕ) → d ≤ j → b j ≡ buf j)
        × IsRead img ino b (start % img.sb.block_size) 0 d (start / img.sb.block_size) w w'
  unfolding inode_read_data
  inode_read_data_ok ino start buf size d b w w' pos h = elim (Bool-cases (leb ino.size start)) [
    | inl e ↦
        let (sum, kept, contents) = no_round 0 0 d buf b w w' refl (rw e at h) in
        (
          ground arith,
          (λ j out. kept j (inr (omega arith))),
          subst
              (λ n.
                IsRead img ino b (start % img.sb.block_size) 0 n (start / img.sb.block_size) w w')
              (sym sum) (contents ino (start % img.sb.block_size) (start / img.sb.block_size)),
        )
    | inr e ↦
        let left = ino.size - start in
        let wanted = if ltb size left then size else left in
        let (sum, kept, contents) =
          blocks_ok wanted ino (start % img.sb.block_size) 0 wanted (start / img.sb.block_size) buf
            d b w w' (omega arith) (omega arith) (rw e at h) in
        let same : wanted ≡ d = ground arith in
        (
          ground arith,
          (λ j out. kept j (inr (ground arith))),
          subst
              (λ n.
                IsRead img ino b (start % img.sb.block_size) 0 n (start / img.sb.block_size) w w')
              same contents,
        )
  ]
