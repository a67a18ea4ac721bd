-- ===== src/Mutate/Erased.antt =====
-- The record that `nextufs__remove_dirent` erases.
use nextufs_offline.Base.{
  ℕ, zero, suc, ◌+◌, ◌-◌, ◌≡◌, ◌≢◌, ◌⊎◌, inl, inr, refl, ap, sym, ◌∙◌, Bool, true, false, not, ◌&&◌,
  ◌||◌, Option, none, some, some_injective, u16, mul64, ltb, leb, ◌==◌, ==→eq, ==→ne, if◌then◌else◌,
  Bool-cases,
}
use mathlib.Core.Path.{subst}
use nextufs_offline.Memory.{Bytes, zeroed, shift, write_be16, write_be32}
use nextufs_offline.Inode.{Inode}
use nextufs_offline.Layout.{DirentView, read_dirent, frag_offset}
use nextufs_offline.Io.{
  ok, M, or_fail, einval, eio, enoent, Os, Image, write_exact, enomem, malloc_or_fail,
}
use nextufs_offline.Io.Laws.{
  bind_ok, require_ok, pure_ok, or_fail_ok, err_ne_ok, hang_ne_ok, require_state,
}
use nextufs_offline.Alloc.Fragments.{Found, hit, exhausted, no_fuel}
use nextufs_offline.Alloc.Indirect.{Files, lift}
use nextufs_offline.File.{inode_read_data}
use nextufs_offline.Dirent.{same_bytes}
use nextufs_offline.Directory.{block_chunk}
use nextufs_offline.Mutate.{dirblksiz, update_node_times}
use nextufs_offline.Operations.Guards.{and_both}
use nextufs_offline.Mutate.Remove.{
  is_dot, unlink_record, remove_in_dirblk, remove_in_block, commit_remove, remove_in_blocks,
  remove_dirent,
}

-- One record of a block is erased: it has the name and the inode, and is neither "." nor "..". It
-- becomes free, or the record before it takes its length over.
pub record IsErased (block : Bytes) (name : Bytes) (name_len : ℕ) (b : Bytes) (removed : ℕ)
    : Type 0 where
  pub base : ℕ
  pub size : ℕ
  pub off : ℕ
  pub ent : DirentView
  pub found : read_dirent (shift block base) size off ≡ some ent
  pub inode : ent.ino ≡ removed
  pub used : ent.ino ≢ 0
  pub length : ent.namlen ≡ name_len
  pub named : same_bytes block (base + ent.name) name 0 name_len ≡ true
  pub no_dot : is_dot block (base + ent.name) name_len ≡ false
  pub erased :
      (b ≡ write_be32 block (base + off) 0)
      ⊎ ((prev : ℕ) × (prev_ent : DirentView) × (read_dirent (shift block base) size prev
            ≡ some prev_ent)
          × (b ≡ write_be16 block (base + prev + 4) (u16 (prev_ent.reclen + ent.reclen))))

named_parts :
    (ino : ℕ) (len same : Bool)
    → (not (ino == 0) && len && same) ≡ true
    → (ino ≢ 0) × (len ≡ true) × (same ≡ true)
named_parts ino len same h = elim (Bool-cases (ino == 0)) [
  | inl e ↦ absurd (cc (rw e at h))
  | inr e ↦ let (a, b) = and_both len same (rw e at h) in (==→ne _ _ e, a, b)
]

record_cases : (o : Option DirentView) → (o ≡ none) ⊎ ((ent : DirentView) × (o ≡ some ent))
record_cases none = inl refl
record_cases (some ent) = inr (ent, refl)

block_cases : (o : Option Bytes) → (o ≡ none) ⊎ ((b : Bytes) × (o ≡ some b))
block_cases none = inl refl
block_cases (some b) = inr (b, refl)

found_cases :
    {A : Type 0} (f : Found A) → ((a : A) × (f ≡ hit a)) ⊎ ((f ≡ exhausted) ⊎ (f ≡ no_fuel))
found_cases (hit a) = inl (a, refl)
found_cases exhausted = inr (inl refl)
found_cases no_fuel = inr (inr refl)

module _ (block name : Bytes) (name_len : ℕ) where
  unlinked_ok :
      (base size off : ℕ) (prev : Option ℕ) (ent : DirentView) (b : Bytes)
      → unlink_record block base size prev ent off ≡ some b
      → (b ≡ write_be32 block (base + off) 0)
        ⊎ ((prev : ℕ) × (prev_ent : DirentView) × (read_dirent (shift block base) size prev
              ≡ some prev_ent)
            × (b ≡ write_be16 block (base + prev + 4) (u16 (prev_ent.reclen + ent.reclen))))
  unfolding unlink_record
  unlinked_ok base size off none ent b h = inl (sym (some_injective h))
  unlinked_ok base size off (some prev) ent b h =
      elim (record_cases (read_dirent (shift block base) size prev)) [
        | inl e ↦ absurd (cc (rw (unlink_record, e) at h))
        | inr (prev_ent, e) ↦
            inr (prev, prev_ent, e, sym (some_injective (rw (unlink_record, e) at h)))
      ]

  dirblk_ok :
      (fuel base size off : ℕ) (prev : Option ℕ) (b : Bytes) (removed : ℕ)
      → remove_in_dirblk fuel block base size off prev name name_len ≡ hit (some (b, removed))
      → IsErased block name name_len b removed
  unfolding remove_in_dirblk
  dirblk_ok zero base size off prev b removed h = elim (Bool-cases (ltb off size)) [
    | inl e ↦ absurd (cc (rw e at h))
    | inr e ↦ absurd (cc (rw e at h))
  ]
  dirblk_ok (suc fuel) base size off prev b removed h = elim (Bool-cases (ltb off size)) [
    | inr e ↦ absurd (cc (rw e at h))
    | inl e ↦ elim (record_cases (read_dirent (shift block base) size off)) [
      | inl e₁ ↦ absurd (cc (rw (e, e₁) at h))
      | inr (ent, e₁) ↦
          elim (Bool-cases (
            not (ent.ino == 0)
            && (ent.namlen == name_len)
            && same_bytes block (base + ent.name) name 0 name_len)) [
              | inr e₂ ↦
                  dirblk_ok fuel base size (off + ent.reclen) _ b removed (rw (e, e₁, e₂) at h)
              | inl e₂ ↦ elim (Bool-cases (is_dot block (base + ent.name) name_len)) [
                | inl e₃ ↦ absurd (cc (rw (e, e₁, e₂, e₃) at h))
                | inr e₃ ↦ elim (block_cases (unlink_record block base size prev ent off)) [
                  | inl e₄ ↦ absurd (cc (rw (e, e₁, e₂, e₃, e₄) at h))
                  | inr (b', e₄) ↦
                      let same : ◌≡◌ {A = Bytes × ℕ} (b', ent.ino) (b, removed) =
                        cc (rw (e, e₁, e₂, e₃, e₄) at h) in
                      let (used, length, named) = named_parts ent.ino _ _ e₂ in
                      record {
                        base = base;
                        size = size;
                        off = off;
                        ent = ent;
                        found = e₁;
                        inode = ap (λ (p : Bytes × ℕ). p.1) same;
                        used = used;
                        length = ==→eq _ _ length;
                        named = named;
                        no_dot = e₃;
                        erased =
                            unlinked_ok base size off prev ent b
                              (e₄ ∙ ap (λ (p : Bytes × ℕ). some p.0) same);
                      }
                ]
              ]
            ]
    ]
  ]

  block_ok :
      (fuel chunk base : ℕ) (b : Bytes) (removed : ℕ)
      → remove_in_block fuel block chunk base name name_len ≡ hit (some (b, removed))
      → IsErased block name name_len b removed
  unfolding remove_in_block
  block_ok zero chunk base b removed h = elim (Bool-cases (ltb base chunk)) [
    | inl e ↦ absurd (cc (rw e at h))
    | inr e ↦ absurd (cc (rw e at h))
  ]
  block_ok (suc fuel) chunk base b removed h = elim (Bool-cases (ltb base chunk)) [
    | inr e ↦ absurd (cc (rw e at h))
    | inl e ↦
        let left = chunk - base in
        let size = if ltb dirblksiz left then dirblksiz else left in
        elim (found_cases (remove_in_dirblk size block base size 0 none name name_len)) [
          | inl (r, e₁) ↦ dirblk_ok size base size 0 none b removed (e₁ ∙ rw (e, e₁) at h)
          | inr (inl e₁) ↦ block_ok fuel chunk (base + dirblksiz) b removed (rw (e, e₁) at h)
          | inr (inr e₁) ↦ absurd (cc (rw (e, e₁) at h))
        ]
  ]

module _ {W A : Type 0} where
  pub lift_ok :
      (m : M W A) (s s' : Files W) {a : A}
      → lift m s ≡ (ok a, s')
      → (m s.world ≡ (ok a, s'.world)) × (s'.ino ≡ s.ino)
  lift_ok m s s' h = (λ i. ((h i).0, ((h i).1).world), sym (λ i. ((h i).1).ino))

-- The blocks of a directory are read one after the other, up to one where a record is erased and
-- that is written back.
pub data IsEntryErased {W : Type 0} (img : Image W) (ino : Inode) (name : Bytes) (name_len : ℕ)
    (removed : ℕ) : ℕ → ℕ → W → Type 0 where
  here :
      (remaining block_index : ℕ) (w w₁ w₂ : W) (got : ℕ × Bytes) (b : Bytes)
      → inode_read_data img ino
          (mul64 block_index img.sb.block_size)
          zeroed
          (block_chunk img remaining)
          w
        ≡ (ok got, w₁)
      → IsErased got.1 name name_len b removed
      → write_exact img b (block_chunk img remaining) (frag_offset img (ino.db block_index)) w₁
        ≡ (ok tt, w₂)
      → IsEntryErased img ino name name_len removed remaining block_index w
  further :
      (remaining block_index : ℕ) (w w₁ : W) (got : ℕ × Bytes)
      → inode_read_data img ino
          (mul64 block_index img.sb.block_size)
          zeroed
          (block_chunk img remaining)
          w
        ≡ (ok got, w₁)
      → IsEntryErased img ino name name_len removed
          (remaining - block_chunk img remaining)
          (block_index + 1)
          w₁
      → IsEntryErased img ino name name_len removed remaining block_index w

module _ {W : Type 0} (os : Os W) (img : Image W) (inode_no : ℕ) (name : Bytes) (name_len : ℕ) where
  commit_ok :
      (data_frag chunk : ℕ) (b : Bytes) (ino removed : ℕ) (s s' : Files W)
      → commit_remove os img inode_no name name_len data_frag chunk (some (b, ino)) s
        ≡ (ok removed, s')
      → (removed ≡ ino)
        × ((w : W) × (write_exact img b chunk (frag_offset img data_frag) s.world ≡ (ok tt, w)))
  unfolding commit_remove
  commit_ok data_frag chunk b ino removed s s' h =
      let (u, s₁, e, h₁) =
        bind_ok (lift (or_fail eio (write_exact img b chunk (frag_offset img data_frag)))) _ s h in
      let (v, s₂, e₁, h₂) = bind_ok (update_node_times os img inode_no) _ s₁ h₁ in
      let (written, same) = lift_ok (or_fail eio (write_exact img b chunk _)) s s₁ e in
      (
        (pure_ok ino s₂ h₂).0,
        (s₁.world, or_fail_ok eio (write_exact img b chunk _) s.world written),
      )

  refused :
      (data_frag chunk : ℕ) (removed : ℕ) (s s' : Files W)
      → commit_remove os img inode_no name name_len data_frag chunk none s ≡ (ok removed, s')
      → ⊥
  unfolding commit_remove
  refused data_frag chunk removed s s' h = err_ne_ok einval s h

  blocks_ok :
      (fuel remaining block_index : ℕ) (removed : ℕ) (s s' : Files W)
      → remove_in_blocks os img inode_no name name_len fuel remaining block_index s
        ≡ (ok removed, s')
      → IsEntryErased img s.ino name name_len removed remaining block_index s.world
  unfolding remove_in_blocks
  blocks_ok zero remaining block_index removed s s' h = elim (Bool-cases (ltb 0 remaining)) [
    | inl e ↦ absurd (hang_ne_ok s (rw e at h))
    | inr e ↦ absurd (err_ne_ok enoent s (rw e at h))
  ]
  blocks_ok (suc fuel) remaining block_index removed s s' h = elim (Bool-cases (ltb 0 remaining)) [
    | inr e ↦ absurd (err_ne_ok enoent s (rw e at h))
    | inl e ↦
        let chunk = block_chunk img remaining in
        let read = inode_read_data img s.ino (mul64 block_index img.sb.block_size) zeroed chunk in
        let (got, s₁, e₁, h₁) = bind_ok (lift (or_fail eio read)) _ s (rw e at h) in
        let (loaded, same) = lift_ok (or_fail eio read) s s₁ e₁ in
        let done = or_fail_ok eio read s.world loaded in
        let (_, h₂) =
          require_ok (not (leb 12 block_index || s.ino.db block_index == 0)) einval _ s₁ h₁ in
        elim (found_cases (remove_in_block chunk got.1 chunk 0 name name_len)) [
          | inl (none, e₂) ↦
              absurd (refused (s.ino.db block_index) chunk removed s₁ s' (rw e₂ at h₂))
          | inl (some (b, ino), e₂) ↦
              let (same_no, (w₂, written)) =
                commit_ok (s.ino.db block_index) chunk b ino removed s₁ s' (rw e₂ at h₂) in
              here remaining block_index s.world s₁.world w₂ got b done
                (block_ok got.1 name name_len chunk chunk 0 b removed
                  (e₂ ∙ (λ i. hit (some (b, sym same_no i)))))
                written
          | inr (inl e₂) ↦ further remaining block_index s.world s₁.world got done (
              subst
                (λ n.
                  IsEntryErased img n name name_len removed (remaining - chunk) (block_index + 1)
                    s₁.world)
                same
                (blocks_ok fuel (remaining - chunk) (block_index + 1) removed s₁ s' (rw e₂ at h₂)))
          | inr (inr e₂) ↦ absurd (hang_ne_ok s₁ (rw e₂ at h₂))
        ]
  ]

  pub remove_dirent_ok :
      (removed : ℕ) (s s' : Files W)
      → remove_dirent os img inode_no name name_len s ≡ (ok removed, s')
      → IsEntryErased img s.ino name name_len removed s.ino.size 0
          ((os.malloc img.sb.block_size s.world).1)
  unfolding remove_dirent malloc_or_fail
  remove_dirent_ok removed s s' h =
      let (u, s₁, had, h₁) = bind_ok (lift (malloc_or_fail os img.sb.block_size)) _ s h in
      let (allocated, same) = lift_ok (malloc_or_fail os img.sb.block_size) s s₁ had in
      let kept =
        require_state (os.malloc img.sb.block_size s.world).0 enomem
          (os.malloc img.sb.block_size s.world).1 allocated in
      subst (λ (p : Inode × W). IsEntryErased img p.0 name name_len removed p.0.size 0 p.1)
        (λ i. (same i, sym kept i)) (blocks_ok s₁.ino.size s₁.ino.size 0 removed s₁ s' h₁)
