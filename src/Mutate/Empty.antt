-- ===== src/Mutate/Empty.antt =====
-- What `nextufs__directory_is_empty` has seen where it answers yes.
use nextufs_offline.Base.{
  ℕ, zero, suc, ◌+◌, ◌-◌, ◌≤◌, ◌≡◌, ◌⊎◌, inl, inr, refl, sym, ap, ◌∙◌, arith, Bool, true, false,
  ◌&&◌, Option, none, some, some_injective, mul64, ltb, ◌==◌, ==→eq, Bool-cases,
}
use mathlib.Core.Path.{subst}
use nextufs_offline.Memory.{Bytes, zeroed}
use nextufs_offline.Inode.{Inode}
use nextufs_offline.Layout.{DirentView, read_dirent}
use nextufs_offline.Io.{Result, ok, err, hang, M, pure, Os, Image, malloc_or_fail, enomem}
use nextufs_offline.Io.Laws.{bind_ok, pure_ok, hang_ne_ok, if_call, require_state}
use nextufs_offline.Cg.{is_dir_mode}
use nextufs_offline.File.{inode_read_data}
use nextufs_offline.Directory.{block_chunk}
use nextufs_offline.Mutate.Parent.{
  is_self_name, is_parent_name, Seen, see, see_block, see_blocks, false_on_error,
  directory_is_empty,
}

-- The records of a block from `off` on: each is free, or "." of the directory itself, or ".." of
-- its parent. The marks say whether "." and ".." are seen, before and behind these records.
pub data OnlyDots (self_ino parent_ino : ℕ) (block : Bytes) (chunk : ℕ)
    : ℕ → Bool → Bool → Bool → Bool → Type 0 where
  over :
      (off : ℕ) (dot dotdot : Bool)
      → chunk ≤ off
      → OnlyDots self_ino parent_ino block chunk off dot dotdot dot dotdot
  free :
      (off : ℕ) (dot dotdot d dd : Bool) (ent : DirentView)
      → read_dirent block chunk off ≡ some ent
      → ent.ino ≡ 0
      → OnlyDots self_ino parent_ino block chunk (off + ent.reclen) dot dotdot d dd
      → OnlyDots self_ino parent_ino block chunk off dot dotdot d dd
  self :
      (off : ℕ) (dot dotdot d dd : Bool) (ent : DirentView)
      → read_dirent block chunk off ≡ some ent
      → is_self_name block ent ≡ true
      → ent.ino ≡ self_ino
      → OnlyDots self_ino parent_ino block chunk (off + ent.reclen) true dotdot d dd
      → OnlyDots self_ino parent_ino block chunk off dot dotdot d dd
  parent :
      (off : ℕ) (dot dotdot d dd : Bool) (ent : DirentView)
      → read_dirent block chunk off ≡ some ent
      → is_parent_name block ent ≡ true
      → ent.ino ≡ parent_ino
      → OnlyDots self_ino parent_ino block chunk (off + ent.reclen) dot true d dd
      → OnlyDots self_ino parent_ino block chunk off dot dotdot d dd

module _ (self_ino parent_ino : ℕ) (block : Bytes) where
  seen_cases : (o : Seen) → (o ≡ none) ⊎ ((d dd : Bool) × (o ≡ some (d, dd)))
  seen_cases none = inl refl
  seen_cases (some (d, dd)) = inr (d, dd, refl)

  record_cases : (o : Option DirentView) → (o ≡ none) ⊎ ((ent : DirentView) × (o ≡ some ent))
  record_cases none = inl refl
  record_cases (some ent) = inr (ent, refl)

  abbrev IsSeen : DirentView → Bool → Bool → Bool → Bool → Type 0
  IsSeen ent dot dotdot a b =
      ((ent.ino ≡ 0) × (dot ≡ a) × (dotdot ≡ b))
      ⊎ (((is_self_name block ent ≡ true) × (ent.ino ≡ self_ino) × (true ≡ a) × (dotdot ≡ b))
          ⊎ ((is_parent_name block ent ≡ true) × (ent.ino ≡ parent_ino) × (dot ≡ a) × (true ≡ b)))

  see_ok :
      (ent : DirentView) (dot dotdot a b : Bool)
      → see self_ino parent_ino block ent dot dotdot ≡ some (a, b)
      → IsSeen ent dot dotdot a b
  unfolding see
  see_ok ent dot dotdot a b h = elim (Bool-cases (ent.ino == 0)) [
    | inl e ↦
        let same : ◌≡◌ {A = Bool × Bool} (dot, dotdot) (a, b) = some_injective (rw e at h) in
        inl (==→eq _ _ e, ap (λ (p : Bool × Bool). p.0) same, ap (λ (p : Bool × Bool). p.1) same)
    | inr e ↦ elim (Bool-cases (is_self_name block ent)) [
      | inl e₁ ↦ elim (Bool-cases (ent.ino == self_ino)) [
        | inl e₂ ↦
            let same : ◌≡◌ {A = Bool × Bool} (true, dotdot) (a, b) =
              some_injective (rw (e, e₁, e₂) at h) in
            inr (
              inl (
                e₁,
                ==→eq _ _ e₂,
                ap (λ (p : Bool × Bool). p.0) same,
                ap (λ (p : Bool × Bool). p.1) same,
              ))
        | inr e₂ ↦ absurd (cc (rw (e, e₁, e₂) at h))
      ]
      | inr e₁ ↦ elim (Bool-cases (is_parent_name block ent)) [
        | inr e₂ ↦ absurd (cc (rw (e, e₁, e₂) at h))
        | inl e₂ ↦ elim (Bool-cases (ent.ino == parent_ino)) [
          | inl e₃ ↦
              let same : ◌≡◌ {A = Bool × Bool} (dot, true) (a, b) =
                some_injective (rw (e, e₁, e₂, e₃) at h) in
              inr (
                inr (
                  e₂,
                  ==→eq _ _ e₃,
                  ap (λ (p : Bool × Bool). p.0) same,
                  ap (λ (p : Bool × Bool). p.1) same,
                ))
          | inr e₃ ↦ absurd (cc (rw (e, e₁, e₂, e₃) at h))
        ]
      ]
    ]
  ]

  nothing_left :
      (chunk off : ℕ) (dot dotdot d dd : Bool)
      → ltb off chunk ≡ false
      → ◌≡◌ {A = Seen} (some (dot, dotdot)) (some (d, dd))
      → OnlyDots self_ino parent_ino block chunk off dot dotdot d dd
  nothing_left chunk off dot dotdot d dd over_it h =
      let same : ◌≡◌ {A = Bool × Bool} (dot, dotdot) (d, dd) = some_injective h in
      subst (λ (p : Bool × Bool). OnlyDots self_ino parent_ino block chunk off dot dotdot p.0 p.1)
        same (over off dot dotdot (ground arith))

  from_marks :
      (chunk off : ℕ) (x y a b d dd : Bool)
      → x ≡ a
      → y ≡ b
      → OnlyDots self_ino parent_ino block chunk off a b d dd
      → OnlyDots self_ino parent_ino block chunk off x y d dd
  from_marks chunk off x y a b d dd e e' h =
      subst (λ (p : Bool × Bool). OnlyDots self_ino parent_ino block chunk off p.0 p.1 d dd)
        (λ i. (sym e i, sym e' i)) h

  one_more :
      (chunk off : ℕ) (dot dotdot a b d dd : Bool) (ent : DirentView)
      → read_dirent block chunk off ≡ some ent
      → IsSeen ent dot dotdot a b
      → OnlyDots self_ino parent_ino block chunk (off + ent.reclen) a b d dd
      → OnlyDots self_ino parent_ino block chunk off dot dotdot d dd
  one_more chunk off dot dotdot a b d dd ent e (inl (no_inode, x, y)) rest =
      free off dot dotdot d dd ent e no_inode
        (from_marks chunk (off + ent.reclen) _ _ a b d dd x y rest)
  one_more chunk off dot dotdot a b d dd ent e (inr (inl (name, own, x, y))) rest =
      self off dot dotdot d dd ent e name own
        (from_marks chunk (off + ent.reclen) _ _ a b d dd x y rest)
  one_more chunk off dot dotdot a b d dd ent e (inr (inr (name, own, x, y))) rest =
      parent off dot dotdot d dd ent e name own
        (from_marks chunk (off + ent.reclen) _ _ a b d dd x y rest)

  pub see_block-OnlyDots :
      (fuel chunk off : ℕ) (dot dotdot d dd : Bool)
      → see_block fuel self_ino parent_ino block chunk off dot dotdot ≡ some (d, dd)
      → OnlyDots self_ino parent_ino block chunk off dot dotdot d dd
  unfolding see_block
  see_block-OnlyDots zero chunk off dot dotdot d dd h = elim (Bool-cases (ltb off chunk)) [
    | inl e ↦ absurd (cc (rw e at h))
    | inr e ↦ nothing_left chunk off dot dotdot d dd e (rw e at h)
  ]
  see_block-OnlyDots (suc fuel) chunk off dot dotdot d dd h = elim (Bool-cases (ltb off chunk)) [
    | inr e ↦ nothing_left chunk off dot dotdot d dd e (rw e at h)
    | inl e ↦ elim (record_cases (read_dirent block chunk off)) [
      | inl e₁ ↦ absurd (cc (rw (e, e₁) at h))
      | inr (ent, e₁) ↦ elim (seen_cases (see self_ino parent_ino block ent dot dotdot)) [
        | inl e₂ ↦ absurd (cc (rw (e, e₁, e₂) at h))
        | inr (a, b, e₂) ↦
            one_more chunk off dot dotdot a b d dd ent e₁ (see_ok ent dot dotdot a b e₂)
              (see_block-OnlyDots fuel chunk (off + ent.reclen) a b d dd (rw (e, e₁, e₂) at h))
      ]
    ]
  ]

-- All blocks of a directory hold only such records, and both "." and ".." are seen.
pub data EveryBlockEmpty {W : Type 0} (img : Image W) (self_ino parent_ino : ℕ) (ino : Inode)
    : ℕ → ℕ → Bool → Bool → W → Type 0 where
  all_seen :
      (block_index : ℕ) (w : W)
      → EveryBlockEmpty img self_ino parent_ino ino 0 block_index true true w
  block :
      (remaining block_index : ℕ) (dot dotdot d dd : Bool) (w w₁ : W) (got : ℕ × Bytes)
      → inode_read_data img ino
          (mul64 block_index img.sb.block_size)
          zeroed
          (block_chunk img remaining)
          w
        ≡ (ok got, w₁)
      → OnlyDots self_ino parent_ino got.1 (block_chunk img remaining) 0 dot dotdot d dd
      → EveryBlockEmpty img self_ino parent_ino ino
          (remaining - block_chunk img remaining)
          (block_index + 1)
          d
          dd
          w₁
      → EveryBlockEmpty img self_ino parent_ino ino remaining block_index dot dotdot w

module _ {W : Type 0} (os : Os W) (img : Image W) (self_ino parent_ino : ℕ) (ino : Inode) where
  abbrev EmptyFrom : ℕ → ℕ → Bool → Bool → W → Type 0
  EmptyFrom remaining block_index dot dotdot w =
      EveryBlockEmpty img self_ino parent_ino ino remaining block_index dot dotdot w

  all_blocks :
      (remaining block_index : ℕ) (dot dotdot : Bool) (w w' : W)
      → ltb 0 remaining ≡ false
      → pure {S = W} (dot && dotdot) w ≡ (ok true, w')
      → EmptyFrom remaining block_index dot dotdot w
  all_blocks remaining block_index true true w w' end h =
      let none_left : 0 ≡ remaining = ground arith in
      subst (λ n. EmptyFrom n block_index true true w) none_left (all_seen block_index w)
  all_blocks remaining block_index true false w w' end h = absurd (cc ((pure_ok false w h).0))
  all_blocks remaining block_index false dotdot w w' end h = absurd (cc ((pure_ok false w h).0))

  see_blocks_ok :
      (fuel remaining block_index : ℕ) (dot dotdot : Bool) (w w' : W)
      → see_blocks os img fuel self_ino parent_ino ino remaining block_index dot dotdot w
        ≡ (ok true, w')
      → EmptyFrom remaining block_index dot dotdot w
  unfolding see_blocks
  see_blocks_ok zero remaining block_index dot dotdot w w' h = elim (Bool-cases (ltb 0 remaining)) [
    | inl e ↦ absurd (hang_ne_ok w (rw e at h))
    | inr e ↦ all_blocks remaining block_index dot dotdot w w' e (rw e at h)
  ]
  see_blocks_ok (suc fuel) remaining block_index dot dotdot w w' h =
      elim (Bool-cases (ltb 0 remaining)) [
        | inr e ↦ all_blocks remaining block_index dot dotdot w w' e (rw e at h)
        | inl e ↦
            let chunk = block_chunk img remaining in
            let read = inode_read_data img ino (mul64 block_index img.sb.block_size) zeroed chunk in
            let (got, w₁, e₁, h₁) = bind_ok read _ w (rw e at h) in
            elim (seen_cases self_ino parent_ino got.1
              (see_block chunk self_ino parent_ino got.1 chunk 0 dot dotdot)) [
                | inl e₂ ↦ absurd (cc ((pure_ok false w₁ (rw e₂ at h₁)).0))
                | inr (d, dd, e₂) ↦
                    block remaining block_index dot dotdot d dd w w₁ got e₁
                      (see_block-OnlyDots self_ino parent_ino got.1 chunk chunk 0 dot dotdot d dd
                        e₂)
                      (see_blocks_ok fuel (remaining - chunk) (block_index + 1) d dd w₁ w'
                        (rw e₂ at h₁))
              ]
      ]

  false_on_error_ok :
      (m : M W Bool) (r : Result Bool) (w w' : W)
      → (m w).0 ≡ r
      → false_on_error os img m w ≡ (ok true, w')
      → m w ≡ (ok true, w')
  unfolding false_on_error
  false_on_error_ok m (ok b) w w' e h = (λ i. (e i, (m w).1)) ∙ (rw (e, false_on_error) at h)
  false_on_error_ok m (err x) w w' e h =
      absurd (cc ((pure_ok false _ (rw (e, false_on_error) at h)).0))
  false_on_error_ok m hang w w' e h = absurd (hang_ne_ok _ (rw (e, false_on_error) at h))

  -- A directory that counts as empty has been read to its end.
  pub directory_is_empty_ok :
      (w w' : W)
      → directory_is_empty os img self_ino ino parent_ino w ≡ (ok true, w')
      → EmptyFrom ino.size 0 false false ((os.malloc img.sb.block_size w).1)
  unfolding directory_is_empty malloc_or_fail
  directory_is_empty_ok w w' h = elim (if_call (is_dir_mode ino.mode) _ _ w h) [
    | inr (_, h₁) ↦ absurd (cc ((pure_ok false w h₁).0))
    | inl (_, h₁) ↦
        let (u, w₁, had, h₂) =
          bind_ok (malloc_or_fail os img.sb.block_size)
            (λ _. see_blocks os img ino.size self_ino parent_ino ino ino.size 0 false false) w
            (false_on_error_ok _ _ w w' refl h₁) in
        let kept =
          require_state (os.malloc img.sb.block_size w).0 enomem (os.malloc img.sb.block_size w).1
            had in
        subst (λ v. EmptyFrom ino.size 0 false false v) (sym kept)
          (see_blocks_ok ino.size ino.size 0 false false w₁ w' h₂)
  ]
