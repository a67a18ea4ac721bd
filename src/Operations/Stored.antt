-- ===== src/Operations/Stored.antt =====
-- What `nextufs__rewrite_inode_contents` stores.
use nextufs_offline.Base.{
  ℕ, zero, suc, ◌+◌, ◌-◌, ◌/◌, ◌≤◌, ◌<◌, ◌≡◌, refl, sym, ap, ◌∙◌, arith, min, inl, inr, false,
  add32, u32, mul32, mul64, ltb, if◌then◌else◌, Bool-cases,
}
use mathlib.Core.Path.{subst}
use nextufs_offline.Memory.{Bytes, zeroed, shift, copy}
use nextufs_offline.Memory.Laws.{copy_inside, copy_elsewhere}
use nextufs_offline.Inode.{Inode}
use nextufs_offline.Layout.{write_inode_raw, frag_offset}
use nextufs_offline.Io.{
  Result, ok, err, hang, M, ◌>>◌, pure, Os, Image, now, write_exact, malloc_or_fail, enomem,
  image_fsync,
}
use nextufs_offline.Io.Laws.{bind_ok, pure_ok, err_ne_ok, hang_ne_ok, require_state, at_same}
use nextufs_offline.Alloc.Fragments.{allocate_frags_anycg}
use nextufs_offline.Alloc.Runs.{free_fragment_run}
use nextufs_offline.Alloc.Indirect.{Files, lift, on_error, set_inode_data_block}
use nextufs_offline.Alloc.Storage.{
  chunk_of, frags_of, free_file_storage, allocate_one_block, allocate_blocks,
  allocate_data_for_inode,
}
use nextufs_offline.Mutate.{set_times}
use nextufs_offline.Mutate.Erased.{lift_ok}
use nextufs_offline.Path.{Node}
use nextufs_offline.Operations.{run_on}
use nextufs_offline.Operations.Inodes.{clear_inode_layout, rewrite_inode_contents}
use nextufs_offline.Operations.Contents.{rewrite_target}
use nextufs_offline.Operations.Effects.{run_on_ok}

-- A call whose clean-up is not run.
module _ {S A B : Type 0} (m : M S A) (handler : M S B) (s : S) where
  on_error_lem :
      (r : Result A) {a : A} {s' : S}
      → (m s).0 ≡ r
      → on_error m handler s ≡ (ok a, s')
      → m s ≡ (ok a, s')
  on_error_lem (ok a) e h = (λ i. (e i, (m s).1)) ∙ (rw (e, on_error) at h)
  on_error_lem (err x) e h = absurd (err_ne_ok x _ (rw (e, on_error) at h))
  on_error_lem hang e h = absurd (hang_ne_ok _ (rw (e, on_error) at h))

  pub on_error_ok : {a : A} {s' : S} → on_error m handler s ≡ (ok a, s') → m s ≡ (ok a, s')
  on_error_ok h = on_error_lem (m s).0 refl h

-- One block of the data: fragments are allocated for it and entered in the inode, and the bytes that
-- are written to them are those of the data, and zeros behind.
pub record IsBlockStored {W : Type 0} (os : Os W) (img : Image W) (cg : ℕ) (bytes : Bytes)
    (block chunk : ℕ) (s s' : Files W) : Type 0 where
  pub frag : ℕ
  pub allocated : Files W
  pub has_space :
      allocate_frags_anycg os img cg (frags_of img.sb block chunk) s.world
      ≡ (ok frag, allocated.world)
  pub same_inode : allocated.ino ≡ s.ino
  pub entered : Files W
  pub entry : set_inode_data_block os img block frag cg allocated ≡ (ok tt, entered)
  pub contents : Bytes
  pub from_data : (k : ℕ) → k < chunk → contents k ≡ bytes (mul64 block img.sb.block_size + k)
  pub padding : (k : ℕ) → chunk ≤ k → contents k ≡ 0
  pub written :
      write_exact img contents
        (mul64 (frags_of img.sb block chunk) img.sb.frag_size)
        (frag_offset img frag)
        ((os.malloc (mul64 (frags_of img.sb block chunk) img.sb.frag_size) entered.world).1)
      ≡ (ok tt, s'.world)

-- The blocks of the data, one after the other.
pub data IsStored {W : Type 0} (os : Os W) (img : Image W) (cg : ℕ) (bytes : Bytes)
    : ℕ → ℕ → Files W → Files W → Type 0 where
  at_end : (block : ℕ) (s : Files W) → IsStored os img cg bytes 0 block s s
  next :
      (remaining block chunk : ℕ) (s s₁ s₂ : Files W)
      → 0 < remaining
      → chunk ≡ min remaining img.sb.block_size
      → IsBlockStored os img cg bytes block chunk s s₁
      → IsStored os img cg bytes (remaining - chunk) (add32 block 1) s₁ s₂
      → IsStored os img cg bytes remaining block s s₂

module _ {W : Type 0} (os : Os W) (img : Image W) where
  one_block-IsBlockStored :
      (cg : ℕ) (bytes : Bytes) (block chunk : ℕ) (s s' : Files W)
      → allocate_one_block os img cg bytes block chunk s ≡ (ok tt, s')
      → IsBlockStored os img cg bytes block chunk s s'
  unfolding allocate_one_block malloc_or_fail shift
  one_block-IsBlockStored cg bytes block chunk s s' h =
      let needed = frags_of img.sb block chunk in
      let amount = mul64 needed img.sb.frag_size in
      let contents = copy zeroed 0 (shift bytes (mul64 block img.sb.block_size)) chunk in
      let (frag, s₁, e₁, h₁) = bind_ok (lift (allocate_frags_anycg os img cg needed)) _ s h in
      let (space, same) = lift_ok (allocate_frags_anycg os img cg needed) s s₁ e₁ in
      let (u, s₂, e₂, h₂) =
        bind_ok
          (on_error (set_inode_data_block os img block frag cg)
            (lift (free_fragment_run os img frag needed)))
          _ s₁ h₁ in
      let entry =
        on_error_ok (set_inode_data_block os img block frag cg)
          (lift (free_fragment_run os img frag needed)) s₁ e₂ in
      let (v, s₃, e₃, h₃) = bind_ok (lift (malloc_or_fail os amount)) _ _ h₂ in
      let (had, _) = lift_ok (malloc_or_fail os amount) _ s₃ e₃ in
      let kept =
        require_state (os.malloc amount s₂.world).0 enomem (os.malloc amount s₂.world).1 had in
      let (written, _) =
        lift_ok (write_exact img contents amount (frag_offset img frag)) s₃ s' h₃ in
      record {
        frag = frag;
        allocated = s₁;
        has_space = space;
        same_inode = same;
        entered = s₂;
        entry = entry;
        contents = contents;
        from_data = λ k below.
            ap contents (omega arith)
            ∙ copy_inside zeroed 0 (shift bytes (mul64 block img.sb.block_size)) chunk k below;
        padding = λ k behind.
            copy_elsewhere zeroed 0 (shift bytes (mul64 block img.sb.block_size)) chunk k
              (inr (omega arith));
        written = at_same (write_exact img contents amount (frag_offset img frag)) kept written;
      }

  no_round_left :
      (cg : ℕ) (bytes : Bytes) (remaining block : ℕ) (s s' : Files W)
      → ltb 0 remaining ≡ false
      → ◌≡◌ {A = Result (Unit {0}) × Files W} (ok tt, s) (ok tt, s')
      → IsStored os img cg bytes remaining block s s'
  no_round_left cg bytes remaining block s s' end h =
      let none_left : 0 ≡ remaining = ground arith in
      let same = (pure_ok tt s h).1 in
      subst (λ (p : ℕ × Files W). IsStored os img cg bytes p.0 block s p.1)
        (λ i. (none_left i, same i)) (at_end block s)

  blocks-IsStored :
      (fuel cg : ℕ) (bytes : Bytes) (remaining block : ℕ) (s s' : Files W)
      → allocate_blocks os img fuel cg bytes remaining block s ≡ (ok tt, s')
      → IsStored os img cg bytes remaining block s s'
  unfolding allocate_blocks chunk_of
  blocks-IsStored zero cg bytes remaining block s s' h = elim (Bool-cases (ltb 0 remaining)) [
    | inl e ↦ absurd (hang_ne_ok s (rw e at h))
    | inr e ↦ no_round_left cg bytes remaining block s s' e (rw e at h)
  ]
  blocks-IsStored (suc fuel) cg bytes remaining block s s' h = elim (Bool-cases (ltb 0 remaining)) [
    | inr e ↦ no_round_left cg bytes remaining block s s' e (rw e at h)
    | inl e ↦
        let chunk = if ltb img.sb.block_size remaining then img.sb.block_size else remaining in
        let (u, s₁, one, h₁) =
          bind_ok (allocate_one_block os img cg bytes block chunk) _ s (rw e at h) in
        next remaining block chunk s s₁ s' (ground arith) (ground arith)
          (one_block-IsBlockStored cg bytes block chunk s s₁ one)
          (blocks-IsStored fuel cg bytes (remaining - chunk) (add32 block 1) s₁ s' h₁)
  ]

-- The contents of a file that are stored anew: the blocks from a cleared inode on, then that inode
-- with the size, the number of sectors and the times; then the old storage is freed.
pub record IsStoredAnew {W : Type 0} (os : Os W) (img : Image W) (target : Node) (bytes : Bytes)
    (size : ℕ) (w w' : W) : Type 0 where
  pub filled : Files W
  pub stored :
      IsStored os img
        (target.inode_no / img.sb.inodes_per_group)
        bytes
        size
        0
        (record { world = w; ino = clear_inode_layout target.inode; frags = 0 })
        filled
  pub time : ℕ
  pub time_world : W
  pub told : now os filled.world ≡ (ok time, time_world)
  pub written_world : W
  pub inode_written :
      write_inode_raw img target.inode_no
        (record filled.ino {
          size = size;
          blocks = mul32 filled.frags img.sb.sectors_per_frag;
          mtime = u32 time;
          ctime = u32 time;
          atime = u32 time;
        })
        time_world
      ≡ (ok tt, written_world)
  pub freed : Unit {0} × Inode
  pub freed_world : W
  pub old_freed :
      run_on target.inode (free_file_storage os img) written_world ≡ (ok freed, freed_world)
  pub synced : image_fsync img freed_world ≡ (ok tt, w')

module _ {W : Type 0} (os : Os W) (img : Image W) where
  allocate_data_ok :
      (cg : ℕ) (bytes : Bytes) (size : ℕ) (s s' : Files W)
      → allocate_data_for_inode os img cg bytes size s ≡ (ok tt, s')
      → (filled : Files W) × IsStored os img cg bytes size 0 (record s { frags = 0 }) filled
        × (s' ≡ record filled {
          ino = record filled.ino {
            size = size;
            blocks = mul32 filled.frags img.sb.sectors_per_frag;
          };
        })
  unfolding allocate_data_for_inode
  allocate_data_ok cg bytes size s s' h =
      let blocks = allocate_blocks os img size cg bytes size 0 in
      let free = free_file_storage os img in
      let (u, s₁, e, h₁) = bind_ok (on_error blocks free) _ (record s { frags = 0 }) h in
      (
        s₁,
        blocks-IsStored os img size cg bytes size 0 (record s { frags = 0 }) s₁
            (on_error_ok blocks free (record s { frags = 0 }) e),
        sym (pure_ok tt _ h₁).1,
      )

  pub rewrite_target-IsStoredAnew :
      (target : Node) (bytes : Bytes) (size : ℕ) (w w' : W)
      → rewrite_target os img target bytes size w ≡ (ok tt, w')
      → IsStoredAnew os img target bytes size w w'
  unfolding rewrite_target rewrite_inode_contents
  rewrite_target-IsStoredAnew target bytes size w w' h =
      let cg = target.inode_no / img.sb.inodes_per_group in
      let (r, w₁, ran, synced) =
        bind_ok (run_on target.inode (rewrite_inode_contents os img target.inode_no cg bytes size))
          _ w h in
      let (s, whole, kept, same_world) = run_on_ok os img target.inode _ w r.0 r.1 w₁ ran in
      let start : Files W = record {
        world = w;
        ino = clear_inode_layout target.inode;
        frags = 0;
      } in
      let (u, s₁, allocated, h₁) =
        bind_ok (allocate_data_for_inode os img cg bytes size) _ start whole in
      let (filled, stored, same) = allocate_data_ok cg bytes size start s₁ allocated in
      let (time, s₂, told, h₂) = bind_ok (lift (now os)) _ s₁ h₁ in
      let (at_time, as_before) = lift_ok (now os) s₁ s₂ told in
      let timed = set_times time s₂.ino in
      let (v, s₃, wrote, h₃) =
        bind_ok (lift (write_inode_raw img target.inode_no timed)) _ (record s₂ { ino = timed })
          h₂ in
      let (written, _) =
        lift_ok (write_inode_raw img target.inode_no timed) (record s₂ { ino = timed }) s₃ wrote in
      let free = run_on target.inode (free_file_storage os img) in
      let (released, _) = lift_ok (free >> pure tt) s₃ s h₃ in
      let (freed, x, old_freed, h₄) = bind_ok free (λ _. pure tt) s₃.world released in
      let ino : ◌≡◌ {A = Inode} _ s₂.ino = sym (λ i. (same i).ino) ∙ sym as_before in
      record {
        filled = filled;
        stored = stored;
        time = time;
        time_world = s₂.world;
        told = at_same (now os) (sym (λ i. (same i).world)) at_time;
        written_world = s₃.world;
        inode_written =
            (λ i. write_inode_raw img target.inode_no (set_times time (ino i)) s₂.world) ∙ written;
        freed = freed;
        freed_world = x;
        old_freed = old_freed;
        synced = at_same (image_fsync img) ((pure_ok tt x h₄).1 ∙ sym same_world) synced;
      }
