-- ===== src/Alloc/Fragments/Walk.antt =====
-- `nextufs__allocate_frags_anycg`: the groups in the order of the walk.
use nextufs_offline.Base.{ℕ, zero, suc, ◌+◌, ◌%◌, ◌<◌, ◌≡◌, refl, ◌∙◌, ap, arith, add32}
use nextufs_offline.Io.{Result, ok, err, hang, enospc, Os, Image}
use nextufs_offline.Io.Laws.{err_ne_ok, hang_ne_ok}
use nextufs_offline.Alloc.Fragments.{
  allocate_frags_in_group, unless_full, allocate_frags_from, allocate_frags_anycg,
}

module _ {W : Type 0} (os : Os W) (img : Image W) (preferred_cg need : ℕ) where
  -- The group of round `i`.
  abbrev pub group_at : ℕ → ℕ
  group_at i = add32 preferred_cg i % img.sb.cg_count

  -- From `w` to `w'`, each of the rounds from `i` on has asked its group, and found it full.
  pub data AllFull : ℕ → ℕ → W → W → Type 0 where
    done : {i : ℕ} {w : W} → AllFull zero i w w
    full :
        {n i : ℕ} {w v w' : W}
        → allocate_frags_in_group os img (group_at i) need w ≡ (err enospc, v)
        → AllFull n (i + 1) v w'
        → AllFull (suc n) i w w'

  -- The answer of the walk: some round's group hands out the run, after the rounds before it have
  -- found theirs full.
  pub record IsFirstFit (left i f : ℕ) (w w' : W) : Type 0 where
    pub round : ℕ
    pub in_range : round < left
    pub reached : W
    pub skipped : AllFull round i w reached
    pub answers : allocate_frags_in_group os img (group_at (i + round)) need reached ≡ (ok f, w')

  here-IsFirstFit :
      (left i f : ℕ) (w w' : W)
      → allocate_frags_in_group os img (group_at i) need w ≡ (ok f, w')
      → IsFirstFit (suc left) i f w w'
  here-IsFirstFit left i f w w' e = record {
    round = 0;
    in_range = omega arith;
    reached = w;
    skipped = done;
    answers = let z : i + 0 ≡ i = omega arith in rw z e;
  }

  later-IsFirstFit :
      (left i f : ℕ) (w v w' : W)
      → allocate_frags_in_group os img (group_at i) need w ≡ (err enospc, v)
      → IsFirstFit left (i + 1) f v w'
      → IsFirstFit (suc left) i f w w'
  later-IsFirstFit left i f w v w' e later = record {
    round = suc (later.round);
    in_range = omega (arith, later.in_range);
    reached = later.reached;
    skipped = full e (later.skipped);
    answers =
        let z : i + suc (later.round) ≡ i + 1 + later.round = omega arith in rw z (later.answers);
  }

  step_ok :
      (r : Result ℕ) (left i f : ℕ) (w v w' : W)
      → allocate_frags_in_group os img (group_at i) need w ≡ (r, v)
      → ((x : W)
          → allocate_frags_from os img preferred_cg need left (i + 1) x ≡ (ok f, w')
          → IsFirstFit left (i + 1) f x w')
      → unless_full os img (r, v) (allocate_frags_from os img preferred_cg need left (i + 1))
        ≡ (ok f, w')
      → IsFirstFit (suc left) i f w w'
  unfolding unless_full
  step_ok (ok g) left i f w v w' e later h = here-IsFirstFit left i f w w' (e ∙ h)
  step_ok (err enospc) left i f w v w' e later h = later-IsFirstFit left i f w v w' e (later v h)
  step_ok (err x) left i f w v w' e later h = absurd (err_ne_ok x v h)
  step_ok hang left i f w v w' e later h = absurd (hang_ne_ok v h)

  from_ok :
      (left i f : ℕ) (w w' : W)
      → allocate_frags_from os img preferred_cg need left i w ≡ (ok f, w')
      → IsFirstFit left i f w w'
  unfolding allocate_frags_from
  from_ok zero i f w w' h = absurd (err_ne_ok enospc w h)
  from_ok (suc left) i f w w' h =
      let r = allocate_frags_in_group os img (group_at i) need w in
      step_ok (r.0) left i f w (r.1) w' refl (λ x e. from_ok left (i + 1) f x w' e) h

  step_full :
      (r : Result ℕ) (left i : ℕ) (w v w' : W)
      → allocate_frags_in_group os img (group_at i) need w ≡ (r, v)
      → ((x : W)
          → allocate_frags_from os img preferred_cg need left (i + 1) x ≡ (err enospc, w')
          → AllFull left (i + 1) x w')
      → unless_full os img (r, v) (allocate_frags_from os img preferred_cg need left (i + 1))
        ≡ (err enospc, w')
      → AllFull (suc left) i w w'
  unfolding unless_full
  step_full (err enospc) left i w v w' e later h = full e (later v h)
  step_full r left i w v w' e later h = cc (ap (λ (p : Result ℕ × W). p.0) h)

  from_full :
      (left i : ℕ) (w w' : W)
      → allocate_frags_from os img preferred_cg need left i w ≡ (err enospc, w')
      → AllFull left i w w'
  unfolding allocate_frags_from
  from_full zero i w w' h = let e : w ≡ w' = ap (λ (p : Result ℕ × W). p.1) h in rw e done
  from_full (suc left) i w w' h =
      let r = allocate_frags_in_group os img (group_at i) need w in
      step_full (r.0) left i w (r.1) w' refl (λ x e. from_full left (i + 1) x w' e) h

  -- An allocation in any group that succeeds hands out what one of the groups of the walk does, which
  -- is asked after all the groups before it in the walk have answered that they are full.
  pub allocate_frags_anycg-IsFirstFit :
      (f : ℕ) (w w' : W)
      → allocate_frags_anycg os img preferred_cg need w ≡ (ok f, w')
      → IsFirstFit img.sb.cg_count 0 f w w'
  unfolding allocate_frags_anycg
  allocate_frags_anycg-IsFirstFit f w w' h = from_ok img.sb.cg_count 0 f w w' h

  -- It answers ENOSPC only after each of the groups, in as many rounds as there are groups, has
  -- answered ENOSPC itself.
  pub allocate_frags_anycg-AllFull :
      (w w' : W)
      → allocate_frags_anycg os img preferred_cg need w ≡ (err enospc, w')
      → AllFull img.sb.cg_count 0 w w'
  unfolding allocate_frags_anycg
  allocate_frags_anycg-AllFull w w' h = from_full img.sb.cg_count 0 w w' h
