-- ===== src/Operations/Climb.antt =====
-- The climb of `nextufs__directory_has_ancestor` along the ".." records of directories.
use nextufs_offline.Base.{
  ℕ, zero, suc, ◌≡◌, ◌≢◌, ◌⊎◌, inl, inr, refl, Bool, true, false, ◌==◌, ==→eq, ==→ne,
}
use nextufs_offline.Io.{Result, ok, err, hang, Errno, M, Os, Image}
use nextufs_offline.Io.Laws.{pure_ok, hang_ne_ok, if_call}
use nextufs_offline.Mutate.Parent.{read_directory_parent_inode}
use nextufs_offline.Path.{Node, root_inode}
use nextufs_offline.Operations.Inodes.{node_get_by_inode, or_false, directory_has_ancestor}

module _ {W : Type 0} (os : Os W) (img : Image W) where
  -- The directory's ".." record names another directory, and its node is read.
  pub record IsParent (cur : Node) (w : W) (next : Node) (w' : W) : Type 0 where
    pub number : ℕ
    pub between : W
    pub named : read_directory_parent_inode os img cur.inode_no cur.inode w ≡ (ok number, between)
    pub other : number ≢ cur.inode_no
    pub node_read : node_get_by_inode os img number between ≡ (ok next, w')

  -- The ancestor is met on the way up.
  pub data IsBelow (ancestor : ℕ) : Node → W → Type 0 where
    here : {cur : Node} {w : W} → cur.inode_no ≡ ancestor → IsBelow ancestor cur w
    above :
        {cur next : Node} {w w' : W}
        → cur.inode_no ≢ root_inode
        → IsParent cur w next w'
        → IsBelow ancestor next w'
        → IsBelow ancestor cur w

  -- The way up ends, at the root, at a directory that is its own parent or where a call fails, and
  -- the ancestor is not met.
  pub data IsClear (ancestor : ℕ) : Node → W → Type 0 where
    at_root :
        {cur : Node} {w : W}
        → cur.inode_no ≢ ancestor
        → cur.inode_no ≡ root_inode
        → IsClear ancestor cur w
    at_own_parent :
        {cur : Node} {w w' : W}
        → cur.inode_no ≢ ancestor
        → read_directory_parent_inode os img cur.inode_no cur.inode w ≡ (ok cur.inode_no, w')
        → IsClear ancestor cur w
    no_parent :
        {cur : Node} {w w' : W} {e : Errno}
        → cur.inode_no ≢ ancestor
        → read_directory_parent_inode os img cur.inode_no cur.inode w ≡ (err e, w')
        → IsClear ancestor cur w
    no_node :
        {cur : Node} {w w₁ w' : W} {e : Errno} {number : ℕ}
        → cur.inode_no ≢ ancestor
        → read_directory_parent_inode os img cur.inode_no cur.inode w ≡ (ok number, w₁)
        → node_get_by_inode os img number w₁ ≡ (err e, w')
        → IsClear ancestor cur w
    further :
        {cur next : Node} {w w' : W}
        → cur.inode_no ≢ ancestor
        → IsParent cur w next w'
        → IsClear ancestor next w'
        → IsClear ancestor cur w

  -- What the answer of the climb says.
  abbrev pub Answer : Bool → ℕ → Node → W → Type 0
  Answer true ancestor cur w = IsBelow ancestor cur w
  Answer false ancestor cur w = IsClear ancestor cur w

  or_false_cases :
      {A : Type 0} (m : M W A) (k : A → M W Bool) (w : W) (r : Result A) {b : Bool} {w' : W}
      → (m w).0 ≡ r
      → or_false os img m k w ≡ (ok b, w')
      → ((a : A) × (m w ≡ (ok a, (m w).1)) × (k a (m w).1 ≡ (ok b, w')))
        ⊎ ((e : Errno) × (m w ≡ (err e, (m w).1)) × (b ≡ false))
  unfolding or_false
  or_false_cases m k w (ok a) eq h = inl (a, (λ i. (eq i, (m w).1)), rw (eq, or_false) at h)
  or_false_cases m k w (err e) eq h =
      inr (e, (λ i. (eq i, (m w).1)), (pure_ok false _ (rw (eq, or_false) at h)).0)
  or_false_cases m k w hang eq h = absurd (hang_ne_ok _ (rw (eq, or_false) at h))

  -- Above a directory that is neither the ancestor nor the root.
  parent-Answer :
      (rounds : ℕ) (cur : Node) (ancestor number : ℕ) (w w₁ : W) {b : Bool} {w' : W}
      → ((next : Node) (w₂ : W) (b : Bool) (w' : W)
          → directory_has_ancestor os img rounds next ancestor w₂ ≡ (ok b, w')
          → Answer b ancestor next w₂)
      → cur.inode_no ≢ ancestor
      → cur.inode_no ≢ root_inode
      → read_directory_parent_inode os img cur.inode_no cur.inode w ≡ (ok number, w₁)
      → number ≢ cur.inode_no
      → or_false os img
          (node_get_by_inode os img number)
          (λ next. directory_has_ancestor os img rounds next ancestor)
          w₁
        ≡ (ok b, w')
      → Answer b ancestor cur w
  parent-Answer rounds cur ancestor number w w₁ {b} {w'} below unmet inner named other h =
      elim (or_false_cases (node_get_by_inode os img number) _ w₁ _ refl h) [
        | inl (next, read, h₁) ↦
            let up : IsParent cur w next _ = record {
              number = number;
              between = w₁;
              named = named;
              other = other;
              node_read = read;
            } in
            answer_up b up (below next _ b w' h₁)
        | inr (e, failed, unanswered) ↦ rw unanswered (no_node unmet named failed)
      ]
    where
      answer_up :
          (b : Bool) {next : Node} {w₂ : W}
          → IsParent cur w next w₂
          → Answer b ancestor next w₂
          → Answer b ancestor cur w
      answer_up true up under = above inner up under
      answer_up false up clear = further unmet up clear

  -- Each answer of the climb is right: yes where the ancestor is met, no where the way up ends.
  pub climb-Answer :
      (rounds : ℕ) (cur : Node) (ancestor : ℕ) (w : W) {b : Bool} {w' : W}
      → directory_has_ancestor os img rounds cur ancestor w ≡ (ok b, w')
      → Answer b ancestor cur w
  unfolding directory_has_ancestor
  climb-Answer zero cur ancestor w h = absurd (hang_ne_ok _ h)
  climb-Answer (suc rounds) cur ancestor w h = elim (if_call (cur.inode_no == ancestor) _ _ w h) [
    | inl (met, h₁) ↦ rw (pure_ok true w h₁).0 (here (==→eq _ _ met))
    | inr (unmet, h₁) ↦ elim (if_call (cur.inode_no == root_inode) _ _ w h₁) [
      | inl (top, h₂) ↦ rw (pure_ok false w h₂).0 (at_root (==→ne _ _ unmet) (==→eq _ _ top))
      | inr (inner, h₂) ↦
          elim (or_false_cases (read_directory_parent_inode os img cur.inode_no cur.inode) _ w _
            refl h₂) [
              | inr (e, failed, unanswered) ↦ rw unanswered (no_parent (==→ne _ _ unmet) failed)
              | inl (number, named, h₃) ↦ elim (if_call (number == cur.inode_no) _ _ _ h₃) [
                | inl (own, h₄) ↦
                    rw (pure_ok false _ h₄).0
                      (at_own_parent (==→ne _ _ unmet) (rw (==→eq _ _ own) at named))
                | inr (other, h₄) ↦
                    parent-Answer rounds cur ancestor number w _
                      (λ next w₂ b w' h₅. climb-Answer rounds next ancestor w₂ h₅) (==→ne _ _ unmet)
                      (==→ne _ _ inner) named (==→ne _ _ other) h₄
              ]
            ]
    ]
  ]
