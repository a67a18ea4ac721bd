-- ===== src/Operations/Guards.antt =====
-- What the guards of the operations of src/mutate/mutate.c let pass.
use nextufs_offline.Base.{
  ℕ, ◌≡◌, ◌⊎◌, inl, inr, sym, refl, Bool, true, false, not, ◌&&◌, ◌||◌, Option, none, some, bit_and,
  ◌==◌, ==→eq,
}
use nextufs_offline.Inode.{Inode}
use nextufs_offline.Io.{ok, M, Image}
use nextufs_offline.Io.Laws.{bind_ok, pure_ok, err_ne_ok, if_call}
use nextufs_offline.Access.{Access, granted, read_only, denied, check_access}
use nextufs_offline.Operations.{
  WriteCtx, is_user, ctx_is_root, sticky_ok, chown_allowed, chmod_allowed, ctx_in_group, grant,
  require_user_access, with_ctx, with_image,
}

-- Nothing is asked of the superuser's policy; of a user, the check of access.
abbrev pub IsPermitted : WriteCtx → Inode → ℕ → Type 0
IsPermitted ctx ino mask =
    (is_user ctx ≡ false) ⊎ (check_access ino ctx.uid ctx.gid ctx.groups mask true ≡ granted)

-- Who may do as they like: the superuser's policy, or the user 0.
abbrev pub IsPrivileged : WriteCtx → Type 0
IsPrivileged ctx = (is_user ctx ≡ false) ⊎ (ctx.uid ≡ 0)

-- Who may take an entry from a directory that is sticky.
abbrev pub IsStickyOk : WriteCtx → Inode → Inode → Type 0
IsStickyOk ctx parent target =
    (bit_and parent.mode 0x200 ≡ 0)
    ⊎ (IsPrivileged ctx ⊎ ((ctx.uid ≡ parent.uid) ⊎ (ctx.uid ≡ target.uid)))

-- A guard that the superuser's policy passes, and the user 0.
pub su_or_root :
    (user root other : Bool)
    → (not user || root || other) ≡ true
    → ((user ≡ false) ⊎ (root ≡ true)) ⊎ (other ≡ true)
su_or_root false root other h = inl (inl refl)
su_or_root true true other h = inl (inr refl)
su_or_root true false other h = inr h

sticky_cases :
    (user plain root own its : Bool)
    → (not user || plain || root || own || its) ≡ true
    → (plain ≡ true) ⊎ (((user ≡ false) ⊎ (root ≡ true)) ⊎ ((own ≡ true) ⊎ (its ≡ true)))
sticky_cases false plain root own its h = inr (inl (inl refl))
sticky_cases true true root own its h = inl refl
sticky_cases true false true own its h = inr (inl (inr refl))
sticky_cases true false false true its h = inr (inr (inl refl))
sticky_cases true false false false its h = inr (inr (inr h))

privileged : (ctx : WriteCtx) → (is_user ctx ≡ false) ⊎ (ctx_is_root ctx ≡ true) → IsPrivileged ctx
privileged ctx (inl su) = inl su
privileged ctx (inr root) = inr (==→eq _ _ root)

pub and_both : (a b : Bool) → (a && b) ≡ true → (a ≡ true) × (b ≡ true)
and_both true b h = (refl, h)
and_both false b h = cc

pub false_if_not : (a : Bool) → not a ≡ true → a ≡ false
false_if_not true h = cc
false_if_not false h = refl

pub sticky_ok-IsStickyOk :
    (ctx : WriteCtx) (parent target : Inode)
    → sticky_ok ctx parent target ≡ true
    → IsStickyOk ctx parent target
unfolding sticky_ok
sticky_ok-IsStickyOk ctx parent target h =
    elim (sticky_cases (is_user ctx) (bit_and parent.mode 0x200 == 0) (ctx_is_root ctx)
      (ctx.uid == parent.uid) (ctx.uid == target.uid) h) [
        | inl plain ↦ inl (==→eq _ _ plain)
        | inr (inl p) ↦ inr (inl (privileged ctx p))
        | inr (inr (inl own)) ↦ inr (inr (inl (==→eq _ _ own)))
        | inr (inr (inr its)) ↦ inr (inr (inr (==→eq _ _ its)))
      ]

-- Who may give a file to whom.
abbrev pub IsChownOk : WriteCtx → Inode → ℕ → ℕ → Type 0
IsChownOk ctx ino uid gid =
    IsPrivileged ctx ⊎ ((ctx.uid ≡ ino.uid) × (uid ≡ ino.uid) × (ctx_in_group ctx gid ≡ true))

pub chown_allowed-IsChownOk :
    (ctx : WriteCtx) (ino : Inode) (uid gid : ℕ)
    → chown_allowed ctx ino uid gid ≡ true
    → IsChownOk ctx ino uid gid
unfolding chown_allowed
chown_allowed-IsChownOk ctx ino uid gid h =
    elim (su_or_root (is_user ctx) (ctx_is_root ctx)
      ((ctx.uid == ino.uid) && (uid == ino.uid) && ctx_in_group ctx gid) h) [
        | inl p ↦ inl (privileged ctx p)
        | inr h₁ ↦
            let (h₂, member) = and_both ((ctx.uid == ino.uid) && (uid == ino.uid)) _ h₁ in
            let (owner, same) = and_both (ctx.uid == ino.uid) _ h₂ in
            inr (==→eq _ _ owner, ==→eq _ _ same, member)
      ]

pub chmod_allowed_lem :
    (ctx : WriteCtx) (ino : Inode)
    → chmod_allowed ctx ino ≡ true
    → IsPrivileged ctx ⊎ (ctx.uid ≡ ino.uid)
unfolding chmod_allowed
chmod_allowed_lem ctx ino h =
    elim (su_or_root (is_user ctx) (ctx_is_root ctx) (ctx.uid == ino.uid) h) [
      | inl p ↦ inl (privileged ctx p)
      | inr owner ↦ inr (==→eq _ _ owner)
    ]

module _ {W : Type 0} where
  pub require_user_access_ok :
      (ctx : WriteCtx) (ino : Inode) (mask : ℕ) (w w' : W) {u : Unit {0}}
      → require_user_access ctx ino mask w ≡ (ok u, w')
      → IsPermitted ctx ino mask × (w ≡ w')
  unfolding require_user_access grant
  require_user_access_ok ctx ino mask w w' {u = u} h = elim (if_call (is_user ctx) _ _ w h) [
    | inl (user, h₁) ↦ granted_only (check_access ino ctx.uid ctx.gid ctx.groups mask true) refl h₁
    | inr (su, h₁) ↦ (inl su, (pure_ok tt w h₁).1)
  ]
    where
      granted_only :
          (a : Access)
          → check_access ino ctx.uid ctx.gid ctx.groups mask true ≡ a
          → grant a w ≡ (ok u, w')
          → IsPermitted ctx ino mask × (w ≡ w')
      granted_only granted e h = (inr e, (pure_ok tt w h).1)
      granted_only read_only e h = absurd (err_ne_ok _ w h)
      granted_only denied e h = absurd (err_ne_ok _ w h)

  pub with_ctx_ok :
      {A : Type 0} (octx : Option WriteCtx) (body : WriteCtx → M W A) (w w' : W) {a : A}
      → with_ctx octx body w ≡ (ok a, w')
      → (ctx : WriteCtx) × (octx ≡ some ctx) × (body ctx w ≡ (ok a, w'))
  unfolding with_ctx
  with_ctx_ok none body w w' h = absurd (err_ne_ok _ w h)
  with_ctx_ok (some ctx) body w w' h = (ctx, refl, h)

  -- An operation that succeeds has opened the image, done its work, and closed it.
  pub with_image_ok :
      {A : Type 0} (opened : M W (Image W)) (close : Image W → W → W) (body : Image W → M W A)
      (w w' : W) {a : A}
      → with_image opened close body w ≡ (ok a, w')
      → (img : Image W) × (w₀ w₁ : W) × (opened w ≡ (ok img, w₀))
        × (body img w₀ ≡ (ok a, w₁))
        × (w' ≡ close img w₁)
  unfolding with_image
  with_image_ok opened close body w w' h =
      let (img, w₀, e, h₁) = bind_ok opened _ w h in
      (img, w₀, (body img w₀).1, e, (λ i. ((h₁ i).0, (body img w₀).1)), sym (λ i. (h₁ i).1))
