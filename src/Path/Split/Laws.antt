-- ===== src/Path/Split/Laws.antt =====
-- The parent and the name that a path is split into.
use nextufs_offline.Base.{
  ℕ, suc, ◌+◌, ◌<◌, ◌≤◌, ◌≡◌, refl, sym, arith, Bool, true, false, not, List, [], ◌∷◌, ◌++◌, Option,
  none, some, inl, inr, ◌⊎◌, Bool-cases, none_ne_some, some_injective, ltb, leb, ◌==◌, ==→eq,
  if◌then◌else◌,
}
use nextufs_offline.Text.{length}
use nextufs_offline.Io.{ok, einval, enametoolong}
use nextufs_offline.Io.Laws.{require_ok, pure_ok, err_ne_ok}
use nextufs_offline.Path.{slash, is_empty, is_absolute}
use nextufs_offline.Path.Split.{or_here, last_slash, split_at, path_split}

-- No slash stands in a name.
unfoldable pub slash_free : List ℕ → Bool
slash_free [] = true
slash_free (c ∷ cs) = let rest = slash_free cs in if c == slash then false else rest

last_slash-none : (cs : List ℕ) → slash_free cs ≡ true → last_slash cs ≡ none
unfolding slash_free last_slash or_here
last_slash-none [] h = refl
last_slash-none (c ∷ cs) h = elim (Bool-cases (c == slash)) [
  | inl e ↦ cc
  | inr e ↦ rw (last_slash-none cs (ground arith), e) refl
]

last_slash_join :
    (parent name : List ℕ)
    → slash_free name ≡ true
    → last_slash (parent ++ slash ∷ name) ≡ some (parent, name)
unfolding last_slash or_here
last_slash_join [] name h = rw (last_slash-none name h) refl
last_slash_join (c ∷ cs) name h = rw (last_slash_join cs name h) refl

-- No slash, no last slash.
none_behind :
    (c : ℕ) (cs : List ℕ) (o : Option (List ℕ × List ℕ))
    → or_here c cs o ≡ none
    → ((c == slash) ≡ false) × (o ≡ none)
unfolding or_here
none_behind c cs none h = elim (Bool-cases (c == slash)) [
  | inl e ↦ absurd (none_ne_some (sym (rw e at h)))
  | inr e ↦ (e, refl)
]
none_behind c cs (some (parent, name)) h = absurd (none_ne_some (sym h))

none-slash_free : (cs : List ℕ) → last_slash cs ≡ none → slash_free cs ≡ true
unfolding last_slash slash_free
none-slash_free [] h = refl
none-slash_free (c ∷ cs) h =
    let (other, rest) = none_behind c cs (last_slash cs) h in rw other (none-slash_free cs rest)

-- The last slash is behind the character, or it is the character.
some_behind :
    (c : ℕ) (cs : List ℕ) (o : Option (List ℕ × List ℕ)) (parent name : List ℕ)
    → or_here c cs o ≡ some (parent, name)
    → ((p : List ℕ) × (o ≡ some (p, name)) × (parent ≡ c ∷ p))
      ⊎ ((o ≡ none) × (c ≡ slash) × (parent ≡ []) × (name ≡ cs))
unfolding or_here
some_behind c cs none parent name h = elim (Bool-cases (c == slash)) [
  | inl e ↦
      let same : ◌≡◌ {A = List ℕ × List ℕ} ([], cs) (parent, name) = some_injective (rw e at h) in
      inr (refl, ==→eq c slash e, sym (λ i. (same i).0), sym (λ i. (same i).1))
  | inr e ↦ absurd (none_ne_some (rw e at h))
]
some_behind c cs (some (p, n)) parent name h =
    let same : ◌≡◌ {A = List ℕ × List ℕ} (c ∷ p, n) (parent, name) = some_injective h in
    inl (p, (λ i. some (p, (same i).1)), sym (λ i. (same i).0))

-- What is in front of the last slash and behind it is the whole list.
pub last_slash_parts :
    (cs parent name : List ℕ)
    → last_slash cs ≡ some (parent, name)
    → (cs ≡ parent ++ slash ∷ name) × (slash_free name ≡ true)
unfolding last_slash
last_slash_parts [] parent name h = absurd (none_ne_some h)
last_slash_parts (c ∷ cs) parent name h = elim (some_behind c cs (last_slash cs) parent name h) [
  | inl (p, rest, e) ↦
      let (whole, free) = last_slash_parts cs p name rest in (rw (e, whole) refl, free)
  | inr (no_more, here, e, n) ↦ (rw (e, here, n) refl, rw n (none-slash_free cs no_more))
]

length_pos : (cs : List ℕ) → not (is_empty cs) ≡ true → 0 < length cs
length_pos [] h = cc
length_pos (c ∷ cs) h = omega arith

-- The parent's path is that in front of the slash, or the root's.
parent_bounds :
    (parent_size : ℕ) (p parent : List ℕ)
    → parent ≡ (if is_empty p then slash ∷ [] else p)
    → not (if is_empty p then ltb parent_size 2 else ltb parent_size (length p + 1)) ≡ true
    → ((p ≡ parent) ⊎ ((p ≡ []) × (parent ≡ slash ∷ [])))
      × (0 < length parent)
      × (length parent < parent_size)
parent_bounds parent_size [] parent e room = rw e (inr (refl, refl), omega arith, ground arith)
parent_bounds parent_size (c ∷ cs) parent e room = rw e (inl refl, omega arith, ground arith)

module _ {W : Type 0} where
  -- A path that is put together from a parent and a name is split into them.
  pub path_split-join :
      (first : ℕ) (rest name : List ℕ) (parent_size name_size : ℕ) (w : W)
      → first ≡ slash
      → slash_free name ≡ true
      → 0 < length name
      → length name < name_size
      → length rest + 2 ≤ parent_size
      → path_split (first ∷ rest ++ slash ∷ name) parent_size name_size w
        ≡ (ok (first ∷ rest, name), w)
  unfolding path_split split_at
  path_split-join first rest [] parent_size name_size w absolute free some_name short fits =
      absurd (omega arith)
  path_split-join first rest (n ∷ ns) parent_size name_size w absolute free some_name short fits =
      let starts : (first == slash) ≡ true = ground arith in
      let small : leb name_size (suc (length ns)) ≡ false = ground arith in
      let room : ltb parent_size (suc (length rest) + 1) ≡ false = ground arith in
      rw (last_slash_join (first ∷ rest) (n ∷ ns) free, starts, small, room) refl

  split_at_ok :
      (parent_size name_size : ℕ) (o : Option (List ℕ × List ℕ)) (parent name : List ℕ) (w w' : W)
      → split_at parent_size name_size o w ≡ (ok (parent, name), w')
      → (p : List ℕ) × (o ≡ some (p, name))
        × (parent ≡ (if is_empty p then slash ∷ [] else p))
        × (not (is_empty name) ≡ true)
        × (not (leb name_size (length name)) ≡ true)
        × (not (if is_empty p then ltb parent_size 2 else ltb parent_size (length p + 1)) ≡ true)
  unfolding split_at
  split_at_ok parent_size name_size none parent name w w' h = absurd (err_ne_ok einval w h)
  split_at_ok parent_size name_size (some (p, n)) parent name w w' h =
      let (filled, h₁) = require_ok (not (is_empty n)) einval _ w h in
      let (short, h₂) = require_ok (not (leb name_size (length n))) enametoolong _ w h₁ in
      let (room, h₃) =
        require_ok (not (if is_empty p then ltb parent_size 2 else ltb parent_size (length p + 1)))
          enametoolong _ w h₂ in
      let same : ◌≡◌ {A = List ℕ × List ℕ} (parent, name) _ = (pure_ok _ w h₃).0 in
      let same_name : n ≡ name = sym (λ i. (same i).1) in
      (
        p,
        (λ i. some (p, same_name i)),
        (λ i. (same i).0),
        rw same_name at filled,
        rw same_name at short,
        room,
      )

  -- A split that succeeds has a parent that fits its buffer and a name that fits its own, is not
  -- empty and has no slash; put together they are the path.
  pub path_split_ok :
      (path parent name : List ℕ) (parent_size name_size : ℕ) (w w' : W)
      → path_split path parent_size name_size w ≡ (ok (parent, name), w')
      → ((path ≡ parent ++ slash ∷ name) ⊎ ((parent ≡ slash ∷ []) × (path ≡ slash ∷ name)))
        × (slash_free name ≡ true)
        × (0 < length name)
        × (length name < name_size)
        × (0 < length parent)
        × (length parent < parent_size)
  unfolding path_split
  path_split_ok path parent name parent_size name_size w w' h =
      let (absolute, h₁) = require_ok (is_absolute path) einval _ w h in
      let (p, split, e, filled, short, room) =
        split_at_ok parent_size name_size (last_slash path) parent name w w' h₁ in
      let (whole, free) = last_slash_parts path p name split in
      let (origin, some_parent, fits) = parent_bounds parent_size p parent e room in
      (joined p whole origin, free, length_pos name filled, ground arith, some_parent, fits)
    where
      joined :
          (p : List ℕ)
          → path ≡ p ++ slash ∷ name
          → ((p ≡ parent) ⊎ ((p ≡ []) × (parent ≡ slash ∷ [])))
          → (path ≡ parent ++ slash ∷ name) ⊎ ((parent ≡ slash ∷ []) × (path ≡ slash ∷ name))
      joined p whole (inl e) = inl (rw e at whole)
      joined p whole (inr (e, root)) = inr (root, rw e at whole)
