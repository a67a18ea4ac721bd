-- ===== src/Base/Tests.antt =====
-- The comparisons of C as Boolean tests, the conditional, and splits that keep an equation.
use Prim.Native.Nat.{ℕ, zero, suc, ◌≤◌, ◌<◌, compare, Ordering}
use mathlib.Core.Path.{◌≡◌, refl}
use mathlib.Core.Logic.{◌≢◌, ◌⊎◌, inl, inr}
use mathlib.Core.Bool.{Bool, true, false, not}
use mathlib.Core.Option.{none, some}
use native.Mathlib.Omega.{arith}

abbrev pub ltb : ℕ → ℕ → Bool
ltb a b = elim (compare a b) [ Ordering.lt ↦ true | _ ↦ false ]

abbrev pub leb : ℕ → ℕ → Bool
leb a b = elim (compare a b) [ Ordering.gt ↦ false | _ ↦ true ]

infix 50 ◌==◌
abbrev pub ◌==◌ : ℕ → ℕ → Bool
a == b = elim (compare a b) [ Ordering.eq ↦ true | _ ↦ false ]

infix 1 if◌then◌else◌
abbrev pub if◌then◌else◌ {ℓ} : {A : Type ℓ} → Bool → A → A → A
if true then x else y = x
if false then x else y = y

pub ltb→lt : (a b : ℕ) → ltb a b ≡ true → a < b
ltb→lt a b h = ground arith

pub ltb→le : (a b : ℕ) → ltb a b ≡ false → b ≤ a
ltb→le a b h = ground arith

pub lt→ltb : (a b : ℕ) → a < b → ltb a b ≡ true
lt→ltb a b h = ground arith

pub le→ltb : (a b : ℕ) → b ≤ a → ltb a b ≡ false
le→ltb a b h = ground arith

pub leb→le : (a b : ℕ) → leb a b ≡ true → a ≤ b
leb→le a b h = ground arith

pub leb→lt : (a b : ℕ) → leb a b ≡ false → b < a
leb→lt a b h = ground arith

pub le→leb : (a b : ℕ) → a ≤ b → leb a b ≡ true
le→leb a b h = ground arith

pub lt→leb : (a b : ℕ) → a < b → leb b a ≡ false
lt→leb a b h = ground arith

pub Bool-cases : (b : Bool) → (b ≡ true) ⊎ (b ≡ false)
Bool-cases true = inl refl
Bool-cases false = inr refl

pub ==→eq : (a b : ℕ) → (a == b) ≡ true → a ≡ b
==→eq a b h = ground arith

pub ==→ne : (a b : ℕ) → (a == b) ≡ false → a ≢ b
==→ne a b h e = ground arith

pub ne→== : (a b : ℕ) → a ≢ b → (a == b) ≡ false
ne→== a b h = elim (Bool-cases (a == b)) [ inl e ↦ absurd (h (==→eq a b e)) | inr e ↦ e ]

pub ==_self : (a : ℕ) → (a == a) ≡ true
==_self a = ground arith

pub none_ne_some {ℓ} : {A : Type ℓ} {a : A} → none ≡ some a → ⊥
none_ne_some h = cc

pub some_injective {ℓ} : {A : Type ℓ} {a b : A} → some a ≡ some b → a ≡ b
some_injective h = cc

-- A finite check: the test holds at each number less than the bound.
unfoldable pub holds_upto : (ℕ → Bool) → ℕ → Bool
holds_upto test zero = true
holds_upto test (suc last) = if test last then holds_upto test last else false

pub holds_upto-at :
    (test : ℕ → Bool) (bound k : ℕ) → k < bound → holds_upto test bound ≡ true → test k ≡ true
unfolding holds_upto
holds_upto-at test zero k below checked = elim below [ ]
holds_upto-at test (suc last) k below checked = elim (Bool-cases (test last)) [
  | inr e ↦ cc
  | inl e ↦ ground (arith, holds_upto-at test last k)
]

-- The two tests agree.
unfoldable pub same : Bool → Bool → Bool
same true b = b
same false b = not b

pub same_eq : (a b : Bool) → same a b ≡ true → a ≡ b
unfolding same
same_eq a b h = ground arith
