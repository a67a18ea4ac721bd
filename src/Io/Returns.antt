-- ===== src/Io/Returns.antt =====
-- Calls that always return: none of their loops uses up its fuel.
use nextufs_offline.Base.{ℕ, Bool, true, false, ◌≡◌, ◌≢◌, refl, if◌then◌else◌}
use nextufs_offline.Memory.{Bytes}
use nextufs_offline.Io.{
  Result, ok, err, hang, M, ◌>>=◌, and_then, pure, fail, require, or_fail, Errno, Os, Image,
  read_exact, write_exact, malloc_or_fail, now,
}

pub ok_ne_hang : {A : Type 0} (a : A) → ◌≡◌ {A = Result A} (ok a) hang → ⊥
ok_ne_hang a h = cc h

err_ne_hang : {A : Type 0} (e : Errno) → ◌≡◌ {A = Result A} (err e) hang → ⊥
err_ne_hang e h = cc h

module _ {W A : Type 0} where
  abbrev pub IsReturning : M W A → Type 0
  IsReturning m = (w : W) → (m w).0 ≢ hang

  pub pure-IsReturning : (a : A) → IsReturning (pure a)
  pure-IsReturning a w h = ok_ne_hang a h

  pub fail-IsReturning : (e : Errno) → IsReturning (fail e)
  fail-IsReturning e w h = err_ne_hang e h

  pub if-IsReturning :
      (b : Bool) (m k : M W A) → IsReturning m → IsReturning k → IsReturning (if b then m else k)
  if-IsReturning true m k hm hk = hm
  if-IsReturning false m k hm hk = hk

and_then-returns :
    {W A B : Type 0} (r : Result A) (w : W) (k : A → M W B)
    → r ≢ hang
    → ((a : A) → IsReturning (k a))
    → (and_then r w k).0 ≢ hang
and_then-returns (ok a) w k hr hk = hk a w
and_then-returns (err e) w k hr hk = err_ne_hang e
and_then-returns hang w k hr hk = absurd (hr refl)

pub bind-IsReturning :
    {W A B : Type 0} (m : M W A) (k : A → M W B)
    → IsReturning m
    → ((a : A) → IsReturning (k a))
    → IsReturning (m >>= k)
bind-IsReturning m k hm hk w = and_then-returns (m w).0 (m w).1 k (hm w) hk

pub require-IsReturning : {W : Type 0} (b : Bool) (e : Errno) → IsReturning (require {S = W} b e)
require-IsReturning true e w h = ok_ne_hang tt h
require-IsReturning false e w h = err_ne_hang e h

or_fail-returns :
    {W A : Type 0} (e : Errno) (m : M W A) (w : W) (r : Result A)
    → (m w).0 ≡ r
    → r ≢ hang
    → (or_fail e m w).0 ≢ hang
or_fail-returns e m w (ok a) eq h stuck = ok_ne_hang a (rw (eq, or_fail) at stuck)
or_fail-returns e m w (err x) eq h stuck = err_ne_hang e (rw (eq, or_fail) at stuck)
or_fail-returns e m w hang eq h stuck = h refl

pub or_fail-IsReturning :
    {W A : Type 0} (e : Errno) (m : M W A) → IsReturning m → IsReturning (or_fail e m)
or_fail-IsReturning e m h w = or_fail-returns e m w (m w).0 refl (h w)

-- What follows a guard may take it to hold.
pub require-then-IsReturning :
    {W A : Type 0} (b : Bool) (e : Errno) (k : Unit {0} → M W A)
    → (b ≡ true → IsReturning (k tt))
    → IsReturning (require b e >>= k)
require-then-IsReturning true e k h = h refl
require-then-IsReturning false e k h = λ w stuck. err_ne_hang e stuck

module _ {W : Type 0} (os : Os W) where
  pub now-IsReturning : IsReturning (now os)
  unfolding now
  now-IsReturning w h = ok_ne_hang _ h

  pub malloc_or_fail-IsReturning : (n : ℕ) → IsReturning (malloc_or_fail os n)
  unfolding malloc_or_fail
  malloc_or_fail-IsReturning n w = require-IsReturning (os.malloc n w).0 _ (os.malloc n w).1

-- The operations of the backend return.
pub record IsTotal {W : Type 0} (img : Image W) : Type 0 where
  pub read : (size off : ℕ) → IsReturning (read_exact img size off)
  pub write : (buf : Bytes) (size off : ℕ) → IsReturning (write_exact img buf size off)
