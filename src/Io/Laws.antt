-- ===== src/Io/Laws.antt =====
-- Inversion of successful calls, and images that are not writable.
use nextufs_offline.Base.{◌≡◌, ◌∙◌, ◌⊎◌, inl, inr, refl, sym, ap, Bool, true, false, if◌then◌else◌}
use nextufs_offline.Io.{Errno, Result, ok, err, hang, M, and_then, ◌>>=◌, require, or_fail}

module _ {S A B : Type 0} where
  and_then_ok :
      (r : Result A) (s : S) (k : A → M S B) {b : B} {s' : S}
      → and_then r s k ≡ (ok b, s')
      → (a : A) × (r ≡ ok a) × (k a s ≡ (ok b, s'))
  and_then_ok (ok a) s k h = (a, refl, h)
  and_then_ok (err e) s k h = cc (ap (λ (p : Result B × S). p.0) h)
  and_then_ok hang s k h = cc (ap (λ (p : Result B × S). p.0) h)

  -- A sequence succeeds only if its parts do.
  pub bind_ok :
      (m : M S A) (k : A → M S B) (s : S) {b : B} {s' : S}
      → (m >>= k) s ≡ (ok b, s')
      → (a : A) × (s₁ : S) × (m s ≡ (ok a, s₁)) × (k a s₁ ≡ (ok b, s'))
  bind_ok m k s h =
      let (a, e, rest) = and_then_ok (m s).0 (m s).1 k h in
      (a, (m s).1, (λ i. (e i, (m s).1)), rest)

value_of : {A : Type 0} → A → Result A → A
value_of d (ok a) = a
value_of d (err e) = d
value_of d hang = d

pub pure_ok :
    {S A : Type 0} (a : A) (s : S) {b : A} {s' : S}
    → ◌≡◌ {A = Result A × S} (ok a, s) (ok b, s')
    → (b ≡ a) × (s ≡ s')
unfolding value_of
pure_ok a s h = (λ i. value_of a ((sym h i).0), λ i. (h i).1)

pub err_ne_ok :
    {S A : Type 0} (e : Errno) (s : S) {b : A} {s' : S}
    → ◌≡◌ {A = Result A × S} (err e, s) (ok b, s')
    → ⊥
err_ne_ok {A} e s h = cc (ap (λ (p : Result A × _). p.0) h)

pub hang_ne_ok :
    {S A : Type 0} (s : S) {b : A} {s' : S} → ◌≡◌ {A = Result A × S} (hang, s) (ok b, s') → ⊥
hang_ne_ok {A} s h = cc (ap (λ (p : Result A × _). p.0) h)

-- A guard that lets a call succeed holds, and changes nothing.
pub require_ok :
    {S B : Type 0} (b : Bool) (e : Errno) (k : Unit {0} → M S B) (s : S) {a : B} {s' : S}
    → (require b e >>= k) s ≡ (ok a, s')
    → (b ≡ true) × (k tt s ≡ (ok a, s'))
require_ok true e k s h = (refl, h)
require_ok false e k s h = absurd (err_ne_ok e s h)

-- A guard that succeeds leaves the state alone.
pub require_state :
    {S : Type 0} (b : Bool) (e : Errno) (s : S) {u : Unit {0}} {s' : S}
    → require b e s ≡ (ok u, s')
    → s ≡ s'
require_state true e s h = (pure_ok tt s h).1
require_state false e s h = absurd (err_ne_ok e s h)

-- A call whose errors are replaced succeeds as the call does.
or_fail_ok_lem :
    {S A : Type 0} (e : Errno) (m : M S A) (s : S) (r : Result A) {a : A} {s' : S}
    → (m s).0 ≡ r
    → or_fail e m s ≡ (ok a, s')
    → m s ≡ (ok a, s')
or_fail_ok_lem e m s (ok a) eq h = (λ i. (eq i, (m s).1)) ∙ (rw (eq, or_fail) at h)
or_fail_ok_lem e m s (err x) eq h = absurd (err_ne_ok e (m s).1 (rw (eq, or_fail) at h))
or_fail_ok_lem e m s hang eq h = absurd (hang_ne_ok (m s).1 (rw (eq, or_fail) at h))

pub or_fail_ok :
    {S A : Type 0} (e : Errno) (m : M S A) (s : S) {a : A} {s' : S}
    → or_fail e m s ≡ (ok a, s')
    → m s ≡ (ok a, s')
or_fail_ok e m s h = or_fail_ok_lem e m s (m s).0 refl h

-- A call behind a test is one of the two.
pub if_call :
    {S A : Type 0} (b : Bool) (m k : M S A) (s : S) {r : Result A × S}
    → (if b then m else k) s ≡ r
    → ((b ≡ true) × (m s ≡ r)) ⊎ ((b ≡ false) × (k s ≡ r))
if_call true m k s h = inl (refl, h)
if_call false m k s h = inr (refl, h)

-- A call at an equal state.
pub at_same : {S A : Type 0} (m : M S A) {s s' : S} {r : Result A × S} → s ≡ s' → m s' ≡ r → m s ≡ r
at_same m e h = ap m e ∙ h
