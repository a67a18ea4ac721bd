-- ===== src/Size/Bounds.antt =====
-- A size that is parsed is the number times the factor, without wrap-around.
use native.Mathlib.Nat.{le-div_iff_mul-le}
use nextufs_offline.Base.{
  ℕ, ◌-◌, ◌*◌, ◌/◌, ◌%◌, ◌^◌, ◌≤◌, ◌<◌, ◌≡◌, inl, inr, refl, sym, ◌∙◌, arith, Bool, true, false,
  ◌||◌, List, [], ◌∷◌, Option, none, some, none_ne_some, some_injective, Bool-cases, mul64, ltb,
  ◌==◌, if◌then◌else◌,
}
use nextufs_offline.Size.{
  kib_bytes, BareSizeUnit, bytes, sectors_1k, suffix_factor, factor_of, scaled, scale_parsed,
  parse_size_bytes,
}

-- A factor is positive.
one_of_three :
    (k m g : Bool) (mult : ℕ)
    → (if k
        then some kib_bytes
        else if m
        then some (kib_bytes * kib_bytes)
        else if g
        then some (kib_bytes * kib_bytes * kib_bytes)
        else none)
      ≡ some mult
    → 0 < mult
one_of_three true m g mult h = rw (← some_injective h) (omega arith)
one_of_three false true g mult h = rw (← some_injective h) (omega arith)
one_of_three false false true mult h = rw (← some_injective h) (omega arith)
one_of_three false false false mult h = absurd (none_ne_some h)

factor_pos :
    (unit : BareSizeUnit) (rest : List ℕ) (mult : ℕ) → factor_of unit rest ≡ some mult → 0 < mult
unfolding factor_of suffix_factor
factor_pos bytes [] mult h = rw (← some_injective h) (omega arith)
factor_pos sectors_1k [] mult h = rw (← some_injective h) (omega arith)
factor_pos bytes (c ∷ []) mult h =
    one_of_three (c == 0x6b || c == 0x4b) (c == 0x6d || c == 0x4d) (c == 0x67 || c == 0x47) mult h
factor_pos sectors_1k (c ∷ []) mult h =
    one_of_three (c == 0x6b || c == 0x4b) (c == 0x6d || c == 0x4d) (c == 0x67 || c == 0x47) mult h
factor_pos bytes (c ∷ d ∷ cs) mult h = absurd (none_ne_some h)
factor_pos sectors_1k (c ∷ d ∷ cs) mult h = absurd (none_ne_some h)

-- What a size stands for.
pub record IsSize (unit : BareSizeUnit) (value : ℕ) (rest : List ℕ) (size : ℕ) : Type 0 where
  pub mult : ℕ
  pub factor : factor_of unit rest ≡ some mult
  pub product : size ≡ value * mult
  pub fits : size < 2 ^ 64
  pub positive : 0 < value

scaled-IsSize :
    (unit : BareSizeUnit) (value : ℕ) (rest : List ℕ) (o : Option ℕ) (size : ℕ)
    → factor_of unit rest ≡ o
    → scaled value o ≡ some size
    → IsSize unit value rest size
unfolding scaled
scaled-IsSize unit value rest none size e h = absurd (none_ne_some h)
scaled-IsSize unit value rest (some mult) size e h =
    elim (Bool-cases (value == 0 || ltb ((2 ^ 64 - 1) / mult) value)) [
      | inl refused ↦ absurd (none_ne_some (rw refused at h))
      | inr accepted ↦
          let below : value ≤ (2 ^ 64 - 1) / mult = ground arith in
          let small : value * mult ≤ 2 ^ 64 - 1 =
            (le-div_iff_mul-le (factor_pos unit rest mult e)).0 below in
          let same : mul64 value mult ≡ size = some_injective (rw accepted at h) in
          let whole : size ≡ value * mult = sym same ∙ no_wrap (value * mult) small in
          record {
            mult = mult;
            factor = e;
            product = whole;
            fits = rw whole (omega arith);
            positive = ground arith;
          }
    ]
  where
    no_wrap : (n : ℕ) → n ≤ 2 ^ 64 - 1 → n % 2 ^ 64 ≡ n
    no_wrap n fits = omega arith

-- A size that nextufs_parse_size_bytes accepts is the number that strtoull has read, which is not 0,
-- times the factor of its suffix, or of the unit where there is none; the product fits 64 bits.
pub parse_size_bytes_ok :
    (strtoull : List ℕ → Option (ℕ × List ℕ)) (s : List ℕ) (unit : BareSizeUnit) (size : ℕ)
    → parse_size_bytes strtoull s unit ≡ some size
    → (value : ℕ) × (rest : List ℕ) × (strtoull s ≡ some (value, rest))
      × IsSize unit value rest size
unfolding parse_size_bytes scale_parsed
parse_size_bytes_ok strtoull s unit size h = of_read (strtoull s) refl h
  where
    of_read :
        (o : Option (ℕ × List ℕ))
        → strtoull s ≡ o
        → scale_parsed unit o ≡ some size
        → (value : ℕ) × (rest : List ℕ) × (strtoull s ≡ some (value, rest))
          × IsSize unit value rest size
    of_read none e h = absurd (none_ne_some h)
    of_read (some (value, rest)) e h =
        (value, rest, e, scaled-IsSize unit value rest (factor_of unit rest) size refl h)
