-- ===== src/Size.antt =====
-- src/core/size.c: sizes on the command line. `strtoull` is a parameter: the number and what stands
-- behind it, or nothing where no number is read or it does not fit 64 bits.
pub mod Bounds
use nextufs_offline.Base.{
  ℕ, ◌-◌, ◌*◌, ◌/◌, ◌^◌, Bool, ◌||◌, List, [], ◌∷◌, Option, none, some, mul64, ltb, ◌==◌,
  if◌then◌else◌,
}

-- `NEXTUFS_KIB_BYTES`
abbrev pub kib_bytes : ℕ
kib_bytes = 1024

-- `enum nextufs_bare_size_unit`
pub data BareSizeUnit : Type 0 where
  bytes sectors_1k : BareSizeUnit

-- The factor of a suffix.
unfoldable pub suffix_factor : ℕ → Option ℕ
suffix_factor c =
    if c == 0x6b || c == 0x4b
    then some kib_bytes
    else if c == 0x6d || c == 0x4d
    then some (kib_bytes * kib_bytes)
    else if c == 0x67 || c == 0x47
    then some (kib_bytes * kib_bytes * kib_bytes)
    else none

unfoldable pub factor_of : BareSizeUnit → List ℕ → Option ℕ
factor_of bytes [] = some 1
factor_of sectors_1k [] = some kib_bytes
factor_of unit (c ∷ []) = suffix_factor c
factor_of unit (c ∷ d ∷ cs) = none

unfoldable pub scaled : ℕ → Option ℕ → Option ℕ
scaled value none = none
scaled value (some mult) =
    if value == 0 || ltb ((2 ^ 64 - 1) / mult) value then none else some (mul64 value mult)

-- What `strtoull` has read is scaled by the suffix.
unfoldable pub scale_parsed : BareSizeUnit → Option (ℕ × List ℕ) → Option ℕ
scale_parsed unit none = none
scale_parsed unit (some (value, rest)) = scaled value (factor_of unit rest)

module _ (strtoull : List ℕ → Option (ℕ × List ℕ)) where
  unfoldable pub parse_size_bytes : List ℕ → BareSizeUnit → Option ℕ
  parse_size_bytes s unit = scale_parsed unit (strtoull s)

-- The whole string is a number.
unfoldable pub all_parsed : Option (ℕ × List ℕ) → Option ℕ
all_parsed (some (value, [])) = some value
all_parsed (some (value, c ∷ cs)) = none
all_parsed none = none

abbrev pub parse_u64 : (List ℕ → Option (ℕ × List ℕ)) → List ℕ → Option ℕ
parse_u64 strtoull s = all_parsed (strtoull s)
