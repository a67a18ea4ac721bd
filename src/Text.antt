-- ===== src/Text.antt =====
-- C strings, and the literals of the source as lists of characters.
use nextufs_offline.Base.{ℕ, zero, suc, List, [], ◌∷◌}
use nextufs_offline.Memory.{Bytes}

-- A C string: its characters and its `strlen`.
pub record CString : Type 0 where
  pub chars : Bytes
  pub strlen : ℕ

abbrev pub nth : List ℕ → Bytes
nth [] j = 0
nth (c ∷ cs) zero = c
nth (c ∷ cs) (suc j) = nth cs j

abbrev pub length : List ℕ → ℕ
length [] = 0
length (c ∷ cs) = suc (length cs)

-- A literal of the source.
abbrev pub literal : List ℕ → CString
literal cs = record { chars = nth cs; strlen = length cs }
