-- ===== src/Fsck/Tables.antt =====
-- The fragment tables of src/fsck/frag_support.c.
use nextufs_offline.Base.{ℕ, List, [], ◌∷◌}

-- `(map & around) == inside` finds a run of free fragments between two that are not free.
abbrev pub around : List ℕ
around = 0x3 ∷ 0x7 ∷ 0xf ∷ 0x1f ∷ 0x3f ∷ 0x7f ∷ 0xff ∷ 0x1ff ∷ 0x3ff ∷ []

abbrev pub inside : List ℕ
inside = 0x0 ∷ 0x2 ∷ 0x6 ∷ 0xe ∷ 0x1e ∷ 0x3e ∷ 0x7e ∷ 0xfe ∷ 0x1fe ∷ []

-- Which sizes of run occur in a map of a byte, for blocks of 1, 2 or 4 fragments.
abbrev pub fragtbl124 : List ℕ
fragtbl124 =
    0x00 ∷ 0x16 ∷ 0x16 ∷ 0x2a ∷ 0x16 ∷ 0x16 ∷ 0x26 ∷ 0x4e ∷ 0x16 ∷ 0x16 ∷ 0x16 ∷ 0x3e ∷ 0x2a ∷ 0x3e
    ∷ 0x4e ∷ 0x8a ∷ 0x16 ∷ 0x16 ∷ 0x16 ∷ 0x3e ∷ 0x16 ∷ 0x16 ∷ 0x36 ∷ 0x5e ∷ 0x16 ∷ 0x16 ∷ 0x16
    ∷ 0x3e ∷ 0x3e ∷ 0x3e ∷ 0x5e ∷ 0x9e ∷ 0x16 ∷ 0x16 ∷ 0x16 ∷ 0x3e ∷ 0x16 ∷ 0x16 ∷ 0x36 ∷ 0x5e
    ∷ 0x16 ∷ 0x16 ∷ 0x16 ∷ 0x3e ∷ 0x3e ∷ 0x3e ∷ 0x5e ∷ 0x9e ∷ 0x2a ∷ 0x3e ∷ 0x3e ∷ 0x2a ∷ 0x3e
    ∷ 0x3e ∷ 0x2e ∷ 0x6e ∷ 0x3e ∷ 0x3e ∷ 0x3e ∷ 0x3e ∷ 0x2a ∷ 0x3e ∷ 0x6e ∷ 0xaa ∷ 0x16 ∷ 0x16
    ∷ 0x16 ∷ 0x3e ∷ 0x16 ∷ 0x16 ∷ 0x36 ∷ 0x5e ∷ 0x16 ∷ 0x16 ∷ 0x16 ∷ 0x3e ∷ 0x3e ∷ 0x3e ∷ 0x5e
    ∷ 0x9e ∷ 0x16 ∷ 0x16 ∷ 0x16 ∷ 0x3e ∷ 0x16 ∷ 0x16 ∷ 0x36 ∷ 0x5e ∷ 0x16 ∷ 0x16 ∷ 0x16 ∷ 0x3e
    ∷ 0x3e ∷ 0x3e ∷ 0x5e ∷ 0x9e ∷ 0x26 ∷ 0x36 ∷ 0x36 ∷ 0x2e ∷ 0x36 ∷ 0x36 ∷ 0x26 ∷ 0x6e ∷ 0x36
    ∷ 0x36 ∷ 0x36 ∷ 0x3e ∷ 0x2e ∷ 0x3e ∷ 0x6e ∷ 0xae ∷ 0x4e ∷ 0x5e ∷ 0x5e ∷ 0x6e ∷ 0x5e ∷ 0x5e
    ∷ 0x6e ∷ 0x4e ∷ 0x5e ∷ 0x5e ∷ 0x5e ∷ 0x7e ∷ 0x6e ∷ 0x7e ∷ 0x4e ∷ 0xce ∷ 0x16 ∷ 0x16 ∷ 0x16
    ∷ 0x3e ∷ 0x16 ∷ 0x16 ∷ 0x36 ∷ 0x5e ∷ 0x16 ∷ 0x16 ∷ 0x16 ∷ 0x3e ∷ 0x3e ∷ 0x3e ∷ 0x5e ∷ 0x9e
    ∷ 0x16 ∷ 0x16 ∷ 0x16 ∷ 0x3e ∷ 0x16 ∷ 0x16 ∷ 0x36 ∷ 0x5e ∷ 0x16 ∷ 0x16 ∷ 0x16 ∷ 0x3e ∷ 0x3e
    ∷ 0x3e ∷ 0x5e ∷ 0x9e ∷ 0x16 ∷ 0x16 ∷ 0x16 ∷ 0x3e ∷ 0x16 ∷ 0x16 ∷ 0x36 ∷ 0x5e ∷ 0x16 ∷ 0x16
    ∷ 0x16 ∷ 0x3e ∷ 0x3e ∷ 0x3e ∷ 0x5e ∷ 0x9e ∷ 0x3e ∷ 0x3e ∷ 0x3e ∷ 0x3e ∷ 0x3e ∷ 0x3e ∷ 0x3e
    ∷ 0x7e ∷ 0x3e ∷ 0x3e ∷ 0x3e ∷ 0x3e ∷ 0x3e ∷ 0x3e ∷ 0x7e ∷ 0xbe ∷ 0x2a ∷ 0x3e ∷ 0x3e ∷ 0x2a
    ∷ 0x3e ∷ 0x3e ∷ 0x2e ∷ 0x6e ∷ 0x3e ∷ 0x3e ∷ 0x3e ∷ 0x3e ∷ 0x2a ∷ 0x3e ∷ 0x6e ∷ 0xaa ∷ 0x3e
    ∷ 0x3e ∷ 0x3e ∷ 0x3e ∷ 0x3e ∷ 0x3e ∷ 0x3e ∷ 0x7e ∷ 0x3e ∷ 0x3e ∷ 0x3e ∷ 0x3e ∷ 0x3e ∷ 0x3e
    ∷ 0x7e ∷ 0xbe ∷ 0x4e ∷ 0x5e ∷ 0x5e ∷ 0x6e ∷ 0x5e ∷ 0x5e ∷ 0x6e ∷ 0x4e ∷ 0x5e ∷ 0x5e ∷ 0x5e
    ∷ 0x7e ∷ 0x6e ∷ 0x7e ∷ 0x4e ∷ 0xce ∷ 0x8a ∷ 0x9e ∷ 0x9e ∷ 0xaa ∷ 0x9e ∷ 0x9e ∷ 0xae ∷ 0xce
    ∷ 0x9e ∷ 0x9e ∷ 0x9e ∷ 0xbe ∷ 0xaa ∷ 0xbe ∷ 0xce ∷ 0x8a ∷ []

-- The same for blocks of 8 fragments.
abbrev pub fragtbl8 : List ℕ
fragtbl8 =
    0x00 ∷ 0x01 ∷ 0x01 ∷ 0x02 ∷ 0x01 ∷ 0x01 ∷ 0x02 ∷ 0x04 ∷ 0x01 ∷ 0x01 ∷ 0x01 ∷ 0x03 ∷ 0x02 ∷ 0x03
    ∷ 0x04 ∷ 0x08 ∷ 0x01 ∷ 0x01 ∷ 0x01 ∷ 0x03 ∷ 0x01 ∷ 0x01 ∷ 0x03 ∷ 0x05 ∷ 0x02 ∷ 0x03 ∷ 0x03
    ∷ 0x02 ∷ 0x04 ∷ 0x05 ∷ 0x08 ∷ 0x10 ∷ 0x01 ∷ 0x01 ∷ 0x01 ∷ 0x03 ∷ 0x01 ∷ 0x01 ∷ 0x03 ∷ 0x05
    ∷ 0x01 ∷ 0x01 ∷ 0x01 ∷ 0x03 ∷ 0x03 ∷ 0x03 ∷ 0x05 ∷ 0x09 ∷ 0x02 ∷ 0x03 ∷ 0x03 ∷ 0x02 ∷ 0x03
    ∷ 0x03 ∷ 0x02 ∷ 0x06 ∷ 0x04 ∷ 0x05 ∷ 0x05 ∷ 0x06 ∷ 0x08 ∷ 0x09 ∷ 0x10 ∷ 0x20 ∷ 0x01 ∷ 0x01
    ∷ 0x01 ∷ 0x03 ∷ 0x01 ∷ 0x01 ∷ 0x03 ∷ 0x05 ∷ 0x01 ∷ 0x01 ∷ 0x01 ∷ 0x03 ∷ 0x03 ∷ 0x03 ∷ 0x05
    ∷ 0x09 ∷ 0x01 ∷ 0x01 ∷ 0x01 ∷ 0x03 ∷ 0x01 ∷ 0x01 ∷ 0x03 ∷ 0x05 ∷ 0x03 ∷ 0x03 ∷ 0x03 ∷ 0x03
    ∷ 0x05 ∷ 0x05 ∷ 0x09 ∷ 0x11 ∷ 0x02 ∷ 0x03 ∷ 0x03 ∷ 0x02 ∷ 0x03 ∷ 0x03 ∷ 0x02 ∷ 0x06 ∷ 0x03
    ∷ 0x03 ∷ 0x03 ∷ 0x03 ∷ 0x02 ∷ 0x03 ∷ 0x06 ∷ 0x0a ∷ 0x04 ∷ 0x05 ∷ 0x05 ∷ 0x06 ∷ 0x05 ∷ 0x05
    ∷ 0x06 ∷ 0x04 ∷ 0x08 ∷ 0x09 ∷ 0x09 ∷ 0x0a ∷ 0x10 ∷ 0x11 ∷ 0x20 ∷ 0x40 ∷ 0x01 ∷ 0x01 ∷ 0x01
    ∷ 0x03 ∷ 0x01 ∷ 0x01 ∷ 0x03 ∷ 0x05 ∷ 0x01 ∷ 0x01 ∷ 0x01 ∷ 0x03 ∷ 0x03 ∷ 0x03 ∷ 0x05 ∷ 0x09
    ∷ 0x01 ∷ 0x01 ∷ 0x01 ∷ 0x03 ∷ 0x01 ∷ 0x01 ∷ 0x03 ∷ 0x05 ∷ 0x03 ∷ 0x03 ∷ 0x03 ∷ 0x03 ∷ 0x05
    ∷ 0x05 ∷ 0x09 ∷ 0x11 ∷ 0x01 ∷ 0x01 ∷ 0x01 ∷ 0x03 ∷ 0x01 ∷ 0x01 ∷ 0x03 ∷ 0x05 ∷ 0x01 ∷ 0x01
    ∷ 0x01 ∷ 0x03 ∷ 0x03 ∷ 0x03 ∷ 0x05 ∷ 0x09 ∷ 0x03 ∷ 0x03 ∷ 0x03 ∷ 0x03 ∷ 0x03 ∷ 0x03 ∷ 0x03
    ∷ 0x07 ∷ 0x05 ∷ 0x05 ∷ 0x05 ∷ 0x07 ∷ 0x09 ∷ 0x09 ∷ 0x11 ∷ 0x21 ∷ 0x02 ∷ 0x03 ∷ 0x03 ∷ 0x02
    ∷ 0x03 ∷ 0x03 ∷ 0x02 ∷ 0x06 ∷ 0x03 ∷ 0x03 ∷ 0x03 ∷ 0x03 ∷ 0x02 ∷ 0x03 ∷ 0x06 ∷ 0x0a ∷ 0x03
    ∷ 0x03 ∷ 0x03 ∷ 0x03 ∷ 0x03 ∷ 0x03 ∷ 0x03 ∷ 0x07 ∷ 0x02 ∷ 0x03 ∷ 0x03 ∷ 0x02 ∷ 0x06 ∷ 0x07
    ∷ 0x0a ∷ 0x12 ∷ 0x04 ∷ 0x05 ∷ 0x05 ∷ 0x06 ∷ 0x05 ∷ 0x05 ∷ 0x06 ∷ 0x04 ∷ 0x05 ∷ 0x05 ∷ 0x05
    ∷ 0x07 ∷ 0x06 ∷ 0x07 ∷ 0x04 ∷ 0x0c ∷ 0x08 ∷ 0x09 ∷ 0x09 ∷ 0x0a ∷ 0x09 ∷ 0x09 ∷ 0x0a ∷ 0x0c
    ∷ 0x10 ∷ 0x11 ∷ 0x11 ∷ 0x12 ∷ 0x20 ∷ 0x21 ∷ 0x40 ∷ 0x80 ∷ []
