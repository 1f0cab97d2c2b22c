-- ===== src/Keyboard/Keymap.antt =====
-- The table `keymap` of include/keymap.h: the keys of each scan code, alone, with shift, and behind
-- 0xE0.
use exp_memfs.Base.{ℕ, List, [], ◌∷◌, ◌++◌}

-- Scan codes 0x00 to 0x1F.
abbrev pub keymap_a : List ℕ
keymap_a =
    0 ∷ 0 ∷ 0 ∷ 0x101 ∷ 0x101 ∷ 0 ∷ 49 ∷ 33 ∷ 0 ∷ 50 ∷ 64 ∷ 0 ∷ 51 ∷ 35 ∷ 0 ∷ 52 ∷ 36 ∷ 0 ∷ 53 ∷ 37
    ∷ 0 ∷ 54 ∷ 94 ∷ 0 ∷ 55 ∷ 38 ∷ 0 ∷ 56 ∷ 42 ∷ 0 ∷ 57 ∷ 40 ∷ 0 ∷ 48 ∷ 41 ∷ 0 ∷ 45 ∷ 95 ∷ 0 ∷ 61
    ∷ 43 ∷ 0 ∷ 0x104 ∷ 0x104 ∷ 0 ∷ 0x102 ∷ 0x102 ∷ 0 ∷ 113 ∷ 81 ∷ 0 ∷ 119 ∷ 87 ∷ 0 ∷ 101 ∷ 69 ∷ 0
    ∷ 114 ∷ 82 ∷ 0 ∷ 116 ∷ 84 ∷ 0 ∷ 121 ∷ 89 ∷ 0 ∷ 117 ∷ 85 ∷ 0 ∷ 105 ∷ 73 ∷ 0 ∷ 111 ∷ 79 ∷ 0 ∷ 112
    ∷ 80 ∷ 0 ∷ 91 ∷ 123 ∷ 0 ∷ 93 ∷ 125 ∷ 0 ∷ 0x103 ∷ 0x103 ∷ 0x130 ∷ 0x10A ∷ 0x10A ∷ 0x10B ∷ 97 ∷ 65
    ∷ 0 ∷ 115 ∷ 83 ∷ 0 ∷ []

-- Scan codes 0x20 to 0x3F.
abbrev pub keymap_b : List ℕ
keymap_b =
    100 ∷ 68 ∷ 0 ∷ 102 ∷ 70 ∷ 0 ∷ 103 ∷ 71 ∷ 0 ∷ 104 ∷ 72 ∷ 0 ∷ 106 ∷ 74 ∷ 0 ∷ 107 ∷ 75 ∷ 0 ∷ 108
    ∷ 76 ∷ 0 ∷ 59 ∷ 58 ∷ 0 ∷ 39 ∷ 34 ∷ 0 ∷ 96 ∷ 126 ∷ 0 ∷ 0x108 ∷ 0x108 ∷ 0 ∷ 92 ∷ 124 ∷ 0 ∷ 122
    ∷ 90 ∷ 0 ∷ 120 ∷ 88 ∷ 0 ∷ 99 ∷ 67 ∷ 0 ∷ 118 ∷ 86 ∷ 0 ∷ 98 ∷ 66 ∷ 0 ∷ 110 ∷ 78 ∷ 0 ∷ 109 ∷ 77 ∷ 0
    ∷ 44 ∷ 60 ∷ 0 ∷ 46 ∷ 62 ∷ 0 ∷ 47 ∷ 63 ∷ 0x12C ∷ 0x109 ∷ 0x109 ∷ 0 ∷ 42 ∷ 42 ∷ 0 ∷ 0x10C ∷ 0x10C
    ∷ 0x10D ∷ 32 ∷ 32 ∷ 0 ∷ 0x10E ∷ 0x10E ∷ 0 ∷ 0x111 ∷ 0x111 ∷ 0 ∷ 0x112 ∷ 0x112 ∷ 0 ∷ 0x113
    ∷ 0x113 ∷ 0 ∷ 0x114 ∷ 0x114 ∷ 0 ∷ 0x115 ∷ 0x115 ∷ 0 ∷ []

-- Scan codes 0x40 to 0x5F.
abbrev pub keymap_c : List ℕ
keymap_c =
    0x116 ∷ 0x116 ∷ 0 ∷ 0x117 ∷ 0x117 ∷ 0 ∷ 0x118 ∷ 0x118 ∷ 0 ∷ 0x119 ∷ 0x119 ∷ 0 ∷ 0x11A ∷ 0x11A
    ∷ 0 ∷ 0x10F ∷ 0x10F ∷ 0 ∷ 0x110 ∷ 0x110 ∷ 0 ∷ 0x139 ∷ 55 ∷ 0x121 ∷ 0x13A ∷ 56 ∷ 0x125 ∷ 0x13B
    ∷ 57 ∷ 0x123 ∷ 0x12E ∷ 45 ∷ 0 ∷ 0x136 ∷ 52 ∷ 0x127 ∷ 0x137 ∷ 53 ∷ 0 ∷ 0x138 ∷ 54 ∷ 0x128 ∷ 0x12F
    ∷ 43 ∷ 0 ∷ 0x133 ∷ 49 ∷ 0x122 ∷ 0x134 ∷ 50 ∷ 0x126 ∷ 0x135 ∷ 51 ∷ 0x124 ∷ 0x132 ∷ 48 ∷ 0x11F
    ∷ 0x131 ∷ 46 ∷ 0x120 ∷ 0 ∷ 0 ∷ 0 ∷ 0 ∷ 0 ∷ 0 ∷ 0 ∷ 0 ∷ 0 ∷ 0x11B ∷ 0x11B ∷ 0 ∷ 0x11C ∷ 0x11C ∷ 0
    ∷ 0 ∷ 0 ∷ 0 ∷ 0 ∷ 0 ∷ 0 ∷ 0 ∷ 0 ∷ 0x105 ∷ 0 ∷ 0 ∷ 0x106 ∷ 0 ∷ 0 ∷ 0x107 ∷ 0 ∷ 0 ∷ 0 ∷ 0 ∷ 0 ∷ 0
    ∷ []

-- Scan codes 0x60 to 0x7F.
abbrev pub keymap_d : List ℕ
keymap_d =
    0 ∷ 0 ∷ 0 ∷ 0 ∷ 0 ∷ 0 ∷ 0 ∷ 0 ∷ 0 ∷ 0 ∷ 0 ∷ 0 ∷ 0 ∷ 0 ∷ 0 ∷ 0 ∷ 0 ∷ 0 ∷ 0 ∷ 0 ∷ 0 ∷ 0 ∷ 0 ∷ 0
    ∷ 0 ∷ 0 ∷ 0 ∷ 0 ∷ 0 ∷ 0 ∷ 0 ∷ 0 ∷ 0 ∷ 0 ∷ 0 ∷ 0 ∷ 0 ∷ 0 ∷ 0 ∷ 0 ∷ 0 ∷ 0 ∷ 0 ∷ 0 ∷ 0 ∷ 0 ∷ 0 ∷ 0
    ∷ 0 ∷ 0 ∷ 0 ∷ 0 ∷ 0 ∷ 0 ∷ 0 ∷ 0 ∷ 0 ∷ 0 ∷ 0 ∷ 0 ∷ 0 ∷ 0 ∷ 0 ∷ 0 ∷ 0 ∷ 0 ∷ 0 ∷ 0 ∷ 0 ∷ 0 ∷ 0 ∷ 0
    ∷ 0 ∷ 0 ∷ 0 ∷ 0 ∷ 0 ∷ 0 ∷ 0 ∷ 0 ∷ 0 ∷ 0 ∷ 0 ∷ 0 ∷ 0 ∷ 0 ∷ 0 ∷ 0 ∷ 0 ∷ 0 ∷ 0 ∷ 0 ∷ 0 ∷ 0 ∷ 0 ∷ 0
    ∷ []

abbrev pub keymap : List ℕ
keymap = keymap_a ++ keymap_b ++ keymap_c ++ keymap_d
