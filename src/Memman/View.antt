-- ===== src/Memman/View.antt =====
-- What a free list stands for: the set of free bytes. A list is well formed if its blocks are
-- not empty, rise, keep a gap between neighbours and end below 2 ^ 32.
use exp_memfs.Base.{
  ltb, leb, ℕ, ◌+◌, ◌^◌, ◌≤◌, ◌<◌, ◌≡◌, refl, ◌⊎◌, Bool, false, ◌&&◌, ◌||◌, List, [], ◌∷◌, arith,
}
use exp_memfs.Memman.{FreeInfo}

-- Byte `x` lies in the `n` bytes from `a` on.
abbrev pub in_block : ℕ → ℕ → ℕ → Bool
in_block a n x = leb a x && ltb x (a + n)

-- Byte `x` is free.
abbrev pub is_free : ℕ → List FreeInfo → Bool
is_free x [] = false
is_free x (e ∷ es) = in_block e.addr e.size x || is_free x es

-- No block begins below `lo`.
abbrev pub Gapped : ℕ → List FreeInfo → Type 0
Gapped lo [] = Unit {0}
Gapped lo (e ∷ es) =
    (lo ≤ e.addr) × (0 < e.size) × (e.addr + e.size < 2 ^ 32) × Gapped (e.addr + e.size + 1) es

abbrev pub IsFreeList : List FreeInfo → Type 0
IsFreeList xs = Gapped 0 xs

-- The `n` bytes from `a` on lie outside every block.
abbrev pub Apart : ℕ → ℕ → List FreeInfo → Type 0
Apart a n [] = Unit {0}
Apart a n (e ∷ es) = ((a + n ≤ e.addr) ⊎ (e.addr + e.size ≤ a)) × Apart a n es

-- The free bytes, counted.
abbrev pub bytes : List FreeInfo → ℕ
bytes [] = 0
bytes (e ∷ es) = e.size + bytes es

pub Gapped-le : (k lo : ℕ) (xs : List FreeInfo) → k ≤ lo → Gapped lo xs → Gapped k xs
Gapped-le k lo [] h g = tt
Gapped-le k lo (e ∷ es) h g = ground arith

pub not_free_below : (x lo : ℕ) (xs : List FreeInfo) → Gapped lo xs → x < lo → is_free x xs ≡ false
not_free_below x lo [] g h = refl
not_free_below x lo (e ∷ es) g h = ground (arith, not_free_below x (e.addr + e.size + 1) es g.3)
