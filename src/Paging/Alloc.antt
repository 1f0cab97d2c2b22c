-- ===== src/Paging/Alloc.antt =====
-- The page that `do_kmalloc_4k` gives kernel/pagetbl.c for a table, where the free blocks are pages.
use exp_memfs.Base.{
  Bool-cases, minus_one, ℕ, ◌+◌, ◌%◌, ◌^◌, ◌≤◌, ◌<◌, ◌≡◌, refl, ◌⊎◌, inl, inr, true, false, Option,
  none, some, List, [], ◌∷◌, arith,
}
use exp_memfs.Memman.{
  Memman, FreeInfo, memman_kalloc_4k, alloc_from, fits, cut, settle, memstart, kwall, keep,
}
use exp_memfs.Memman.View.{is_free, IsFreeList}
use exp_memfs.Memman.Region.{kernel_page}
use exp_memfs.Memman.Alloc.{allocators_serve}
use exp_memfs.Paging.Space.{IsPage}

-- Every free block begins at a page.
abbrev pub Aligned : List FreeInfo → Type 0
Aligned [] = Unit {0}
Aligned (e ∷ es) = (e.addr % 4096 ≡ 0) × Aligned es

-- What an allocation of a page leaves.
abbrev Served : Option (ℕ × List FreeInfo) → Type 0
Served none = Unit {0}
Served (some (a, r)) = (a % 4096 ≡ 0) × Aligned r

Served-keep :
    (e : FreeInfo) (o : Option (ℕ × List FreeInfo))
    → e.addr % 4096 ≡ 0
    → Served o
    → Served (keep e o)
Served-keep e none h o = tt
Served-keep e (some (a, r)) h o = (o.0, (h, o.1))

Served-cut : (e : FreeInfo) (es : List FreeInfo) → Aligned (e ∷ es) → Aligned (cut 0x1000 e es)
Served-cut e es h = ground (arith, h)

alloc_from-Served :
    (lo hi : ℕ) (xs : List FreeInfo) → Aligned xs → Served (alloc_from lo hi 0x1000 xs)
unfolding alloc_from
alloc_from-Served lo hi [] h = tt
alloc_from-Served lo hi (e ∷ es) h = elim (Bool-cases (fits lo hi 0x1000 e)) [
  | inl f ↦ rw (alloc_from, f) (h.0, Served-cut e es h)
  | inr f ↦
      rw (alloc_from, f)
        (Served-keep e (alloc_from lo hi 0x1000 es) h.0 (alloc_from-Served lo hi es h.1))
]

settle-Aligned :
    (m : Memman) (o : Option (ℕ × List FreeInfo))
    → Aligned m.free
    → Served o
    → Aligned (settle m o).1.free × (((settle m o).0 ≡ minus_one) ⊎ ((settle m o).0 % 4096 ≡ 0))
settle-Aligned m none h o = (h, inl refl)
settle-Aligned m (some (a, r)) h o = (o.1, inr o.0)

-- No byte of the 4096 from `p` on is free.
abbrev pub IsUsed : ℕ → List FreeInfo → Type 0
IsUsed p xs = (x : ℕ) → x < 4096 → is_free (p + x) xs ≡ false

-- A block for a table: its 4096 bytes were free, and are free no more.
pub record Block (m : Memman) (r : ℕ × Memman) : Type 0 where
  pub below : r.0 + 4096 ≤ 2 ^ 30
  pub above : 0 < r.0
  pub was_free : (x : ℕ) → x < 4096 → is_free (r.0 + x) m.free ≡ true
  pub taken : IsUsed r.0 r.1.free
  pub others : (x : ℕ) → is_free x m.free ≡ false → is_free x r.1.free ≡ false
  pub still_list : IsFreeList r.1.free

pub kalloc-Block :
    (m : Memman)
    → IsFreeList m.free
    → ((memman_kalloc_4k m).0 ≡ minus_one) ⊎ Block m (memman_kalloc_4k m)
unfolding memman_kalloc_4k
kalloc-Block m v = elim (allocators_serve kernel_page m 0 v) [
  | inl (e, _, _) ↦ inl e
  | inr (lo, hi, list, _, after, before) ↦ inr (record {
    below = omega (arith, hi);
    above = omega (arith, lo);
    was_free = λ x h. ground (arith, before ((memman_kalloc_4k m).0 + x), h);
    taken = λ x h. ground (arith, after ((memman_kalloc_4k m).0 + x), h);
    others = λ x h. ground (arith, after x, h);
    still_list = list;
  })
]

-- Where the free blocks are pages, so is the block, and so are those that are left.
pub kalloc-Aligned :
    (m : Memman)
    → Aligned m.free
    → Aligned (memman_kalloc_4k m).1.free
      × (((memman_kalloc_4k m).0 ≡ minus_one) ⊎ ((memman_kalloc_4k m).0 % 4096 ≡ 0))
unfolding memman_kalloc_4k
kalloc-Aligned m al =
    settle-Aligned m (alloc_from memstart kwall 0x1000 m.free) al
      (alloc_from-Served memstart kwall m.free al)

-- The block is a page.
pub record Page (m : Memman) (r : ℕ × Memman) : Type 0 where
  pub page : IsPage r.0
  pub block : Block m r

pub Block-Page : (m : Memman) (r : ℕ × Memman) → Block m r → r.0 % 4096 ≡ 0 → Page m r
Block-Page m r b h = record { page = (h, omega (arith, b.below)); block = b }
