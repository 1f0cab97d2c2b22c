-- ===== src/Memman/Alloc.antt =====
-- What the loop of the four allocators of kernel/memman.c does to the set of free bytes.
use exp_memfs.Base.{
  ℕ, ◌+◌, ◌≤◌, ◌<◌, ◌≡◌, refl, false, not, ◌&&◌, Option, none, some, List, [], ◌∷◌, ◌⊎◌, inl, inr,
  minus_one, arith,
}
use exp_memfs.Memman.{FreeInfo, Memman, alloc_from, fits, settle}
use exp_memfs.Memman.Region.{Region, low, high, amount, request, request-eq-settle}
use exp_memfs.Memman.View.{in_block, is_free, Gapped, IsFreeList, bytes, Gapped-le, not_free_below}

module _ (lo hi n : ℕ) where
  -- No entry passes the test of the loop.
  abbrev pub NoneFits : List FreeInfo → Type 0
  NoneFits [] = Unit {0}
  NoneFits (e ∷ es) = (fits lo hi n e ≡ false) × NoneFits es

  abbrev pub Took : ℕ → List FreeInfo → Option (ℕ × List FreeInfo) → Type 0
  Took k xs none = NoneFits xs
  Took k xs (some (a, r)) =
      Gapped k r × (k ≤ a) × (lo ≤ a) × (a + n < hi) × (bytes r + n ≡ bytes xs)

  pub alloc_from-Took :
      (k : ℕ) (xs : List FreeInfo) → Gapped k xs → Took k xs (alloc_from lo hi n xs)
  unfolding alloc_from
  alloc_from-Took k [] g = tt
  alloc_from-Took k (x ∷ xs) g =
      ground
        (arith, alloc_from-Took (x.addr + x.size + 1) xs g.3, Gapped-le k (x.addr + x.size + 1) xs)

  abbrev pub Removes : ℕ → List FreeInfo → Option (ℕ × List FreeInfo) → Type 0
  Removes x xs none = Unit {0}
  Removes x xs (some (a, r)) =
      (is_free x r ≡ (is_free x xs && not (in_block a n x)))
      × ((in_block a n x && is_free x xs) ≡ in_block a n x)

  pub alloc_from-Removes :
      (x k : ℕ) (xs : List FreeInfo) → Gapped k xs → Removes x xs (alloc_from lo hi n xs)
  unfolding alloc_from
  alloc_from-Removes x k [] g = tt
  alloc_from-Removes x k (e ∷ es) g = ground (
    arith,
    alloc_from-Took (e.addr + e.size + 1) es g.3,
    alloc_from-Removes x (e.addr + e.size + 1) es g.3,
    not_free_below x (e.addr + e.size + 1) es g.3,
  )

  -- Either nothing fits and nothing changes, or a block of `n` free bytes between the walls leaves
  -- the free bytes, and no other byte does.
  abbrev pub Serves : Memman → ℕ × Memman → Type 0
  Serves m (a, m') =
      ((a ≡ minus_one) × (m' ≡ m) × NoneFits m.free)
      ⊎ ((lo ≤ a)
          × (a + n < hi)
          × IsFreeList m'.free
          × (bytes m'.free + n ≡ bytes m.free)
          × ((x : ℕ) → is_free x m'.free ≡ (is_free x m.free && not (in_block a n x)))
          × ((x : ℕ) → (in_block a n x && is_free x m.free) ≡ in_block a n x))

  settle-Serves :
      (m : Memman) (o : Option (ℕ × List FreeInfo))
      → Took 0 m.free o
      → ((x : ℕ) → Removes x m.free o)
      → Serves m (settle m o)
  settle-Serves m none t r = inl (refl, refl, t)
  settle-Serves m (some (a, f)) t r = inr (t.2, t.3, t.0, t.4, (λ x. (r x).0), (λ x. (r x).1))

  pub alloc_from-Serves :
      (m : Memman) → IsFreeList m.free → Serves m (settle m (alloc_from lo hi n m.free))
  alloc_from-Serves m g =
      settle-Serves m (alloc_from lo hi n m.free) (alloc_from-Took 0 m.free g)
        (λ x. alloc_from-Removes x 0 m.free g)

-- Over a well-formed free list each of the four allocators either returns -1, when no entry passes
-- its test, and leaves the manager as it was; or it returns a block of the bytes asked for that
-- lies in the allocator's own region, was free throughout and is free no more, while every other
-- byte stays as it was, the list stays well formed and the free total falls by the bytes asked for.
pub allocators_serve :
    (g : Region) (m : Memman) (n : ℕ)
    → IsFreeList m.free
    → Serves (low g) (high g) (amount g n) m (request g m n)
allocators_serve g m n v =
    rw (request-eq-settle g m n) (alloc_from-Serves (low g) (high g) (amount g n) m v)
