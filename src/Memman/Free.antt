-- ===== src/Memman/Free.antt =====
-- What `memman_free` of kernel/memman.c does to the set of free bytes, to the table and to its
-- counters, and how it undoes the allocators.
use exp_memfs.Base.{
  ◌==◌, false, ltb, if◌then◌else◌, length, add32, minus_one, ℕ, ◌+◌, ◌^◌, ◌≤◌, ◌<◌, ◌≡◌, refl, ◌⊎◌,
  inl, inr, ◌||◌, Option, none, some, List, arith,
}
use exp_memfs.Memman.{FreeInfo, Memman, memman_free, memman_frees, raise_max}
use exp_memfs.Memman.View.{in_block, is_free, IsFreeList, Apart, bytes}
use exp_memfs.Memman.Release.{release, place-eq-release}
use exp_memfs.Memman.Release.Bytes.{Given, Adds, release-Given, release-Adds}

-- The invariant of the manager: a well-formed list that fits the table, and a high-water mark that
-- is no lower than the number of entries.
pub record IsValid (m : Memman) : Type 0 where
  pub list : IsFreeList m.free
  pub room : length m.free ≤ memman_frees
  pub mark : length m.free ≤ m.maxfrees

-- The outcome of freeing the `n` bytes from `a` on.
abbrev pub Frees : ℕ → ℕ → Memman → ℕ × Memman → Type 0
Frees a n m (c, m') =
    ((c ≡ 0)
      × IsValid m'
      × (bytes m'.free ≡ bytes m.free + n)
      × ((x : ℕ) → is_free x m'.free ≡ (is_free x m.free || in_block a n x))
      × (m'.losts ≡ m.losts)
      × (m'.lostsize ≡ m.lostsize))
    ⊎ ((c ≡ minus_one)
        × (length m.free ≡ memman_frees)
        × (m' ≡ record m { losts = add32 m.losts 1; lostsize = add32 m.lostsize n }))

-- `memman_free` once its first loop and the branches by index are the recursion `release`.
abbrev pub finish : Memman → ℕ → Option (List FreeInfo) → ℕ × Memman
finish m n none = (minus_one, record m { losts = add32 m.losts 1; lostsize = add32 m.lostsize n })
finish m n (some r) = (
  0,
  record m {
    free = r;
    maxfrees =
        if ltb (length m.free) (length r) then raise_max m.maxfrees (length r) else m.maxfrees;
  },
)

pos_ne_zero : (n : ℕ) → 0 < n → (n == 0) ≡ false
pos_ne_zero n h = ground arith

pub memman_free-eq-finish :
    (m : Memman) (a n : ℕ)
    → 0 < n
    → memman_free m a n ≡ finish m n (release (ltb (length m.free) memman_frees) a n m.free)
unfolding memman_free
memman_free-eq-finish m a n h =
    rw (← place-eq-release memman_frees a n m.free) (rw (pos_ne_zero n h))

finish-Frees :
    (a n : ℕ) (m : Memman) (o : Option (List FreeInfo))
    → IsValid m
    → Given a n (ltb (length m.free) memman_frees) 0 m.free o
    → ((x : ℕ) → Adds a n x m.free o)
    → Frees a n m (finish m n o)
finish-Frees a n m none v g d = inr (refl, ground arith, refl)
finish-Frees a n m (some r) v g d =
    inl (refl, record { list = g.0; room = ground arith; mark = ground arith }, g.1, d, refl, refl)

-- Freeing a non-empty block below 2 ^ 32 that lies outside every free block either returns 0: its
-- bytes become free, no other byte changes, the free total grows by its size, nothing is counted as
-- lost, and the invariant holds again; or it returns -1, which happens only with all 4090 entries in
-- use: the free bytes stay as they were and the block is counted as lost.
pub memman_free_lem :
    (m : Memman) (a n : ℕ)
    → IsValid m
    → 0 < n
    → a + n < 2 ^ 32
    → Apart a n m.free
    → Frees a n m (memman_free m a n)
memman_free_lem m a n v pos fit d = rw (memman_free-eq-finish m a n pos) (
    finish-Frees a n m (release (ltb (length m.free) memman_frees) a n m.free) v
      (release-Given a n pos fit (ltb (length m.free) memman_frees) 0 m.free (omega arith) v.list d)
      (λ x.
        release-Adds a n pos fit x (ltb (length m.free) memman_frees) 0 m.free (omega arith) v.list
          d))
