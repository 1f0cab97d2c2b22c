-- ===== src/Memman.antt =====
-- The physical memory manager, kernel/memman.c with include/memman.h.
-- `free[0 .. frees)` is the list `free`, so `frees` is its length; the loops that move entries of
-- the array up or down by one place are `insert_at` and `erase_at`.
pub mod View
pub mod Region
pub mod Alloc
pub mod Release
pub mod Free
pub mod RoundTrip
pub mod Init
pub mod Total
pub mod Walls
mod Tests
use exp_memfs.Base.{
  sub32, ℕ, zero, suc, ◌-◌, Bool, false, ◌&&◌, Option, none, some, List, [], ◌∷◌, ltb, leb, ◌==◌,
  if◌then◌else◌, length, get_or, set, erase_at, insert_at, add32, minus_one,
}

-- `struct FREEINFO`
pub record FreeInfo : Type 0 where
  pub addr : ℕ
  pub size : ℕ

-- `struct MEMMAN`
pub record Memman : Type 0 where
  pub maxfrees : ℕ
  pub lostsize : ℕ
  pub losts : ℕ
  pub free : List FreeInfo

abbrev pub frees : Memman → ℕ
frees m = length m.free

-- MEMMAN_FREES and the walls between the regions.
abbrev pub memman_frees : ℕ
memman_frees = 4090

abbrev pub memstart : ℕ
memstart = 0x00400000

abbrev pub kwall : ℕ
kwall = 0x00600000

abbrev pub wall : ℕ
wall = 0x00800000

abbrev pub uwall : ℕ
uwall = 0x01000000

abbrev pub memend : ℕ
memend = 0x02000000

-- `memman_init`: the counters are cleared, and `frees = 0` empties the list.
pub memman_init : Memman
memman_init = record { maxfrees = 0; lostsize = 0; losts = 0; free = [] }

-- The test of an entry in the allocation loops.
abbrev pub fits : ℕ → ℕ → ℕ → FreeInfo → Bool
fits lo hi n e = leb lo e.addr && ltb (add32 e.addr n) hi && leb n e.size

-- The entry gives up its first `n` bytes, and is removed when nothing is left.
abbrev pub cut : ℕ → FreeInfo → List FreeInfo → List FreeInfo
cut n e es =
    if e.size - n == 0 then es else record { addr = add32 e.addr n; size = e.size - n } ∷ es

abbrev pub keep : FreeInfo → Option (ℕ × List FreeInfo) → Option (ℕ × List FreeInfo)
keep e none = none
keep e (some (a, r)) = some (a, e ∷ r)

-- The loop of the four allocators: the first entry that fits is cut.
unfoldable pub alloc_from : ℕ → ℕ → ℕ → List FreeInfo → Option (ℕ × List FreeInfo)
alloc_from lo hi n [] = none
alloc_from lo hi n (e ∷ es) =
    if fits lo hi n e then some (e.addr, cut n e es) else keep e (alloc_from lo hi n es)

-- The result of a loop: the address, or -1 with the manager as it was.
abbrev pub settle : Memman → Option (ℕ × List FreeInfo) → ℕ × Memman
settle m none = (minus_one, m)
settle m (some (a, r)) = (a, record m { free = r })

unfoldable pub memman_alloc : Memman → ℕ → ℕ × Memman
memman_alloc m n = settle m (alloc_from wall uwall n m.free)

unfoldable pub memman_kalloc : Memman → ℕ → ℕ × Memman
memman_kalloc m n = settle m (alloc_from kwall wall n m.free)

unfoldable pub memman_alloc_4k : Memman → ℕ × Memman
memman_alloc_4k m = settle m (alloc_from uwall memend 0x1000 m.free)

unfoldable pub memman_kalloc_4k : Memman → ℕ × Memman
memman_kalloc_4k m = settle m (alloc_from memstart kwall 0x1000 m.free)

-- The first loop of `memman_free`: the index of the first entry above `a`.
unfoldable pub position : ℕ → List FreeInfo → ℕ
position a [] = 0
position a (e ∷ es) = if ltb a e.addr then 0 else suc (position a es)

abbrev pub no_entry : FreeInfo
no_entry = record { addr = 0; size = 0 }

-- `i > 0` and `free[i-1]` ends at `a`
pub joins_prev : ℕ → ℕ → List FreeInfo → Bool
joins_prev a zero xs = false
joins_prev a (suc k) xs = let e = get_or xs k no_entry in add32 e.addr e.size == a

-- `i < frees` and `free[i]` begins at `a + n`
pub joins_next : ℕ → ℕ → ℕ → List FreeInfo → Bool
joins_next a n i xs = ltb i (length xs) && (add32 a n == (get_or xs i no_entry).addr)

abbrev pub grow : FreeInfo → ℕ → FreeInfo
grow e n = record e { size = add32 e.size n }

-- `free[i-1].size += n`
pub grow_prev : ℕ → ℕ → List FreeInfo → List FreeInfo
grow_prev n zero xs = xs
grow_prev n (suc k) xs = set xs k (grow (get_or xs k no_entry) n)

-- The list that `memman_free` leaves, for the index `i` of its first loop. `none` is the full table.
unfoldable pub place : ℕ → ℕ → ℕ → ℕ → List FreeInfo → Option (List FreeInfo)
unfolding joins_prev joins_next grow_prev
place room a n i xs =
    if joins_prev a i xs
    then (if joins_next a n i xs
        then some (erase_at i (grow_prev (get_or xs i no_entry).size i (grow_prev n i xs)))
        else some (grow_prev n i xs))
    else if joins_next a n i xs
    then some (set xs i (record { addr = a; size = add32 (get_or xs i no_entry).size n }))
    else if ltb (length xs) room
    then some (insert_at i (record { addr = a; size = n }) xs)
    else none

abbrev pub raise_max : ℕ → ℕ → ℕ
raise_max old n = if ltb old n then n else old

-- `memman_free`. Only an insertion lets `frees` grow, so `maxfrees` is raised in that case alone.
unfoldable pub memman_free : Memman → ℕ → ℕ → ℕ × Memman
memman_free m a n =
    if n == 0 then (0, m) else elim (place memman_frees a n (position a m.free) m.free) [
      | none ↦ (minus_one, record m { losts = add32 m.losts 1; lostsize = add32 m.lostsize n })
      | some r ↦ (
        0,
        record m {
          free = r;
          maxfrees =
              if ltb (length m.free) (length r)
              then raise_max m.maxfrees (length r)
              else m.maxfrees;
        },
      )
    ]

unfoldable pub memman_free_4k : Memman → ℕ → ℕ × Memman
memman_free_4k m a = memman_free m a 0x1000

-- The loop of `memman_total`, with `t` summed so far.
pub total_from : ℕ → List FreeInfo → ℕ
total_from t [] = t
total_from t (e ∷ es) = total_from (add32 t e.size) es

pub memman_total : Memman → ℕ
unfolding total_from
memman_total m = total_from 0 m.free

-- The first loop of `init` over MemInfo[1 ..]: each value ends a run of good memory, and the next
-- run begins a page behind it. Values below the start of the run are passed over.
unfoldable pub seed : Memman → ℕ → List ℕ → Memman
seed m start [] = m
seed m start (v ∷ vs) =
    seed (if ltb v start then m else (memman_free m start (sub32 v start)).1)
      (if ltb v start then start else add32 v 0x1000) vs

-- One of the loops of `init` that part the blocks at a wall: the block across the wall keeps what
-- lies below the last page before it, and a new entry begins at the wall.
unfoldable pub part : ℕ → List FreeInfo → List FreeInfo
part w [] = []
part w (e ∷ es) =
    if leb e.addr w && ltb w (add32 e.addr e.size)
    then (if e.addr == w
        then e ∷ es
        else record { addr = e.addr; size = sub32 (sub32 w 0x1000) e.addr }
          ∷ record { addr = w; size = sub32 (add32 e.addr e.size) w }
          ∷ es)
    else e ∷ part w es

unfoldable pub part_man : ℕ → Memman → Memman
part_man w m = record m {
  free = part w m.free;
  maxfrees =
      if ltb (length m.free) (length (part w m.free))
      then raise_max m.maxfrees (length (part w m.free))
      else m.maxfrees;
}

-- `init`, for the values that the boot loader left in MemInfo[1 .. MemInfo[0]].
unfoldable pub init : List ℕ → Memman
init infos = part_man uwall (part_man wall (part_man kwall (seed memman_init memstart infos)))
