-- ===== src/Memman/Init.antt =====
-- `init` of kernel/memman.c: the free list that the memory map gives, and the walls.
use exp_memfs.Base.{
  ltb, ◌==◌, lt→ltb, Bool-cases, length, add32, sub32, ℕ, suc, ◌+◌, ◌-◌, ◌^◌, ◌≤◌, ◌<◌, ◌≡◌, refl,
  ap, ◌⊎◌, inl, inr, true, some, List, [], ◌∷◌, arith,
}
use exp_memfs.Base.{lt→ltb, sub32, add32}
use mathlib.Core.Path.{subst}
use native.Mathlib.Nat.{add-zero}
use exp_memfs.Memman.{FreeInfo, Memman, memman_free, seed, memman_frees, kwall, wall, uwall}
use exp_memfs.Memman.View.{Gapped}
use exp_memfs.Memman.Release.{release}
use exp_memfs.Memman.Free.{IsValid, memman_free-eq-finish}

-- Every block ends below `b`.
abbrev pub Below : ℕ → List FreeInfo → Type 0
Below b [] = Unit {0}
Below b (e ∷ es) = (e.addr + e.size < b) × Below b es

Below-le : (b c : ℕ) (xs : List FreeInfo) → b ≤ c → Below b xs → Below c xs
Below-le b c [] h d = tt
Below-le b c (e ∷ es) h d = (omega arith, Below-le b c es h d.1)

abbrev snoc : List FreeInfo → ℕ → ℕ → List FreeInfo
snoc [] a n = record { addr = a; size = n } ∷ []
snoc (e ∷ es) a n = e ∷ snoc es a n

release_above :
    (a n : ℕ) (xs : List FreeInfo)
    → Below a xs
    → a < 2 ^ 32
    → release true a n xs ≡ some (snoc xs a n)
unfolding release
release_above a n [] d b = refl
release_above a n (e ∷ []) d b = ground arith
release_above a n (e ∷ f ∷ es) d b = ground (arith, release_above a n (f ∷ es) d.1 b)

length-snoc : (xs : List FreeInfo) (a n : ℕ) → length (snoc xs a n) ≡ suc (length xs)
length-snoc [] a n = refl
length-snoc (e ∷ es) a n = ap suc (length-snoc es a n)

snoc-Gapped :
    (k a n : ℕ) (xs : List FreeInfo)
    → Gapped k xs
    → Below a xs
    → k ≤ a
    → 0 < n
    → a + n < 2 ^ 32
    → Gapped k (snoc xs a n)
snoc-Gapped k a n [] g d h p b = ground arith
snoc-Gapped k a n (e ∷ es) g d h p b =
    (g.0, g.1, g.2, snoc-Gapped (e.addr + e.size + 1) a n es g.3 d.1 (omega arith) p b)

snoc-Below : (c a n : ℕ) (xs : List FreeInfo) → Below a xs → a + n < c → Below c (snoc xs a n)
snoc-Below c a n [] d h = ground arith
snoc-Below c a n (e ∷ es) d h = (omega arith, snoc-Below c a n es d.1 h)

-- A run that begins at `a` does not begin in the page that ends at a wall.
abbrev pub Roomy : ℕ → ℕ → Type 0
Roomy w a = (a + 0x1000 < w) ⊎ (w ≤ a)

abbrev pub AllRoomy : ℕ → List FreeInfo → Type 0
AllRoomy w [] = Unit {0}
AllRoomy w (e ∷ es) = Roomy w e.addr × AllRoomy w es

abbrev pub Clear : ℕ → Type 0
Clear a = Roomy kwall a × Roomy wall a × Roomy uwall a

abbrev pub AllClear : List FreeInfo → Type 0
AllClear [] = Unit {0}
AllClear (e ∷ es) = Clear e.addr × AllClear es

snoc-AllClear : (xs : List FreeInfo) (a n : ℕ) → AllClear xs → Clear a → AllClear (snoc xs a n)
snoc-AllClear [] a n c h = (h, tt)
snoc-AllClear (e ∷ es) a n c h = (c.0, snoc-AllClear es a n c.1 h)

pub record Seeded (start l : ℕ) (m : Memman) : Type 0 where
  pub valid : IsValid m
  pub below : Below start m.free
  pub entries : length m.free ≤ l
  pub clear : AllClear m.free
  pub next : Clear start

module _ (start n l : ℕ) (m : Memman) where
  -- A run of `n` bytes, and the next one that begins a page behind it.
  free_above :
      Seeded start l m
      → 0 < n
      → start + n + 0x1000 < 2 ^ 32
      → l < memman_frees
      → Clear (start + n + 0x1000)
      → Seeded (start + n + 0x1000) (suc l) (memman_free m start n).1
  free_above s p b r c =
      rw
        (
          memman_free-eq-finish m start n p,
          lt→ltb (length m.free) memman_frees (omega (arith, s.entries)),
          release_above start n m.free s.below (omega arith),
        )
        (record {
          valid = record {
            list = snoc-Gapped 0 start n m.free s.valid.list s.below (omega arith) p (omega arith);
            room = ground (arith, length-snoc m.free start n, s.entries);
            mark = ground (arith, length-snoc m.free start n, s.valid.mark);
          };
          below = snoc-Below (start + n + 0x1000) start n m.free s.below (omega arith);
          entries = ground (arith, length-snoc m.free start n, s.entries);
          clear = snoc-AllClear m.free start n s.clear s.next;
          next = c;
        })

free_nothing : (start : ℕ) (m : Memman) → (memman_free m start 0).1 ≡ m
unfolding memman_free
free_nothing start m = refl

-- A run that has ended at `v`.
seed_run :
    (start v l : ℕ) (m : Memman)
    → Seeded start l m
    → start ≤ v
    → v + 0x1000 < 2 ^ 32
    → l < memman_frees
    → Clear (v + 0x1000)
    → Seeded (add32 v 0x1000) (suc l) (memman_free m start (sub32 v start)).1
seed_run start v l m s h b r c = elim (Bool-cases (v == start)) [
  | inl here ↦
      rw (wraps, length_zero (ground arith), free_nothing start m)
        (record {
          valid = s.valid;
          below = Below-le start (v + 0x1000) m.free (omega arith) s.below;
          entries = omega (arith, s.entries);
          clear = s.clear;
          next = c;
        })
  | inr longer ↦
      rw (wraps, run)
        (subst (λ (e : ℕ). Seeded e (suc l) (memman_free m start (v - start)).1) ends
          (free_above start (v - start) l m s (ground arith) (omega arith) r (rw ends c)))
]
  where
    wraps : add32 v 0x1000 ≡ v + 0x1000
    wraps = omega arith

    run : sub32 v start ≡ v - start
    run = omega arith

    length_zero : v ≡ start → sub32 v start ≡ 0
    length_zero e = omega arith

    ends : start + (v - start) + 0x1000 ≡ v + 0x1000
    ends = omega arith

-- The memory map: a run that ends at `v` leaves room for a page below 2 ^ 32, and the run behind
-- it does not begin in the page that ends at a wall.
abbrev pub Usable : List ℕ → Type 0
Usable [] = Unit {0}
Usable (v ∷ vs) = (v + 0x1000 < 2 ^ 32) × Clear (v + 0x1000) × Usable vs

Seeded-suc : (start l : ℕ) (m : Memman) → Seeded start l m → Seeded start (suc l) m
Seeded-suc start l m s = record {
  valid = s.valid;
  below = s.below;
  entries = omega (arith, s.entries);
  clear = s.clear;
  next = s.next;
}

pub seed-Seeded :
    (infos : List ℕ) (start l : ℕ) (m : Memman)
    → Seeded start l m
    → Usable infos
    → l + length infos ≤ memman_frees
    → (s : ℕ) × Seeded s (l + length infos) (seed m start infos)
unfolding seed
seed-Seeded [] start l m s u h = (start, rw (add-zero l) s)
seed-Seeded (v ∷ vs) start l m s u h = elim (Bool-cases (ltb v start)) [
  | inl below ↦
      rw (below, shift) (seed-Seeded vs start (suc l) m (Seeded-suc start l m s) u.2 (omega arith))
  | inr run ↦
      rw (run, shift)
        (seed-Seeded vs (add32 v 0x1000) (suc l) (memman_free m start (sub32 v start)).1
          (seed_run start v l m s (ground arith) u.0 (omega arith) u.1) u.2 (omega arith))
]
  where
    shift : l + suc (length vs) ≡ suc l + length vs
    shift = omega arith
