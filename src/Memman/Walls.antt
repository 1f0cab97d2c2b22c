-- ===== src/Memman/Walls.antt =====
-- The loops of `init` in kernel/memman.c that part the free blocks at the walls, and `init` whole.
use exp_memfs.Base.{length, ℕ, ◌+◌, ◌^◌, ◌≤◌, ◌<◌, ◌⊎◌, List, [], ◌∷◌, arith}
use exp_memfs.Memman.{
  memman_init, seed, part_man, init, memman_frees, memstart, kwall, wall, uwall, Memman, FreeInfo,
  part,
}
use exp_memfs.Memman.View.{Gapped}
use exp_memfs.Memman.Free.{IsValid}
use exp_memfs.Memman.Init.{Seeded, seed-Seeded, Usable, AllClear, AllRoomy, Roomy}

-- No block lies across the wall `w`.
abbrev pub Walled : ℕ → List FreeInfo → Type 0
Walled w [] = Unit {0}
Walled w (e ∷ es) = ((e.addr + e.size ≤ w) ⊎ (w ≤ e.addr)) × Walled w es

above : (w k : ℕ) (xs : List FreeInfo) → Gapped k xs → w ≤ k → Walled w xs
above w k [] g h = tt
above w k (e ∷ es) g h = ground (arith, above w (e.addr + e.size + 1) es g.3)

module _ (w : ℕ) (low : 0x1000 ≤ w) (high : w < 2 ^ 31) where
  part-Gapped : (k : ℕ) (xs : List FreeInfo) → Gapped k xs → AllRoomy w xs → Gapped k (part w xs)
  unfolding part
  part-Gapped k [] g r = tt
  part-Gapped k (e ∷ es) g r = ground (arith, part-Gapped (e.addr + e.size + 1) es g.3 r.1)

  part-Walled : (k : ℕ) (xs : List FreeInfo) → Gapped k xs → AllRoomy w xs → Walled w (part w xs)
  unfolding part
  part-Walled k [] g r = tt
  part-Walled k (e ∷ es) g r =
      ground
        (arith, above w (e.addr + e.size + 1) es g.3, part-Walled (e.addr + e.size + 1) es g.3 r.1)

  length-part : (xs : List FreeInfo) → length (part w xs) ≤ length xs + 1
  unfolding part
  length-part [] = omega arith
  length-part (e ∷ es) = ground (arith, length-part es)

  part-AllRoomy : (v : ℕ) (xs : List FreeInfo) → Roomy v w → AllRoomy v xs → AllRoomy v (part w xs)
  unfolding part
  part-AllRoomy v [] h r = tt
  part-AllRoomy v (e ∷ es) h r = ground (arith, part-AllRoomy v es h r.1)

  part-Walled_other :
      (v k : ℕ) (xs : List FreeInfo)
      → Gapped k xs
      → AllRoomy w xs
      → Walled v xs
      → Walled v (part w xs)
  unfolding part
  part-Walled_other v k [] g r h = tt
  part-Walled_other v k (e ∷ es) g r h =
      ground (arith, part-Walled_other v (e.addr + e.size + 1) es g.3 r.1 h.1)

  part_man-IsValid :
      (m : Memman)
      → IsValid m
      → AllRoomy w m.free
      → length m.free < memman_frees
      → IsValid (part_man w m)
  unfolding part_man
  part_man-IsValid m v r h = record {
    list = part-Gapped 0 m.free v.list r;
    room = omega (arith, length-part m.free);
    mark = ground (arith, v.mark);
  }

-- The walls that are still to come are clear of block starts, and those behind hold.
AllClear-AllRoomy :
    (xs : List FreeInfo) → AllClear xs → AllRoomy kwall xs × AllRoomy wall xs × AllRoomy uwall xs
AllClear-AllRoomy [] c = (tt, tt, tt)
AllClear-AllRoomy (e ∷ es) c =
    let r = AllClear-AllRoomy es c.1 in ((c.0.0, r.0), (c.0.1, r.1), (c.0.2, r.2))

module _ (m : Memman) (v : IsValid m) (c : AllClear m.free)
    (h : length m.free + 3 ≤ memman_frees) where
  abbrev first : Memman
  first = part_man kwall m

  abbrev second : Memman
  second = part_man wall first

  parts :
      IsValid (part_man uwall second)
      × Walled kwall (part_man uwall second).free
      × Walled wall (part_man uwall second).free
      × Walled uwall (part_man uwall second).free
  unfolding part_man
  parts =
      let r = AllClear-AllRoomy m.free c in
      let v1 = part_man-IsValid kwall (omega arith) (omega arith) m v r.0 (omega arith) in
      let l1 = length-part kwall (omega arith) (omega arith) m.free in
      let r1 = part-AllRoomy kwall (omega arith) (omega arith) wall m.free (omega arith) r.1 in
      let u1 = part-AllRoomy kwall (omega arith) (omega arith) uwall m.free (omega arith) r.2 in
      let v2 = part_man-IsValid wall (omega arith) (omega arith) first v1 r1 (omega (arith, l1)) in
      let l2 = length-part wall (omega arith) (omega arith) first.free in
      let u2 = part-AllRoomy wall (omega arith) (omega arith) uwall first.free (omega arith) u1 in
      let v3 =
        part_man-IsValid uwall (omega arith) (omega arith) second v2 u2 (omega (arith, l1, l2)) in
      let k1 = part-Walled kwall (omega arith) (omega arith) 0 m.free v.list r.0 in
      let k2 =
        part-Walled_other wall (omega arith) (omega arith) kwall 0 first.free v1.list r1 k1 in
      let w2 = part-Walled wall (omega arith) (omega arith) 0 first.free v1.list r1 in
      (
        v3,
        part-Walled_other uwall (omega arith) (omega arith) kwall 0 second.free v2.list u2 k2,
        part-Walled_other uwall (omega arith) (omega arith) wall 0 second.free v2.list u2 w2,
        part-Walled uwall (omega arith) (omega arith) 0 second.free v2.list u2,
      )

no_memory : Seeded memstart 0 memman_init
unfolding memman_init
no_memory = record {
  valid = record { list = tt; room = omega arith; mark = omega arith };
  below = tt;
  entries = omega arith;
  clear = tt;
  next = ground arith;
}

-- From a memory map of at most 4087 runs that ends below 2 ^ 32 and in which no run begins in the
-- page just below a wall, `init` builds a valid manager, and none of its free blocks lies across
-- one of the three walls at 6M, 8M and 16M.
pub init_lem :
    (infos : List ℕ)
    → Usable infos
    → length infos + 3 ≤ memman_frees
    → IsValid (init infos)
      × Walled kwall (init infos).free
      × Walled wall (init infos).free
      × Walled uwall (init infos).free
unfolding init
init_lem infos u h =
    let s = seed-Seeded infos memstart 0 memman_init no_memory u (omega arith) in
    parts (seed memman_init memstart infos) s.1.valid s.1.clear (omega (arith, s.1.entries))
