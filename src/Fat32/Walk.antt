-- ===== src/Fat32/Walk.antt =====
-- The position of a file, kernel/base.c: `GetFileOffset` comes to the sector of its chain.
use exp_memfs.Base.{
  ltb, ◌==◌, if◌then◌else◌, ltb→lt, Bool-cases, length, ℕ, zero, suc, ◌+◌, ◌-◌, ◌*◌, ◌/◌, ◌≤◌, ◌<◌,
  ◌≡◌, refl, sym, ap, ◌∙◌, inl, inr, true, false, List, [], ◌∷◌, arith,
}
use mathlib.Core.Path.{subst⁻¹}
use exp_memfs.Fat32.{Geometry, Sector, Vdisk, fat_end}
use exp_memfs.Fat32.Clear.{IsChain}
use exp_memfs.Fat32.Cache.{IsCoherent}
use exp_memfs.Fat32.Find.{cluster_sector}
use exp_memfs.Fat32.Files.{
  FatFile, NextSector, read_only, get_next_sector, offset_loop, get_file_offset,
}
use exp_memfs.Fat32.Step.{IsWide, DataClusters, sector_in, Kept, next_in_chain}

seven : (o : ℕ) → ltb o 7 ≡ false → 7 ≤ o
seven o t = ground (arith, t)

one_more : (o n : ℕ) → o + 1 + n ≡ o + suc n
one_more o n = omega arith

over_eight : (o n : ℕ) → ltb o 7 ≡ false → o < 8 → o + suc n - 8 ≡ 0 + n
over_eight o n t h = omega (arith, seven o t, h)

-- The walk goes on from a sector that is known.
walk_on :
    (g : Geometry) (d : ℕ → Sector) (f : FatFile) (n : ℕ) (cs : List ℕ) (l : NextSector) {x v u : ℕ}
    → l.next ≡ x
    → v ≡ u
    → ((offset_loop n g f x l).0 ≡ v) × Kept d (offset_loop n g f x l).1.disk
    → ((offset_loop n g f l.next l).0 ≡ u) × Kept d (offset_loop n g f l.next l).1.disk
walk_on g d f n cs l {x} {v} {u} e q (a, k) =
    subst⁻¹ (λ y. ((offset_loop n g f y l).0 ≡ u) × Kept d (offset_loop n g f y l).1.disk) e
      (a ∙ q, k)

-- The walk over `n` sectors.
offset_loop-sector_in :
    (n : ℕ) (g : Geometry) (d : ℕ → Sector) (f : FatFile) (c o : ℕ) (cs : List ℕ) (l : NextSector)
    → IsWide g
    → (f.flag == read_only) ≡ false
    → DataClusters (c ∷ cs)
    → IsChain g d (c ∷ cs)
    → o < 8
    → o + n < 8 * length (c ∷ cs)
    → Kept d l.disk
    → ((offset_loop n g f (cluster_sector g c + o) l).0 ≡ sector_in g (c ∷ cs) (o + n))
      × Kept d (offset_loop n g f (cluster_sector g c + o) l).1.disk
unfolding offset_loop
offset_loop-sector_in zero g d f c o cs l w r u i h m k = (here, k)
  where
    test : ltb (o + 0) 8 ≡ true
    test = ground (arith, h)

    here : cluster_sector g c + o ≡ sector_in g (c ∷ cs) (o + 0)
    here = rw test (ap (λ x. cluster_sector g c + x) (omega arith))
offset_loop-sector_in (suc n) g d f c o [] l w r u (e, i) h m k =
    let (p, q) =
      next_in_chain g d l.disk f c o l.next [] l.is_last w r u e h (omega (arith, m)) k in
    walk_on g d f n (c ∷ []) (get_next_sector g l.disk f (cluster_sector g c + o) l.next l.is_last)
      (p ∙ ap (λ b. if b then cluster_sector g c + (o + 1) else cluster_sector g fat_end) inside)
      (ap (sector_in g (c ∷ [])) (one_more o n))
      (offset_loop-sector_in n g d f c (o + 1) []
        (get_next_sector g l.disk f (cluster_sector g c + o) l.next l.is_last) w r u (e, i)
        (omega (arith, m)) (omega (arith, m)) q)
  where
    inside : ltb o 7 ≡ true
    inside = ground (arith, m)
offset_loop-sector_in (suc n) g d f c o (x ∷ cs) l w r (a, b, u) (e, i) h m k =
    let l' = get_next_sector g l.disk f (cluster_sector g c + o) l.next l.is_last in
    let (p, q) =
      next_in_chain g d l.disk f c o l.next (x ∷ cs) l.is_last w r (a, b, u) e h (omega (arith, m))
        k in
    elim (Bool-cases (ltb o 7)) [
      | inl t ↦
          walk_on g d f n (c ∷ x ∷ cs) l'
            (p ∙ ap (λ v. if v then cluster_sector g c + (o + 1) else cluster_sector g x) t)
            (ap (sector_in g (c ∷ x ∷ cs)) (one_more o n))
            (offset_loop-sector_in n g d f c (o + 1) (x ∷ cs) l' w r (a, b, u) (e, i)
              (omega (arith, ltb→lt o 7 t)) (omega (arith, m)) q)
      | inr t ↦
          walk_on g d f n (x ∷ cs) l'
            (p
              ∙ ap (λ v. if v then cluster_sector g c + (o + 1) else cluster_sector g x) t
              ∙ omega arith)
            (over t)
            (offset_loop-sector_in n g d f x 0 cs l' w r u i (omega arith)
              (omega (arith, seven o t, h, m)) q)
    ]
  where
    over : ltb o 7 ≡ false → sector_in g (x ∷ cs) (0 + n) ≡ sector_in g (c ∷ x ∷ cs) (o + suc n)
    over t = sym (rw (behind t) (ap (sector_in g (x ∷ cs)) (over_eight o n t h)))
      where
        behind : ltb o 7 ≡ false → ltb (o + suc n) 8 ≡ false
        behind v = ground (arith, v)

-- On a usual disk with clusters of 8 sectors, where `FATBuf` is empty or as the disk, for a file that is
-- not open for reading only and whose clusters are a chain, `GetFileOffset` of a position in the file
-- comes to the sector with that position: as many sectors into the clusters, one behind the other, as
-- there are whole sectors in front of the position. The sectors of the disk stay as they were.
pub get_file_offset_lem :
    (g : Geometry) (s : Vdisk) (f : FatFile) (cs : List ℕ)
    → IsWide g
    → IsCoherent s
    → (f.flag == read_only) ≡ false
    → DataClusters (f.start ∷ cs)
    → IsChain g s.sect (f.start ∷ cs)
    → f.off / g.bytes_per_sector < 8 * length (f.start ∷ cs)
    → ((get_file_offset g s f).0 ≡ sector_in g (f.start ∷ cs) (f.off / g.bytes_per_sector))
      × ((get_file_offset g s f).1.disk.sect ≡ s.sect)
unfolding get_file_offset
get_file_offset_lem g s f cs w k r u i h =
    let (p, q) =
      offset_loop-sector_in (f.off / g.bytes_per_sector) g s.sect f f.start 0 cs
        (record { next = 0; is_last = false; disk = s }) w r u i (omega arith) (omega (arith, h))
        (record { same = refl; coherent = k }) in
    (
      ap (λ x. (offset_loop (f.off / g.bytes_per_sector) g f x first).0) start
          ∙ p
          ∙ ap (sector_in g (f.start ∷ cs)) (omega arith),
      ap (λ x. (offset_loop (f.off / g.bytes_per_sector) g f x first).1.disk.sect) start ∙ q.same,
    )
  where
    first : NextSector
    first = record { next = 0; is_last = false; disk = s }

    start : cluster_sector g f.start ≡ cluster_sector g f.start + 0
    start = omega arith
