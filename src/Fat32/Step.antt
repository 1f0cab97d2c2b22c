-- ===== src/Fat32/Step.antt =====
-- A step of `GetNextSector` of kernel/base.c along the chain of a file.
use exp_memfs.Base.{
  ltb, ◌==◌, if◌then◌else◌, ==_iff, length, minus_one, ℕ, ◌+◌, ◌-◌, ◌*◌, ◌/◌, ◌%◌, ◌^◌, ◌≤◌, ◌<◌,
  ◌≡◌, refl, sym, ap, ◌∙◌, ◌≢◌, Bool, true, false, List, [], ◌∷◌, arith,
}
use mathlib.Core.Path.{ap₂, subst⁻¹}
use exp_memfs.Fat32.{Geometry, Sector, Vdisk, fat_end, get_next_cluster, fat_sector}
use exp_memfs.Fat32.Table.{entry, IsUsual, place-eq}
use exp_memfs.Fat32.Chain.{head_or}
use exp_memfs.Fat32.Cache.{IsCoherent, get_next_cluster-IsCoherent, get_next_cluster_now}
use exp_memfs.Fat32.Find.{cluster_sector}
use exp_memfs.Fat32.Files.{
  FatFile, NextSector, read_only, in_last, in_front, next_at, get_next_sector,
}

-- A usual disk with clusters of 8 sectors, whose sectors have numbers below 2 ^ 32.
pub record IsWide (g : Geometry) : Type 0 where
  pub usual : IsUsual g
  pub eight : g.sectors_per_cluster ≡ 8
  pub low : g.reserved_sector < 2 ^ 31

-- Clusters with data: from 2 on.
abbrev pub DataClusters : List ℕ → Type 0
DataClusters [] = Unit {0}
DataClusters (c ∷ cs) = (2 ≤ c) × (c < fat_end) × DataClusters cs

-- Sector `k` of the clusters, one behind the other.
abbrev pub sector_in : Geometry → List ℕ → ℕ → ℕ
sector_in g [] k = 0
sector_in g (c ∷ cs) k = if ltb k 8 then cluster_sector g c + k else sector_in g cs (k - 8)

not_marked : (g : Geometry) (c : ℕ) → IsWide g → c < fat_end → fat_sector g c ≢ minus_one
not_marked g c w h e =
    absurd (omega (arith, h, w.low, (place-eq g c w.usual (omega (arith, h))).0, e))

at-sector :
    (g : Geometry) (s : Vdisk) (f : FatFile) (c o next : ℕ) (b : Bool)
    → IsWide g
    → 2 ≤ c
    → o < 8
    → get_next_sector g s f (cluster_sector g c + o) next b ≡ next_at g s f c o next b
unfolding get_next_sector
at-sector g s f c o next b w h k =
    ap₂ (λ x y. next_at g s f x y next b)
      (ap (λ e. (cluster_sector g c + o - g.reserved_sector - 2 * g.sectors_per_fat) / e + 2)
          w.eight
        ∙ quotient)
      (ap (λ e. (cluster_sector g c + o - g.reserved_sector - 2 * g.sectors_per_fat) % e) w.eight
        ∙ rest)
  where
    place : cluster_sector g c ≡ g.reserved_sector + 2 * g.sectors_per_fat + (c - 2) * 8
    place = ap (λ e. g.reserved_sector + 2 * g.sectors_per_fat + (c - 2) * e) w.eight

    quotient : (cluster_sector g c + o - g.reserved_sector - 2 * g.sectors_per_fat) / 8 + 2 ≡ c
    quotient =
        ap (λ p. (p + o - g.reserved_sector - 2 * g.sectors_per_fat) / 8 + 2) place
        ∙ omega (arith, h, k)

    rest : (cluster_sector g c + o - g.reserved_sector - 2 * g.sectors_per_fat) % 8 ≡ o
    rest =
        ap (λ p. (p + o - g.reserved_sector - 2 * g.sectors_per_fat) % 8) place
        ∙ omega (arith, h, k)

-- A round, by what `GetNextCluster` gives.
abbrev turn : Geometry → FatFile → ℕ → ℕ → ℕ → Bool → ℕ × Vdisk → NextSector
turn g f c o next b a =
    if a.0 == fat_end then in_last g a.1 f c o next b else in_front g a.1 f c a.0 o b

next_at-turn :
    (g : Geometry) (s : Vdisk) (f : FatFile) (c o next : ℕ) (b : Bool)
    → next_at g s f c o next b ≡ turn g f c o next b (get_next_cluster g s c)
unfolding next_at
next_at-turn g s f c o next b = refl

at-turn :
    (g : Geometry) (s : Vdisk) (f : FatFile) (c o next : ℕ) (b : Bool)
    → IsWide g
    → 2 ≤ c
    → o < 8
    → get_next_sector g s f (cluster_sector g c + o) next b
      ≡ turn g f c o next b (get_next_cluster g s c)
at-turn g s f c o next b w h k = at-sector g s f c o next b w h k ∙ next_at-turn g s f c o next b

-- In the last cluster, in front of its last sector.
turn_last :
    (g : Geometry) (f : FatFile) (c o next : ℕ) (b : Bool) (a : ℕ × Vdisk)
    → IsWide g
    → (f.flag == read_only) ≡ false
    → a.0 ≡ fat_end
    → o < 7
    → ((turn g f c o next b a).next ≡ cluster_sector g c + (o + 1))
      × ((turn g f c o next b a).disk ≡ a.1)
turn_last g f c o next b a w n e h = rw (end, n, inside) (omega arith, refl)
  where
    end : (a.0 == fat_end) ≡ true
    end = (==_iff a.0 fat_end).1 e

    inside : ltb o (g.sectors_per_cluster - 1) ≡ true
    inside = ap (λ m. ltb o (m - 1)) w.eight ∙ ground (arith, h)

-- In front of the last cluster, which is behind the sector or in another one.
turn_front :
    (g : Geometry) (f : FatFile) (c o next : ℕ) (b : Bool) (a : ℕ × Vdisk)
    → IsWide g
    → a.0 < fat_end
    → ((turn g f c o next b a).next
        ≡ (if ltb o 7 then cluster_sector g c + (o + 1) else cluster_sector g a.0))
      × ((turn g f c o next b a).disk ≡ (get_next_cluster g a.1 (if ltb o 7 then c else a.0)).1)
unfolding in_front
turn_front g f c o next b a w h = (
  rw more (
      ap (λ t. if t then cluster_sector g c + o + 1 else cluster_sector g a.0) test
      ∙ ap (λ m. if ltb o 7 then m else cluster_sector g a.0) joined),
  rw more (ap (λ t. (get_next_cluster g a.1 (if t then c else a.0)).1) test),
)
  where
    more : (a.0 == fat_end) ≡ false
    more = ground (arith, h)

    test : ltb o (g.sectors_per_cluster - 1) ≡ ltb o 7
    test = ap (λ m. ltb o (m - 1)) w.eight

    joined : cluster_sector g c + o + 1 ≡ cluster_sector g c + (o + 1)
    joined = omega arith

-- What is kept while `GetFileOffset` walks.
pub record Kept (d : ℕ → Sector) (s : Vdisk) : Type 0 where
  pub same : s.sect ≡ d
  pub coherent : IsCoherent s

follow :
    (g : Geometry) (d : ℕ → Sector) (s : Vdisk) (c : ℕ)
    → IsWide g
    → c < fat_end
    → Kept d s
    → ((get_next_cluster g s c).0 ≡ entry g d c) × Kept d (get_next_cluster g s c).1
follow g d s c w h k =
    let (v, q) = get_next_cluster_now g s c w.usual k.coherent (not_marked g c w h) in
    (
      v ∙ ap (λ e. entry g e c) k.same,
      record { same = q ∙ k.same; coherent = get_next_cluster-IsCoherent g s c k.coherent },
    )

-- The next sector of a file that is not open for reading only.
pub next_in_chain :
    (g : Geometry) (d : ℕ → Sector) (s : Vdisk) (f : FatFile) (c o next : ℕ) (cs : List ℕ)
    (b : Bool)
    → IsWide g
    → (f.flag == read_only) ≡ false
    → DataClusters (c ∷ cs)
    → entry g d c ≡ head_or fat_end cs
    → o < 8
    → o + 1 < 8 * length (c ∷ cs)
    → Kept d s
    → ((get_next_sector g s f (cluster_sector g c + o) next b).next
        ≡ (if ltb o 7 then cluster_sector g c + (o + 1) else cluster_sector g (head_or fat_end cs)))
      × Kept d (get_next_sector g s f (cluster_sector g c + o) next b).disk
next_in_chain g d s f c o next [] b w n (a, h, u) e l m k =
    let (v, q) = follow g d s c w h k in
    let (x, y) = turn_last g f c o next b (get_next_cluster g s c) w n (v ∙ e) (omega (arith, m)) in
    rw (at-turn g s f c o next b w a l) (
      x
          ∙ ap (λ t. if t then cluster_sector g c + (o + 1) else cluster_sector g fat_end)
              (sym inside),
      subst⁻¹ (Kept d) y q,
    )
  where
    inside : ltb o 7 ≡ true
    inside = ground (arith, m)
next_in_chain g d s f c o next (x ∷ cs) b w n (a, h, (a', h', u)) e l m k =
    let (v, q) = follow g d s c w h k in
    let small = subst⁻¹ (λ i. i < fat_end) (v ∙ e) h' in
    let (y, z) = turn_front g f c o next b (get_next_cluster g s c) w small in
    rw (at-turn g s f c o next b w a l) (
      y ∙ ap (λ i. if ltb o 7 then cluster_sector g c + (o + 1) else cluster_sector g i) (v ∙ e),
      subst⁻¹ (Kept d) z
          (follow g d (get_next_cluster g s c).1 (if ltb o 7 then c else (get_next_cluster g s c).0)
            w (both (ltb o 7) c (get_next_cluster g s c).0 h small) q).1,
    )
  where
    both : (t : Bool) (p q : ℕ) → p < fat_end → q < fat_end → (if t then p else q) < fat_end
    both true p q i j = i
    both false p q i j = j
