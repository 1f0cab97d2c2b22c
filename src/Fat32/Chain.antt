-- ===== src/Fat32/Chain.antt =====
-- Chains of clusters: `WriteFAT` and `ClearFATs` of kernel/base.c.
use exp_memfs.Base.{
  ◌==◌, if◌then◌else◌, ==_iff, Bool-cases, mem, Distinct, ℕ, ◌^◌, ◌<◌, ◌≡◌, refl, sym, ap, ◌∙◌, ◌≢◌,
  ◌⊎◌, inl, inr, true, false, List, [], ◌∷◌, arith,
}
use exp_memfs.Fat32.{
  Geometry, Sector, Vdisk, fat_end, fat_sector, disk_position, write_sector, Buffered, put_entry,
  put_chain, write_fat,
}
use exp_memfs.Fat32.Table.{
  entry, set_entry, IsUsual, entry-set_entry, seen, put_entry-seen, put_entry-pre, flush-seen,
  sector_not_0, set_entry-Outside,
}

-- Numbers of clusters, from 1 on.
abbrev pub Clusters : List ℕ → Type 0
Clusters [] = Unit {0}
Clusters (c ∷ cs) = (c ≢ 0) × (c < fat_end) × Clusters cs

-- What stands in the entry of `e` once the chain `cs` is written; `v` if `e` is not in it.
abbrev pub head_or : ℕ → List ℕ → ℕ
head_or v [] = v
head_or v (c ∷ cs) = c

abbrev pub link_of : List ℕ → ℕ → ℕ → ℕ
link_of [] e v = v
link_of (c ∷ cs) e v = if e == c then head_or fat_end cs else link_of cs e v

-- The entries set one by one.
abbrev set_chain : Geometry → (ℕ → Sector) → List ℕ → ℕ → Sector
set_chain g d [] = d
set_chain g d (c ∷ cs) = set_chain g (set_entry g d c (head_or fat_end cs)) cs

pub link_of_absent : (cs : List ℕ) (e v : ℕ) → mem e cs ≡ false → link_of cs e v ≡ v
link_of_absent [] e v h = refl
link_of_absent (c ∷ cs) e v h = ground (arith, h, link_of_absent cs e v)

small : (c : ℕ) (cs : List ℕ) → Clusters cs → c < fat_end → head_or fat_end cs < 2 ^ 32
small c [] k h = omega arith
small c (x ∷ cs) (n, l, k) h = omega (arith, l)

set_chain-entry :
    (g : Geometry) (d : ℕ → Sector) (cs : List ℕ) (e : ℕ)
    → IsUsual g
    → Clusters cs
    → Distinct cs
    → e < 2 ^ 30
    → entry g (set_chain g d cs) e ≡ link_of cs e (entry g d e)
set_chain-entry g d [] e u k n h = refl
set_chain-entry g d (c ∷ cs) e u (z, l, k) (a, n) h =
    set_chain-entry g (set_entry g d c (head_or fat_end cs)) cs e u k n h
    ∙ ap (link_of cs e)
        (entry-set_entry g d c (head_or fat_end cs) e u (omega (arith, l)) h (small c cs k l))
    ∙ first (Bool-cases (e == c))
  where
    first :
        ((e == c) ≡ true) ⊎ ((e == c) ≡ false)
        → link_of cs e (if e == c then head_or fat_end cs else entry g d e)
          ≡ (if e == c then head_or fat_end cs else link_of cs e (entry g d e))
    first (inr t) = rw t refl
    first (inl t) =
        rw t (link_of_absent cs e (head_or fat_end cs) (ap (λ q. mem q cs) ((==_iff e c).0 t) ∙ a))

put_chain-seen :
    (g : Geometry) (b : Buffered) (cs : List ℕ)
    → IsUsual g
    → seen (put_chain g b cs) ≡ set_chain g (seen b) cs
unfolding put_chain
put_chain-seen g b [] u = refl
put_chain-seen g b (c ∷ []) u = put_entry-seen g b c fat_end u
put_chain-seen g b (c ∷ x ∷ cs) u =
    put_chain-seen g (put_entry g b c x) (x ∷ cs) u
    ∙ ap (λ d. set_chain g d (x ∷ cs)) (put_entry-seen g b c x u)

put_chain-pre :
    (g : Geometry) (b : Buffered) (c : ℕ) (cs : List ℕ)
    → IsUsual g
    → (put_chain g b (c ∷ cs)).pre ≢ 0
unfolding put_chain
put_chain-pre g b c [] u e = sector_not_0 g c u (sym (put_entry-pre g b c fat_end) ∙ e)
put_chain-pre g b c (x ∷ cs) u e = put_chain-pre g (put_entry g b c x) x cs u e

write_fat-sect :
    (g : Geometry) (s : Vdisk) (buf : Sector) (c : ℕ) (cs : List ℕ)
    → IsUsual g
    → (write_fat g s buf (c ∷ cs)).sect ≡ set_chain g s.sect (c ∷ cs)
unfolding write_fat seen
write_fat-sect g s buf c cs u =
    flush-seen (put_chain g (record { disk = s; buf = buf; pre = 0 }) (c ∷ cs))
      (put_chain-pre g (record { disk = s; buf = buf; pre = 0 }) c cs u)
    ∙ put_chain-seen g (record { disk = s; buf = buf; pre = 0 }) (c ∷ cs) u

-- Sector `j` is not the place of a sector with one of the entries.
abbrev pub Outside : Geometry → ℕ → List ℕ → Type 0
Outside g j [] = Unit {0}
Outside g j (c ∷ cs) =
    ((disk_position j == disk_position (fat_sector g c)) ≡ false) × Outside g j cs

set_chain-Outside :
    (g : Geometry) (d : ℕ → Sector) (cs : List ℕ) (j : ℕ)
    → Outside g j cs
    → set_chain g d cs j ≡ d j
set_chain-Outside g d [] j o = refl
set_chain-Outside g d (c ∷ cs) j (h, o) =
    set_chain-Outside g (set_entry g d c (head_or fat_end cs)) cs j o
    ∙ set_entry-Outside g d c (head_or fat_end cs) j h

pub write_fat-chain :
    (g : Geometry) (s : Vdisk) (buf : Sector) (c : ℕ) (cs : List ℕ)
    → IsUsual g
    → Clusters (c ∷ cs)
    → Distinct (c ∷ cs)
    → ((e : ℕ)
        → e < 2 ^ 30
        → entry g (write_fat g s buf (c ∷ cs)).sect e ≡ link_of (c ∷ cs) e (entry g s.sect e))
      × ((j : ℕ) → Outside g j (c ∷ cs) → (write_fat g s buf (c ∷ cs)).sect j ≡ s.sect j)
write_fat-chain g s buf c cs u k n = (
  λ e h.
      ap (λ d. entry g d e) (write_fat-sect g s buf c cs u)
      ∙ set_chain-entry g s.sect (c ∷ cs) e u k n h,
  λ j o. ap (λ d. d j) (write_fat-sect g s buf c cs u) ∙ set_chain-Outside g s.sect (c ∷ cs) j o,
)

write_fat_nothing :
    (g : Geometry) (s : Vdisk) (buf : Sector) (j : ℕ)
    → (write_fat g s buf []).sect j ≡ (if disk_position j == disk_position 0 then buf else s.sect j)
unfolding write_fat put_chain write_sector
write_fat_nothing g s buf j = refl

-- On a disk with sectors of 512 bytes and a reserved sector in front, whatever the buffer held at first:
-- for a list of one or more clusters, from 1 on and below FAT_END, without repetition, `WriteFAT` makes
-- the list a chain in the table, every entry the next cluster and the last one the end mark; the entries
-- of all other clusters below 2 ^ 30 stay as they were, and so does every sector that is not the place
-- of one with an entry of the list. For no clusters it writes what the buffer held to sector 0, and
-- nothing else.
pub write_fat_lem :
    (g : Geometry) (s : Vdisk) (buf : Sector) (c : ℕ) (cs : List ℕ)
    → IsUsual g
    → Clusters (c ∷ cs)
    → Distinct (c ∷ cs)
    → ((e : ℕ)
        → e < 2 ^ 30
        → entry g (write_fat g s buf (c ∷ cs)).sect e ≡ link_of (c ∷ cs) e (entry g s.sect e))
      × ((j : ℕ) → Outside g j (c ∷ cs) → (write_fat g s buf (c ∷ cs)).sect j ≡ s.sect j)
      × ((j : ℕ)
          → (write_fat g s buf []).sect j
            ≡ (if disk_position j == disk_position 0 then buf else s.sect j))
write_fat_lem g s buf c cs u k n =
    let (w, o) = write_fat-chain g s buf c cs u k n in (w, o, write_fat_nothing g s buf)
