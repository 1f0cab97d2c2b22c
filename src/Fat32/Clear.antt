-- ===== src/Fat32/Clear.antt =====
-- Chains that are given back: `ClearFATs` of kernel/base.c, alone and behind `WriteFAT`.
use exp_memfs.Base.{
  ◌==◌, if◌then◌else◌, ==_iff, Bool-cases, length, mem, Distinct, ok, ℕ, zero, suc, ◌^◌, ◌<◌, ◌≡◌,
  refl, sym, ap, ◌∙◌, ◌⊎◌, inl, inr, Bool, true, false, ◌||◌, List, [], ◌∷◌, arith,
}
use mathlib.Core.Bool.{true≢false}
use mathlib.Core.Path.{subst⁻¹}
use exp_memfs.Fat32.{
  Geometry, Sector, Vdisk, fat_end, fat_sector, fat_place, get_dword, Buffered, switch, put_entry,
  flush, write_fat, clear_loop, clear_fats,
}
use exp_memfs.Fat32.Table.{
  entry, set_entry, IsUsual, entry-set_entry, seen, switch-entry, put_entry-seen, put_entry-pre,
  flush-seen, sector_not_0, set_entry-Outside,
}
use exp_memfs.Fat32.Chain.{Clusters, head_or, link_of, Outside, write_fat-chain, link_of_absent}

-- The clusters `cs` are a chain in the table: the code that follows the entries from the first one
-- comes to all of them in turn, and then to the end mark.
abbrev pub IsChain : Geometry → (ℕ → Sector) → List ℕ → Type 0
IsChain g d [] = Unit {0}
IsChain g d (c ∷ cs) = (entry g d c ≡ head_or fat_end cs) × IsChain g d cs

abbrev clear_all : Geometry → (ℕ → Sector) → List ℕ → ℕ → Sector
clear_all g d [] = d
clear_all g d (c ∷ cs) = clear_all g (set_entry g d c 0) cs

clear_all-entry :
    (g : Geometry) (d : ℕ → Sector) (cs : List ℕ) (e : ℕ)
    → IsUsual g
    → Clusters cs
    → e < 2 ^ 30
    → entry g (clear_all g d cs) e ≡ (if mem e cs then 0 else entry g d e)
clear_all-entry g d [] e u k h = refl
clear_all-entry g d (c ∷ cs) e u (z, l, k) h =
    clear_all-entry g (set_entry g d c 0) cs e u k h
    ∙ ap (λ v. if mem e cs then 0 else v)
        (entry-set_entry g d c 0 e u (omega (arith, l)) h (omega arith))
    ∙ merge (e == c) (mem e cs) (entry g d e)
  where
    merge : (a b : Bool) (v : ℕ) → (if b then 0 else if a then 0 else v) ≡ (if a || b then 0 else v)
    merge true true v = refl
    merge true false v = refl
    merge false b v = refl

clear_all-Outside :
    (g : Geometry) (d : ℕ → Sector) (cs : List ℕ) (j : ℕ)
    → Outside g j cs
    → clear_all g d cs j ≡ d j
clear_all-Outside g d [] j o = refl
clear_all-Outside g d (c ∷ cs) j (h, o) =
    clear_all-Outside g (set_entry g d c 0) cs j o ∙ set_entry-Outside g d c 0 j h

-- A chain survives a write to an entry that is not its own.
IsChain-set :
    (g : Geometry) (d : ℕ → Sector) (c v : ℕ) (cs : List ℕ)
    → IsUsual g
    → c < fat_end
    → v < 2 ^ 32
    → Clusters cs
    → mem c cs ≡ false
    → IsChain g d cs
    → IsChain g (set_entry g d c v) cs
IsChain-set g d c v [] u l hv k m i = tt
IsChain-set g d c v (x ∷ cs) u l hv (z, lx, k) m (e, i) = (
  entry-set_entry g d c v x u (omega (arith, l)) (omega (arith, lx)) hv ∙ rw (apart) e,
  IsChain-set g d c v cs u l hv k (ground (arith, m)) i,
)
  where
    apart : (x == c) ≡ false
    apart = ground (arith, m)

flush-put :
    (g : Geometry) (b : Buffered) (c : ℕ)
    → IsUsual g
    → (flush (put_entry g b c 0)).sect ≡ set_entry g (seen b) c 0
flush-put g b c u =
    flush-seen (put_entry g b c 0) (λ e. sector_not_0 g c u (sym (put_entry-pre g b c 0) ∙ e))
    ∙ put_entry-seen g b c 0 u

clear_loop-IsChain :
    (g : Geometry) (cs : List ℕ) (c fuel : ℕ) (b : Buffered)
    → IsUsual g
    → Clusters (c ∷ cs)
    → Distinct (c ∷ cs)
    → IsChain g (seen b) (c ∷ cs)
    → length cs < fuel
    → (s : Vdisk) × (clear_loop fuel g b c ≡ ok s) × (s.sect ≡ clear_all g (seen b) (c ∷ cs))
unfolding clear_loop
clear_loop-IsChain g cs c zero b u k n i f = absurd (omega arith)
clear_loop-IsChain g [] c (suc fuel) b u k n (e, i) f =
    (flush (put_entry g b c 0), rw (clear_loop, last) refl, flush-put g b c u)
  where
    last : (get_dword (switch b (fat_sector g c)).buf (fat_place g c) == fat_end) ≡ true
    last =
        (==_iff (get_dword (switch b (fat_sector g c)).buf (fat_place g c)) fat_end).1
          (switch-entry g b c u ∙ e)
clear_loop-IsChain g (x ∷ cs) c (suc fuel) b u (z, l, (zx, lx, k)) (m, n) (e, i) f =
    let (s, r, q) =
      clear_loop-IsChain g cs x fuel (put_entry g b c 0) u (zx, lx, k) n
        (subst⁻¹ (λ d. IsChain g d (x ∷ cs)) (put_entry-seen g b c 0 u)
          (IsChain-set g (seen b) c 0 (x ∷ cs) u l (omega arith) (zx, lx, k) m i))
        (omega (arith, f)) in
    (
      s,
      rw (clear_loop, next, more) r,
      q ∙ ap (λ d. clear_all g d (x ∷ cs)) (put_entry-seen g b c 0 u),
    )
  where
    next : get_dword (switch b (fat_sector g c)).buf (fat_place g c) ≡ x
    next = switch-entry g b c u ∙ e

    more : (x == fat_end) ≡ false
    more = ground (arith, lx)

-- On a disk with sectors of 512 bytes and a reserved sector in front, `ClearFATs` of the first cluster of a
-- chain without repetition ends, in as many rounds as the chain has clusters: the entries of all its
-- clusters are 0, those of all other clusters below 2 ^ 30 are as they were, and so is every sector that
-- is not the place of one with an entry of the chain.
clear_fats_lem :
    (g : Geometry) (s : Vdisk) (buf : Sector) (c : ℕ) (cs : List ℕ)
    → IsUsual g
    → Clusters (c ∷ cs)
    → Distinct (c ∷ cs)
    → IsChain g s.sect (c ∷ cs)
    → (s' : Vdisk) × (clear_fats (suc (length cs)) g s buf c ≡ ok s')
      × ((e : ℕ)
          → e < 2 ^ 30
          → entry g s'.sect e ≡ (if mem e (c ∷ cs) then 0 else entry g s.sect e))
      × ((j : ℕ) → Outside g j (c ∷ cs) → s'.sect j ≡ s.sect j)
unfolding clear_fats seen
clear_fats_lem g s buf c cs u (z, l, k) n i =
    let (s', r, q) =
      clear_loop-IsChain g cs c (suc (length cs)) (record { disk = s; buf = buf; pre = 0 }) u
        (z, l, k) n i (omega arith) in
    (
      s',
      rw (not_0) r,
      λ e h. ap (λ d. entry g d e) q ∙ clear_all-entry g s.sect (c ∷ cs) e u (z, l, k) h,
      λ j o. ap (λ d. d j) q ∙ clear_all-Outside g s.sect (c ∷ cs) j o,
    )
  where
    not_0 : (c == 0) ≡ false
    not_0 = ground (arith, z)

-- The list that `WriteFAT` writes is a chain.
IsChain-written :
    (g : Geometry) (d d' : ℕ → Sector) (cs : List ℕ)
    → Clusters cs
    → Distinct cs
    → ((e : ℕ) → e < 2 ^ 30 → mem e cs ≡ true → entry g d' e ≡ link_of cs e (entry g d e))
    → IsChain g d' cs
IsChain-written g d d' [] k n h = tt
IsChain-written g d d' (c ∷ cs) (z, l, k) (a, n) h = (
  h c (omega (arith, l)) here ∙ self (entry g d c),
  IsChain-written g d d' cs k n
      (λ e b m. h e b (later e m) ∙ past e (entry g d e) (apart e m (Bool-cases (e == c)))),
)
  where
    here : mem c (c ∷ cs) ≡ true
    here = ground arith

    self : (v : ℕ) → link_of (c ∷ cs) c v ≡ head_or fat_end cs
    self v = ground arith

    later : (e : ℕ) → mem e cs ≡ true → mem e (c ∷ cs) ≡ true
    later e m = ground (arith, m)

    apart : (e : ℕ) → mem e cs ≡ true → ((e == c) ≡ true) ⊎ ((e == c) ≡ false) → (e == c) ≡ false
    apart e m (inr t) = t
    apart e m (inl t) = absurd (true≢false (sym m ∙ ap (λ q. mem q cs) ((==_iff e c).0 t) ∙ a))

    past : (e v : ℕ) → (e == c) ≡ false → link_of (c ∷ cs) e v ≡ link_of cs e v
    past e v t = rw t refl

-- Every cluster of the list is free.
abbrev pub AllFree : Geometry → (ℕ → Sector) → List ℕ → Type 0
AllFree g d [] = Unit {0}
AllFree g d (c ∷ cs) = (entry g d c ≡ 0) × AllFree g d cs

AllFree-entry :
    (g : Geometry) (d : ℕ → Sector) (cs : List ℕ) (e : ℕ)
    → AllFree g d cs
    → mem e cs ≡ true
    → entry g d e ≡ 0
AllFree-entry g d [] e f m = absurd (true≢false (sym m))
AllFree-entry g d (c ∷ cs) e (z, f) m = elim (Bool-cases (e == c)) [
  | inl t ↦ ap (entry g d) ((==_iff e c).0 t) ∙ z
  | inr t ↦ AllFree-entry g d cs e f (ground (arith, m, t))
]

back :
    (g : Geometry) (d : ℕ → Sector) (cs : List ℕ) (e : ℕ)
    → AllFree g d cs
    → (if mem e cs then 0 else link_of cs e (entry g d e)) ≡ entry g d e
back g d cs e f = elim (Bool-cases (mem e cs)) [
  | inl m ↦ rw m (sym (AllFree-entry g d cs e f m))
  | inr m ↦ rw m (link_of_absent cs e (entry g d e) m)
]

-- On a disk with sectors of 512 bytes and a reserved sector in front: a list of one or more free
-- clusters, from 1 on and below FAT_END, without repetition, that `WriteFAT` makes a chain and
-- `ClearFATs` of its first cluster gives back, which ends in as many rounds as there are clusters, leaves
-- every entry of a cluster below 2 ^ 30 as it was, and every sector that is not the place of one with an
-- entry of the list.
pub clear_fats-write_fat :
    (g : Geometry) (s : Vdisk) (buf buf' : Sector) (c : ℕ) (cs : List ℕ)
    → IsUsual g
    → Clusters (c ∷ cs)
    → Distinct (c ∷ cs)
    → AllFree g s.sect (c ∷ cs)
    → (s' : Vdisk) × (clear_fats (suc (length cs)) g (write_fat g s buf (c ∷ cs)) buf' c ≡ ok s')
      × ((e : ℕ) → e < 2 ^ 30 → entry g s'.sect e ≡ entry g s.sect e)
      × ((j : ℕ) → Outside g j (c ∷ cs) → s'.sect j ≡ s.sect j)
clear_fats-write_fat g s buf buf' c cs u k n f =
    let (w, o) = write_fat-chain g s buf c cs u k n in
    let (s', r, e, q) =
      clear_fats_lem g (write_fat g s buf (c ∷ cs)) buf' c cs u k n (
        IsChain-written g s.sect (write_fat g s buf (c ∷ cs)).sect (c ∷ cs) k n (λ x h m. w x h)) in
    (
      s',
      r,
      λ x h. e x h ∙ ap (λ v. if mem x (c ∷ cs) then 0 else v) (w x h) ∙ back g s.sect (c ∷ cs) x f,
      λ j h. q j h ∙ o j h,
    )
