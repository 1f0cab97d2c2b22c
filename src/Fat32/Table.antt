-- ===== src/Fat32/Table.antt =====
-- The entries of the file allocation table of kernel/base.c, and the buffered writes to it.
use exp_memfs.Base.{
  ltb, leb, ◌==◌, if◌then◌else◌, ==_iff, Bool-cases, ℕ, ◌+◌, ◌*◌, ◌/◌, ◌%◌, ◌^◌, ◌<◌, ◌≡◌, refl,
  sym, ap, ◌∙◌, ◌≢◌, inl, inr, Bool, true, false, ◌||◌, arith,
}
use mathlib.Core.Path.{fun_ext}
use exp_memfs.Fat32.{
  Geometry, Sector, Vdisk, get_dword, put_dword, put_sector, disk_position, fat_offset,
  write_sector, fat_sector, fat_place, Buffered, switch, put_entry, flush,
}

-- The entry of cluster `c` on a disk, and the disk with the entry set to `v`.
unfoldable pub entry : Geometry → (ℕ → Sector) → ℕ → ℕ
entry g d c = get_dword (d (fat_sector g c)) (fat_place g c)

unfoldable pub set_entry : Geometry → (ℕ → Sector) → ℕ → ℕ → ℕ → Sector
set_entry g d c v = put_sector d (fat_sector g c) (put_dword (d (fat_sector g c)) (fat_place g c) v)

-- A usual disk: sectors of 512 bytes, with reserved ones in front.
pub record IsUsual (g : Geometry) : Type 0 where
  pub size : g.bytes_per_sector ≡ 512
  pub front : g.reserved_sector ≢ 0

put-bytes :
    (b : Sector) (o v : ℕ)
    → (put_dword b o v o ≡ v % 256)
      × (put_dword b o v (o + 1) ≡ v / 2 ^ 8 % 256)
      × (put_dword b o v (o + 2) ≡ v / 2 ^ 16 % 256)
      × (put_dword b o v (o + 3) ≡ v / 2 ^ 24 % 256)
put-bytes b o v = (ground arith, ground arith, ground arith, ground arith)

put-apart : (b : Sector) (o v x : ℕ) → (ltb x o || leb (o + 4) x) ≡ true → put_dword b o v x ≡ b x
put-apart b o v x h = ground (arith, h)

pub dword-eq :
    (b : Sector) (o w x y z : ℕ)
    → b o ≡ w
    → b (o + 1) ≡ x
    → b (o + 2) ≡ y
    → b (o + 3) ≡ z
    → get_dword b o ≡ w + 2 ^ 8 * x + 2 ^ 16 * y + 2 ^ 24 * z
dword-eq b o w x y z ew ex ey ez = rw (ew, ex, ey, ez) refl

pub get-put_same : (b : Sector) (o v : ℕ) → v < 2 ^ 32 → get_dword (put_dword b o v) o ≡ v
get-put_same b o v h =
    let (w, x, y, z) = put-bytes b o v in
    dword-eq (put_dword b o v) o (v % 256) (v / 2 ^ 8 % 256) (v / 2 ^ 16 % 256) (v / 2 ^ 24 % 256) w
      x y z
    ∙ omega (arith, h)

pub get-put_other :
    (b : Sector) (o p v : ℕ)
    → o % 4 ≡ 0
    → p % 4 ≡ 0
    → o ≢ p
    → get_dword (put_dword b o v) p ≡ get_dword b p
get-put_other b o p v ho hp n =
    dword-eq (put_dword b o v) p (b p) (b (p + 1)) (b (p + 2)) (b (p + 3)) (there p start)
      (there (p + 1) (off 1 refl)) (there (p + 2) (off 2 refl)) (there (p + 3) (off 3 refl))
  where
    there : (x : ℕ) → (ltb x o || leb (o + 4) x) ≡ true → put_dword b o v x ≡ b x
    there x h = put-apart b o v x h

    start : (ltb p o || leb (o + 4) p) ≡ true
    start = ground (arith, ho, hp, n)

    off : (k : ℕ) → ltb k 4 ≡ true → (ltb (p + k) o || leb (o + 4) (p + k)) ≡ true
    off k h = ground (arith, ho, hp, n, h)

pub place-eq :
    (g : Geometry) (c : ℕ)
    → IsUsual g
    → c < 2 ^ 30
    → (fat_sector g c ≡ g.reserved_sector + c / 128) × (fat_place g c ≡ c % 128 * 4)
unfolding fat_sector fat_place
place-eq g c u h = rw (u.size) (omega (arith, h), omega (arith, h))

place-aligned : (g : Geometry) (c : ℕ) → IsUsual g → c < 2 ^ 30 → fat_place g c % 4 ≡ 0
place-aligned g c u h = ap (λ k. k % 4) (place-eq g c u h).1 ∙ omega arith

pub sector_not_0 : (g : Geometry) (c : ℕ) → IsUsual g → fat_sector g c ≢ 0
unfolding fat_sector
sector_not_0 g c u e = u.front (omega (arith, e))

-- The sectors of entries are at most 2 ^ 23 apart, and so no two of them are one place.
pub fat_sector_apart :
    (g : Geometry) (c e : ℕ)
    → IsUsual g
    → disk_position (fat_sector g c) ≡ disk_position (fat_sector g e)
    → fat_sector g c ≡ fat_sector g e
unfolding fat_sector
fat_sector_apart g c e u h =
    same (fat_offset c / g.bytes_per_sector) (fat_offset e / g.bytes_per_sector) (below c) (below e)
      h
  where
    below : (x : ℕ) → fat_offset x / g.bytes_per_sector < 2 ^ 23
    below x = rw (u.size) (omega arith)

    same :
        (x y : ℕ)
        → x < 2 ^ 23
        → y < 2 ^ 23
        → disk_position (g.reserved_sector + x) ≡ disk_position (g.reserved_sector + y)
        → g.reserved_sector + x ≡ g.reserved_sector + y
    same x y hx hy q = omega (arith, hx, hy, q)

itself : (k : ℕ) → (disk_position k == disk_position k) ≡ true
itself k = (==_iff (disk_position k) (disk_position k)).1 refl

pub put_sector_self : (d : ℕ → Sector) (i : ℕ) (buf : Sector) → put_sector d i buf i ≡ buf
put_sector_self d i buf = rw (itself i) refl

pub put_sector_other :
    (d : ℕ → Sector) (i j : ℕ) (buf : Sector)
    → (disk_position j == disk_position i) ≡ false
    → put_sector d i buf j ≡ d j
put_sector_other d i j buf h = rw h refl

put_sector-twice :
    (d : ℕ → Sector) (i : ℕ) (a b : Sector) → put_sector (put_sector d i a) i b ≡ put_sector d i b
put_sector-twice d i a b = fun_ext (λ j. again (disk_position j == disk_position i) (d j))
  where
    again : (t : Bool) (z : Sector) → (if t then b else if t then a else z) ≡ (if t then b else z)
    again true z = refl
    again false z = refl

-- Two entries in one sector stand in different places.
places_differ :
    (g : Geometry) (c e : ℕ)
    → IsUsual g
    → c < 2 ^ 30
    → e < 2 ^ 30
    → c ≢ e
    → fat_sector g e ≡ fat_sector g c
    → fat_place g c ≢ fat_place g e
places_differ g c e u hc he n q r = n (
    omega (
      arith,
      sym (place-eq g e u he).0 ∙ q ∙ (place-eq g c u hc).0,
      sym (place-eq g c u hc).1 ∙ r ∙ (place-eq g e u he).1,
    ))

entry-same :
    (g : Geometry) (d : ℕ → Sector) (c v : ℕ) → v < 2 ^ 32 → entry g (set_entry g d c v) c ≡ v
unfolding entry set_entry
entry-same g d c v h =
    ap (λ b. get_dword b (fat_place g c))
      (put_sector_self d (fat_sector g c) (put_dword (d (fat_sector g c)) (fat_place g c) v))
    ∙ get-put_same (d (fat_sector g c)) (fat_place g c) v h

entry-apart :
    (g : Geometry) (d : ℕ → Sector) (c v e : ℕ)
    → IsUsual g
    → c < 2 ^ 30
    → e < 2 ^ 30
    → c ≢ e
    → entry g (set_entry g d c v) e ≡ entry g d e
unfolding entry set_entry
entry-apart g d c v e u hc he n =
    elim (Bool-cases (disk_position (fat_sector g e) == disk_position (fat_sector g c))) [
      | inr h ↦
          ap (λ b. get_dword b (fat_place g e))
            (put_sector_other d (fat_sector g c) (fat_sector g e)
              (put_dword (d (fat_sector g c)) (fat_place g c) v) h)
      | inl h ↦
          ap
            (λ i.
              get_dword
                (put_sector d (fat_sector g c) (put_dword (d (fat_sector g c)) (fat_place g c) v) i)
                (fat_place g e))
            (one_sector h)
          ∙ ap (λ b. get_dword b (fat_place g e))
              (put_sector_self d (fat_sector g c)
                (put_dword (d (fat_sector g c)) (fat_place g c) v))
          ∙ get-put_other (d (fat_sector g c)) (fat_place g c) (fat_place g e) v
              (place-aligned g c u hc) (place-aligned g e u he)
              (places_differ g c e u hc he n (one_sector h))
          ∙ ap (λ i. get_dword (d i) (fat_place g e)) (sym (one_sector h))
    ]
  where
    one_sector :
        (disk_position (fat_sector g e) == disk_position (fat_sector g c)) ≡ true
        → fat_sector g e ≡ fat_sector g c
    one_sector h =
        fat_sector_apart g e c u
          ((==_iff (disk_position (fat_sector g e)) (disk_position (fat_sector g c))).0 h)

pub set_entry-Outside :
    (g : Geometry) (d : ℕ → Sector) (c v j : ℕ)
    → (disk_position j == disk_position (fat_sector g c)) ≡ false
    → set_entry g d c v j ≡ d j
unfolding set_entry
set_entry-Outside g d c v j h =
    put_sector_other d (fat_sector g c) j (put_dword (d (fat_sector g c)) (fat_place g c) v) h

-- An entry that is set is read back, and the others are as they were.
pub entry-set_entry :
    (g : Geometry) (d : ℕ → Sector) (c v e : ℕ)
    → IsUsual g
    → c < 2 ^ 30
    → e < 2 ^ 30
    → v < 2 ^ 32
    → entry g (set_entry g d c v) e ≡ (if e == c then v else entry g d e)
entry-set_entry g d c v e u hc he hv = elim (Bool-cases (e == c)) [
  | inl h ↦ rw h (ap (entry g (set_entry g d c v)) ((==_iff e c).0 h) ∙ entry-same g d c v hv)
  | inr h ↦ rw h (entry-apart g d c v e u hc he (ground (arith, h)))
]

-- The disk as it will be when the buffer is written.
unfoldable pub seen : Buffered → ℕ → Sector
seen b = if b.pre == 0 then b.disk.sect else put_sector b.disk.sect b.pre b.buf

seen-pre : (b : Buffered) → b.pre ≢ 0 → seen b ≡ put_sector b.disk.sect b.pre b.buf
unfolding seen
seen-pre b n = rw (gone) refl
  where
    gone : (b.pre == 0) ≡ false
    gone = ground (arith, n)

-- The disk once the sector in the buffer is written.
abbrev gone : Buffered → Vdisk
gone b = if b.pre == 0 then b.disk else write_sector b.disk b.buf b.pre

gone-seen : (b : Buffered) → (gone b).sect ≡ seen b
unfolding seen write_sector
gone-seen b = elim (Bool-cases (b.pre == 0)) [ inl h ↦ rw h refl | inr h ↦ rw h refl ]

switch-same : (b : Buffered) (i : ℕ) → (i == b.pre) ≡ true → switch b i ≡ b
unfolding switch
switch-same b i h = rw h refl

switch-new :
    (b : Buffered) (i : ℕ)
    → (i == b.pre) ≡ false
    → switch b i ≡ record { disk = gone b; buf = (gone b).sect i; pre = i }
unfolding switch
switch-new b i h = rw h refl

seen-own : (b : Buffered) (i : ℕ) → i ≢ 0 → i ≡ b.pre → seen b ≡ put_sector b.disk.sect i b.buf
seen-own b i n e = seen-pre b (λ z. n (e ∙ z)) ∙ ap (λ k. put_sector b.disk.sect k b.buf) (sym e)

-- The buffer holds the sector as it will be.
switch-buf : (b : Buffered) (i : ℕ) → i ≢ 0 → (switch b i).buf ≡ seen b i
switch-buf b i n = elim (Bool-cases (i == b.pre)) [
  | inl h ↦
      ap (λ r. r.buf) (switch-same b i h)
      ∙ sym (put_sector_self b.disk.sect i b.buf)
      ∙ ap (λ d. d i) (sym (seen-own b i n ((==_iff i b.pre).0 h)))
  | inr h ↦ ap (λ r. r.buf) (switch-new b i h) ∙ ap (λ d. d i) (gone-seen b)
]

switch-disk :
    (b : Buffered) (i : ℕ) (buf : Sector)
    → i ≢ 0
    → put_sector (switch b i).disk.sect i buf ≡ put_sector (seen b) i buf
switch-disk b i buf n = elim (Bool-cases (i == b.pre)) [
  | inl h ↦
      ap (λ r. put_sector r.disk.sect i buf) (switch-same b i h)
      ∙ sym (put_sector-twice b.disk.sect i b.buf buf)
      ∙ ap (λ d. put_sector d i buf) (sym (seen-own b i n ((==_iff i b.pre).0 h)))
  | inr h ↦
      ap (λ r. put_sector r.disk.sect i buf) (switch-new b i h)
      ∙ ap (λ d. put_sector d i buf) (gone-seen b)
]

switch-pre : (b : Buffered) (i : ℕ) → (switch b i).pre ≡ i
switch-pre b i = elim (Bool-cases (i == b.pre)) [
  | inl h ↦ ap (λ r. r.pre) (switch-same b i h) ∙ sym ((==_iff i b.pre).0 h)
  | inr h ↦ ap (λ r. r.pre) (switch-new b i h)
]

-- The entry that the code reads from the buffer.
pub switch-entry :
    (g : Geometry) (b : Buffered) (c : ℕ)
    → IsUsual g
    → get_dword (switch b (fat_sector g c)).buf (fat_place g c) ≡ entry g (seen b) c
unfolding entry
switch-entry g b c u =
    ap (λ k. get_dword k (fat_place g c)) (switch-buf b (fat_sector g c) (sector_not_0 g c u))

pub put_entry-seen :
    (g : Geometry) (b : Buffered) (c v : ℕ)
    → IsUsual g
    → seen (put_entry g b c v) ≡ set_entry g (seen b) c v
unfolding set_entry put_entry
put_entry-seen g b c v u =
    seen-own (put_entry g b c v) (fat_sector g c) (sector_not_0 g c u)
      (sym (switch-pre b (fat_sector g c)))
    ∙ switch-disk b (fat_sector g c) (put_dword (switch b (fat_sector g c)).buf (fat_place g c) v)
        (sector_not_0 g c u)
    ∙ ap (λ k. put_sector (seen b) (fat_sector g c) (put_dword k (fat_place g c) v))
        (switch-buf b (fat_sector g c) (sector_not_0 g c u))

pub put_entry-pre :
    (g : Geometry) (b : Buffered) (c v : ℕ) → (put_entry g b c v).pre ≡ fat_sector g c
unfolding put_entry
put_entry-pre g b c v = switch-pre b (fat_sector g c)

pub flush-seen : (b : Buffered) → b.pre ≢ 0 → (flush b).sect ≡ seen b
unfolding write_sector
flush-seen b n = sym (seen-pre b n)
