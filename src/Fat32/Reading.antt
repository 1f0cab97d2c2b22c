-- ===== src/Fat32/Reading.antt =====
-- What `ReadRecord` of kernel/base.c reads, a record at a time, of a disk with a record put on it.
use exp_memfs.Base.{
  ltb, leb, ◌==◌, if◌then◌else◌, ==_iff, Bool-cases, ok, ℤ, pos, negsuc, ℕ, suc, ◌+◌, ◌-◌, ◌%◌, ◌≤◌,
  ◌<◌, ◌≡◌, refl, sym, ap, ◌∙◌, inl, inr, Bool, true, false, ◌&&◌, some, List, [], ◌∷◌, map, arith,
}
use mathlib.Core.Path.{ap₂}
use mathlib.Core.Bool.{true≢false}
use exp_memfs.Str.{strcmp}
use exp_memfs.Str.Compare.{text, strcmp-zero, strcmp-eq}
use exp_memfs.Fat32.Place.{Among}
use exp_memfs.Fat32.{disk_position, Geometry, Sector, put_sector}
use exp_memfs.Fat32.Name.{lower, lower_base, put_name, get_name_from_record, clean}
use exp_memfs.Fat32.NameTrip.{bytes_at-same, HasName}
use exp_memfs.Fat32.Dir.{record_at, same_text, next_sector, record_loop, put_record, Hit}

-- The disk with record `r` at the place.
abbrev pub made : (ℕ → Sector) → ℕ → ℕ → Sector → ℕ → Sector
made d c o r = put_sector d c (put_record (d c) o r)

pub made-here :
    (d : ℕ → Sector) (c o : ℕ) (r : Sector) (x : ℕ) → x < 32 → record_at (made d c o r c) o x ≡ r x
made-here d c o r x h = rw (itself) (ground (arith, h, same))
  where
    itself : (disk_position c == disk_position c) ≡ true
    itself = (==_iff (disk_position c) (disk_position c)).1 refl

    same : r (o + x - o) ≡ r x
    same = ap r (omega arith)

pub made-apart :
    (d : ℕ → Sector) (first c o : ℕ) (r : Sector) (cur off x : ℕ)
    → Among first c
    → Among first cur
    → (cur == c && off == o) ≡ false
    → off % 32 ≡ 0
    → o % 32 ≡ 0
    → x < 32
    → record_at (made d c o r cur) off x ≡ record_at (d cur) off x
made-apart d first c o r cur off x (p, q) (u, v) n a b h =
    elim (Bool-cases (disk_position cur == disk_position c)) [
      | inr e ↦ rw e refl
      | inl e ↦ rw e (rw (outside (one_sector e)) (ap (λ i. d i (off + x)) (sym (one_sector e))))
    ]
  where
    one_sector : (disk_position cur == disk_position c) ≡ true → cur ≡ c
    one_sector e = omega (arith, p, q, u, v, (==_iff (disk_position cur) (disk_position c)).0 e)

    outside : cur ≡ c → (leb o (off + x) && ltb (off + x) (o + 32)) ≡ false
    outside e = ground (arith, n, a, b, h, e)

pub get_name-same :
    (r r' : Sector) (buf : List ℕ)
    → ((x : ℕ) → x < 32 → r x ≡ r' x)
    → get_name_from_record r buf ≡ get_name_from_record r' buf
unfolding get_name_from_record
get_name-same r r' buf h =
    ap₂ (λ n t. put_name (lower_base n) (map lower t) buf)
      (bytes_at-same r r' 0 8 (λ x k. h x (omega (arith, k))))
      (bytes_at-same r r' 8 3 (λ x k. h x (omega (arith, k))))

pub read_turns :
    (g : Geometry) (d : ℕ → Sector) (fuel first cur off : ℕ) (name : List ℕ)
    → leb g.bytes_per_sector off ≡ true
    → record_loop (suc fuel) g d first cur off name
      ≡ record_loop fuel g d first (next_sector first cur) 0 name
unfolding record_loop
read_turns g d fuel first cur off name h = rw h refl

-- A round at a record in use.
pub read_used :
    (g : Geometry) (d : ℕ → Sector) (fuel first cur off : ℕ) (name full : List ℕ)
    → leb g.bytes_per_sector off ≡ false
    → (record_at (d cur) off 0 == 0) ≡ false
    → get_name_from_record (record_at (d cur) off) clean ≡ ok full
    → record_loop (suc fuel) g d first cur off name ≡ (
        if same_text full name
        then ok (some (record { rec = record_at (d cur) off; sector = cur; off = off }))
        else record_loop fuel g d first cur (off + 32) name)
unfolding record_loop
read_used g d fuel first cur off name full h f q = rw (h, f, q) refl

pub same_text-eq : (p q : List ℕ) → text p ≡ text q → same_text p q ≡ true
same_text-eq p q h = ap (λ z. elim z [ pos n ↦ n == 0 | negsuc n ↦ false ]) (strcmp-eq p q h)

pub same_text-text : (p q : List ℕ) → same_text p q ≡ true → text p ≡ text q
same_text-text p q h = strcmp-zero p q (by_sign (strcmp p q) h)
  where
    by_sign :
        (z : ℤ) → (elim z as (λ y. Bool) [ pos n ↦ n == 0 | negsuc n ↦ false ]) ≡ true → z ≡ pos 0
    by_sign (pos n) k = ap pos ((==_iff n 0).0 k)
    by_sign (negsuc n) k = absurd (true≢false (sym k))

pub text-text : (s : List ℕ) → text (text s) ≡ text s
text-text [] = refl
text-text (c ∷ s) = elim (Bool-cases (c == 0)) [
  | inl h ↦ rw h refl
  | inr h ↦ rw h (rw h (ap (λ t. c ∷ t) (text-text s)))
]

-- The name of every record in the 8 sectors can be read: none is blank throughout.
abbrev pub Readable : Geometry → (ℕ → Sector) → ℕ → Type 0
Readable g d first =
    (i o : ℕ)
    → first ≤ i
    → i < first + 8
    → o < g.bytes_per_sector
    → o % 32 ≡ 0
    → (full : List ℕ) × (get_name_from_record (record_at (d i) o) clean ≡ ok full)

-- The record at the place is found.
pub read_here :
    (g : Geometry) (d : ℕ → Sector) (fuel first c o : ℕ) (name : List ℕ) (r : Sector)
    → HasName r name
    → (r 0 == 0) ≡ false
    → leb g.bytes_per_sector o ≡ false
    → (hit : Hit) × (record_loop (suc fuel) g (made d c o r) first c o name ≡ ok (some hit))
      × HasName hit.rec name
read_here g d fuel first c o name r (full, q, t) z e = (
  record { rec = record_at (made d c o r c) o; sector = c; off = o },
  read_used g (made d c o r) fuel first c o name full e
        (ap (λ b. b == 0) (made-here d c o r 0 (omega arith)) ∙ z) read
      ∙ rw (same_text-eq full name (sym (text-text full) ∙ ap text t)) refl,
  (full, read, t),
)
  where
    read : get_name_from_record (record_at (made d c o r c) o) clean ≡ ok full
    read = get_name-same (record_at (made d c o r c) o) r clean (made-here d c o r) ∙ q

-- A record in front of the place has the name, or the search goes on behind it.
pub read_past :
    (g : Geometry) (d : ℕ → Sector) (fuel first cur off : ℕ) (name : List ℕ)
    → text name ≡ name
    → leb g.bytes_per_sector off ≡ false
    → (record_at (d cur) off 0 == 0) ≡ false
    → (full : List ℕ) × (get_name_from_record (record_at (d cur) off) clean ≡ ok full)
    → (hit : Hit) × (record_loop fuel g d first cur (off + 32) name ≡ ok (some hit))
      × HasName hit.rec name
    → (hit : Hit) × (record_loop (suc fuel) g d first cur off name ≡ ok (some hit))
      × HasName hit.rec name
read_past g d fuel first cur off name n e z (full, q) (hit, k, m) =
    elim (Bool-cases (same_text full name)) [
      | inl t ↦ (
        record { rec = record_at (d cur) off; sector = cur; off = off },
        read_used g d fuel first cur off name full e z q ∙ rw t refl,
        (full, q, same_text-text full name t ∙ n),
      )
      | inr t ↦ (hit, read_used g d fuel first cur off name full e z q ∙ rw t k, m)
    ]
