-- ===== src/Orange/ImapAlloc.antt =====
-- The allocation of an inode number from the map of kernel/fs.c, and its return.
use exp_memfs.Base.{
  ltb, ◌==◌, if◌then◌else◌, ltb→lt, ==_iff, Bool-cases, length, get_or, set, ok, ℕ, suc, ◌+◌, ◌-◌,
  ◌*◌, ◌/◌, ◌%◌, ◌<◌, ◌≡◌, refl, sym, ap, ◌∙◌, ◌≢◌, ◌⊎◌, inl, inr, true, false, ◌&&◌, Option, none,
  some, List, [], ◌∷◌, arith,
}
use mathlib.Core.Path.{ap₂, subst⁻¹}
use exp_memfs.Orange.Imap.{
  MapDisk, write_map, first_zero, set_bit, take_bit, alloc_imap_bit, clear_bit, free_imap_bit,
}
use exp_memfs.Orange.ImapBits.{
  bit_of, map_bit, all_below-true, full_ok, Taken, byte-Taken, map_bit-low, high,
}

abbrev pub IsBytes : List ℕ → Type 0
IsBytes bytes = (j : ℕ) → get_or bytes j 0 < 256

-- Every bit is 1.
abbrev pub NoBit : List ℕ → Type 0
NoBit bytes = (x : ℕ) → x < 8 * length bytes → map_bit bytes x ≡ 1

-- Bit `x` is the first one that is 0, and the only one that differs afterwards.
pub record TakesBit (bytes bytes' : List ℕ) (x : ℕ) : Type 0 where
  pub inside : x < 8 * length bytes
  pub was : map_bit bytes x ≡ 0
  pub first : (y : ℕ) → y < x → map_bit bytes y ≡ 1
  pub changed : (y : ℕ) → map_bit bytes' y ≡ (if y == x then 1 else map_bit bytes y)
  pub undo : set bytes' (x / 8) (clear_bit (get_or bytes' (x / 8) 0) (x % 8)) ≡ bytes

abbrev Took : ℕ → List ℕ → Option (ℕ × List ℕ) → Type 0
Took j bytes none = NoBit bytes
Took j bytes (some (nr, bytes')) = (x : ℕ) × (nr ≡ 8 * j + x) × TakesBit bytes bytes' x

full_bit : (i : ℕ) → i < 8 → bit_of 255 i ≡ 1
full_bit i h = (==_iff (bit_of 255 i) 1).0 (all_below-true 8 (λ i. bit_of 255 i == 1) i full_ok h)

-- A byte without a 0 in front.
front_bit : (b : ℕ) (bs : List ℕ) (y : ℕ) → b ≡ 255 → y < 8 → map_bit (b ∷ bs) y ≡ 1
front_bit b bs y e h = map_bit-low b bs y h ∙ ap (λ c. bit_of c y) e ∙ full_bit y h

by_eight : (P : ℕ → Type 0) (y : ℕ) → (y < 8 → P y) → ((ltb y 8) ≡ false → P y) → P y
by_eight P y f g = elim (Bool-cases (ltb y 8)) [ inl h ↦ f (ltb→lt y 8 h) | inr h ↦ g h ]

NoBit-cons : (b : ℕ) (bs : List ℕ) → b ≡ 255 → NoBit bs → NoBit (b ∷ bs)
NoBit-cons b bs e n x h =
    by_eight (λ x. x < 8 * suc (length bs) → map_bit (b ∷ bs) x ≡ 1) x (λ l _. front_bit b bs x e l)
      (λ l m. high b bs x l ∙ n (x - 8) (ground (arith, l, m))) h

TakesBit-cons :
    (b x : ℕ) (bs bs' : List ℕ) → b ≡ 255 → TakesBit bs bs' x → TakesBit (b ∷ bs) (b ∷ bs') (8 + x)
TakesBit-cons b x bs bs' e t = record {
  inside = omega (arith, t.inside);
  was = high b bs (8 + x) (ground arith) ∙ ap (map_bit bs) (omega arith) ∙ t.was;
  first = λ y h.
      by_eight (λ y. y < 8 + x → map_bit (b ∷ bs) y ≡ 1) y (λ l _. front_bit b bs y e l)
        (λ l m. high b bs y l ∙ t.first (y - 8) (ground (arith, l, m))) h;
  changed = λ y.
      by_eight (λ y. map_bit (b ∷ bs') y ≡ (if y == 8 + x then 1 else map_bit (b ∷ bs) y)) y
        (λ l. rw (apart y l) (map_bit-low b bs' y l ∙ sym (map_bit-low b bs y l)))
        (λ l.
          high b bs' y l
          ∙ t.changed (y - 8)
          ∙ ap₂ (λ c v. if c then 1 else v) (shifted y l) (sym (high b bs y l)));
  undo = rw (next_th, self) (ap (λ r. b ∷ r) t.undo);
}
  where
    apart : (y : ℕ) → y < 8 → (y == 8 + x) ≡ false
    apart y l = ground arith

    shifted : (y : ℕ) → (ltb y 8) ≡ false → (y - 8 == x) ≡ (y == 8 + x)
    shifted y l = ground (arith, l)

    next_th : (8 + x) / 8 ≡ suc (x / 8)
    next_th = omega arith

    self : (8 + x) % 8 ≡ x % 8
    self = omega arith

-- The bit is in the first byte.
TakesBit-here :
    (b : ℕ) (bs : List ℕ)
    → Taken b
    → TakesBit (b ∷ bs) (set_bit b (first_zero b) ∷ bs) (first_zero b)
TakesBit-here b bs t = record {
  inside = omega (arith, t.low);
  was = map_bit-low b bs (first_zero b) t.low ∙ t.clear;
  first = λ y h. map_bit-low b bs y (omega (arith, t.low)) ∙ t.ones y h;
  changed = λ y.
      by_eight
        (λ y.
          map_bit (set_bit b (first_zero b) ∷ bs) y
          ≡ (if y == first_zero b then 1 else map_bit (b ∷ bs) y))
        y
        (λ l.
          map_bit-low (set_bit b (first_zero b)) bs y l
          ∙ t.bits y l
          ∙ ap (λ v. if y == first_zero b then 1 else v) (sym (map_bit-low b bs y l)))
        (λ l. rw (apart y l) (high (set_bit b (first_zero b)) bs y l ∙ sym (high b bs y l)));
  undo = rw (zero_th, self) (ap (λ c. c ∷ bs) t.undo);
}
  where
    apart : (y : ℕ) → (ltb y 8) ≡ false → (y == first_zero b) ≡ false
    apart y l = ground (arith, l, t.low)

    zero_th : first_zero b / 8 ≡ 0
    zero_th = omega (arith, t.low)

    self : first_zero b % 8 ≡ first_zero b
    self = omega (arith, t.low)

take_bit-full :
    (j b : ℕ) (bs : List ℕ)
    → (b == 255) ≡ true
    → take_bit j (b ∷ bs)
      ≡ (elim (take_bit (suc j) bs) [ none ↦ none | some (nr, bs') ↦ some (nr, b ∷ bs') ])
unfolding take_bit
take_bit-full j b bs e = rw (take_bit, e) refl

take_bit-here :
    (j b : ℕ) (bs : List ℕ)
    → (b == 255) ≡ false
    → take_bit j (b ∷ bs) ≡ some (j * 8 + first_zero b, set_bit b (first_zero b) ∷ bs)
unfolding take_bit
take_bit-here j b bs e = rw (take_bit, e) refl

take_bit-Took : (j : ℕ) (bytes : List ℕ) → IsBytes bytes → Took j bytes (take_bit j bytes)
unfolding take_bit
take_bit-Took j [] h = λ x l. absurd (omega arith)
take_bit-Took j (b ∷ bs) h = elim (Bool-cases (b == 255)) [
  | inr e ↦
      subst⁻¹ (Took j (b ∷ bs)) (take_bit-here j b bs e)
        (first_zero b, omega arith, TakesBit-here b bs (byte-Taken b (h 0) e))
  | inl e ↦ subst⁻¹ (Took j (b ∷ bs)) (take_bit-full j b bs e) (
      further (take_bit (suc j) bs) ((==_iff b 255).0 e)
        (take_bit-Took (suc j) bs (λ i. h (suc i))))
]
  where
    further :
        (r : Option (ℕ × List ℕ))
        → b ≡ 255
        → Took (suc j) bs r
        → Took j (b ∷ bs) (elim r [ none ↦ none | some (nr, bs') ↦ some (nr, b ∷ bs') ])
    further none e n = NoBit-cons b bs e n
    further (some (nr, bs')) e (x, q, t) = (8 + x, omega (arith, q), TakesBit-cons b x bs bs' e t)

-- For a device with a map, whose first sector is bytes: `alloc_imap_bit` returns the number of the
-- first bit of the sector that is 0, and sets this bit and no other, and nothing outside the sector;
-- when the sector has no such bit it returns 0, the number of no inode, and changes nothing, although
-- the map may have more sectors.
pub alloc_imap_bit_lem :
    (s : MapDisk) (dev : ℕ)
    → (s.super_block dev).nr_imap_sects ≢ 0
    → IsBytes (s.sect dev 2)
    → (NoBit (s.sect dev 2) × (alloc_imap_bit s dev ≡ ok (0, s)))
      ⊎ ((nr : ℕ) × (bytes : List ℕ) × TakesBit (s.sect dev 2) bytes nr
          × (alloc_imap_bit s dev ≡ ok (nr, write_map s dev 2 bytes)))
unfolding alloc_imap_bit
alloc_imap_bit_lem s dev n h =
    go (take_bit 0 (s.sect dev 2)) refl (take_bit-Took 0 (s.sect dev 2) h)
  where
    some_sect : ((s.super_block dev).nr_imap_sects == 0) ≡ false
    some_sect = ground (arith, n)

    go :
        (r : Option (ℕ × List ℕ))
        → take_bit 0 (s.sect dev 2) ≡ r
        → Took 0 (s.sect dev 2) r
        → (NoBit (s.sect dev 2) × (alloc_imap_bit s dev ≡ ok (0, s)))
          ⊎ ((nr : ℕ) × (bytes : List ℕ) × TakesBit (s.sect dev 2) bytes nr
              × (alloc_imap_bit s dev ≡ ok (nr, write_map s dev 2 bytes)))
    go none e b = inl (b, rw (alloc_imap_bit, some_sect, e) refl)
    go (some (nr, bytes)) e (x, q, t) = inr (
      nr,
      bytes,
      subst⁻¹ (TakesBit (s.sect dev 2) bytes) (omega (arith, q)) t,
      rw (alloc_imap_bit, some_sect, e) refl,
    )

-- The sector that is freed.
free-sect :
    (s : MapDisk) (dev nr : ℕ) (bytes : List ℕ)
    → nr / 8 % 512 ≡ nr / 8
    → set bytes (nr / 8) (clear_bit (get_or bytes (nr / 8) 0) (nr % 8)) ≡ s.sect dev 2
    → (d n : ℕ) → (free_imap_bit (write_map s dev 2 bytes) dev nr).sect d n ≡ s.sect d n
unfolding free_imap_bit
free-sect s dev nr bytes m u d n = rw (self dev, m, u) (same (Bool-cases (d == dev && n == 2)))
  where
    self : (k : ℕ) → (k == k) ≡ true
    self k = ground arith

    place : (d == dev && n == 2) ≡ true → (d ≡ dev) × (n ≡ 2)
    place e = (ground (arith, e), ground (arith, e))

    same :
        ((d == dev && n == 2) ≡ true) ⊎ ((d == dev && n == 2) ≡ false)
        → (if d == dev && n == 2
            then s.sect dev 2
            else if d == dev && n == 2
            then bytes
            else s.sect d n)
          ≡ s.sect d n
    same (inl e) = rw e (ap₂ s.sect (sym (place e).0) (sym (place e).1))
    same (inr e) = rw e refl

-- A number that `alloc_imap_bit` takes from the map, whose first sector is of 512 bytes and not full,
-- and that `do_unlink` frees again leaves every sector as it was.
pub free_undoes_alloc_imap :
    (s : MapDisk) (dev : ℕ)
    → (s.super_block dev).nr_imap_sects ≢ 0
    → IsBytes (s.sect dev 2)
    → length (s.sect dev 2) ≡ 512
    → ¬ NoBit (s.sect dev 2)
    → (nr : ℕ) × (s' : MapDisk) × (alloc_imap_bit s dev ≡ ok (nr, s'))
      × ((d n : ℕ) → (free_imap_bit s' dev nr).sect d n ≡ s.sect d n)
free_undoes_alloc_imap s dev n h l f = elim (alloc_imap_bit_lem s dev n h) [
  | inl (b, e) ↦ absurd (f b)
  | inr (nr, bytes, t, e) ↦
      (nr, write_map s dev 2 bytes, e, free-sect s dev nr bytes (omega (arith, t.inside, l)) t.undo)
]
