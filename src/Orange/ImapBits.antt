-- ===== src/Orange/ImapBits.antt =====
-- The bits of the map of inodes of kernel/fs.c.
use exp_memfs.Base.{
  ltb, leb, ◌==◌, if◌then◌else◌, ltb→lt, ==_iff, get_or, ℕ, zero, suc, ◌+◌, ◌-◌, ◌/◌, ◌%◌, ◌^◌, ◌≤◌,
  ◌<◌, ◌≡◌, refl, ap, ◌∙◌, Bool, true, false, ◌&&◌, ◌||◌, List, ◌∷◌, arith,
}
use exp_memfs.Orange.Imap.{first_zero, set_bit, clear_bit}

-- Bit `i` of a byte, and bit `x` of a sector.
abbrev pub bit_of : ℕ → ℕ → ℕ
bit_of b i = b / 2 ^ i % 2

abbrev pub map_bit : List ℕ → ℕ → ℕ
map_bit bytes x = bit_of (get_or bytes (x / 8) 0) (x % 8)

abbrev pub all_below : ℕ → (ℕ → Bool) → Bool
all_below zero p = true
all_below (suc n) p = p n && all_below n p

pub all_below-true : (n : ℕ) (p : ℕ → Bool) (x : ℕ) → all_below n p ≡ true → x < n → p x ≡ true
all_below-true zero p x h l = absurd (omega arith)
all_below-true (suc n) p x h l = ground (arith, all_below-true n p x)

-- What the code does to one byte.
abbrev bit_ok : ℕ → ℕ → Bool
bit_ok b i =
    bit_of (set_bit b (first_zero b)) i == (if i == first_zero b then 1 else bit_of b i)
    && (leb (first_zero b) i || bit_of b i == 1)

abbrev byte_fits : ℕ → Bool
byte_fits b =
    ltb (first_zero b) 8
    && (bit_of b (first_zero b) == 0
        && (clear_bit (set_bit b (first_zero b)) (first_zero b) == b && all_below 8 (bit_ok b)))

abbrev byte_ok : ℕ → Bool
byte_ok b = b == 255 || byte_fits b

bytes_ok : all_below 256 byte_ok ≡ true
bytes_ok = refl

pub full_ok : all_below 8 (λ i. bit_of 255 i == 1) ≡ true
full_ok = refl

both : (a b : Bool) → (a && b) ≡ true → (a ≡ true) × (b ≡ true)
both a b h = (ground (arith, h), ground (arith, h))

-- A byte with a 0, and the byte after the code set the first of them.
pub record Taken (b : ℕ) : Type 0 where
  pub low : first_zero b < 8
  pub clear : bit_of b (first_zero b) ≡ 0
  pub undo : clear_bit (set_bit b (first_zero b)) (first_zero b) ≡ b
  pub bits :
      (i : ℕ)
      → i < 8
      → bit_of (set_bit b (first_zero b)) i ≡ (if i == first_zero b then 1 else bit_of b i)
  pub ones : (i : ℕ) → i < first_zero b → bit_of b i ≡ 1

either : (a b : Bool) → (a || b) ≡ true → a ≡ false → b ≡ true
either a b h e = ground (arith, h, e)

pub byte-Taken : (b : ℕ) → b < 256 → (b == 255) ≡ false → Taken b
byte-Taken b l n =
    let fits = either (b == 255) (byte_fits b) (all_below-true 256 byte_ok b bytes_ok l) n in
    let (p, r1) =
      both (ltb (first_zero b) 8)
        (bit_of b (first_zero b) == 0
          && (clear_bit (set_bit b (first_zero b)) (first_zero b) == b && all_below 8 (bit_ok b)))
        fits in
    let (q, r2) =
      both (bit_of b (first_zero b) == 0)
        (clear_bit (set_bit b (first_zero b)) (first_zero b) == b && all_below 8 (bit_ok b)) r1 in
    let (u, t) =
      both (clear_bit (set_bit b (first_zero b)) (first_zero b) == b) (all_below 8 (bit_ok b)) r2 in
    taken (ltb→lt (first_zero b) 8 p) ((==_iff (bit_of b (first_zero b)) 0).0 q)
      ((==_iff (clear_bit (set_bit b (first_zero b)) (first_zero b)) b).0 u)
      (λ i m. all_below-true 8 (bit_ok b) i t m)
  where
    now :
        (i : ℕ)
        → bit_ok b i ≡ true
        → bit_of (set_bit b (first_zero b)) i ≡ (if i == first_zero b then 1 else bit_of b i)
    now i h =
        (==_iff (bit_of (set_bit b (first_zero b)) i)
            (if i == first_zero b then 1 else bit_of b i)).0
          (both
            (bit_of (set_bit b (first_zero b)) i == (if i == first_zero b then 1 else bit_of b i))
            (leb (first_zero b) i || bit_of b i == 1) h).0

    below : (i : ℕ) → i < first_zero b → bit_ok b i ≡ true → bit_of b i ≡ 1
    below i m h = (==_iff (bit_of b i) 1).0 (
        either (leb (first_zero b) i) (bit_of b i == 1)
          (both
            (bit_of (set_bit b (first_zero b)) i == (if i == first_zero b then 1 else bit_of b i))
            (leb (first_zero b) i || bit_of b i == 1) h).1
          (ground (arith, m)))

    taken :
        first_zero b < 8
        → bit_of b (first_zero b) ≡ 0
        → clear_bit (set_bit b (first_zero b)) (first_zero b) ≡ b
        → ((i : ℕ) → i < 8 → bit_ok b i ≡ true)
        → Taken b
    taken p q u t = record {
      low = p;
      clear = q;
      undo = u;
      bits = λ i m. now i (t i m);
      ones = λ i m. below i m (t i (omega (arith, m, p)));
    }

pub map_bit-low : (b : ℕ) (bs : List ℕ) (y : ℕ) → y < 8 → map_bit (b ∷ bs) y ≡ bit_of b y
map_bit-low b bs y h = rw (zero_th, self) refl
  where
    zero_th : y / 8 ≡ 0
    zero_th = omega arith

    self : y % 8 ≡ y
    self = omega arith

map_bit-high : (b : ℕ) (bs : List ℕ) (y : ℕ) → map_bit (b ∷ bs) (8 + y) ≡ map_bit bs y
map_bit-high b bs y = rw (next_th, self) refl
  where
    next_th : (8 + y) / 8 ≡ suc (y / 8)
    next_th = omega arith

    self : (8 + y) % 8 ≡ y % 8
    self = omega arith

-- For the bits from the ninth on.
pub high :
    (b : ℕ) (bs : List ℕ) (y : ℕ) → (ltb y 8) ≡ false → map_bit (b ∷ bs) y ≡ map_bit bs (y - 8)
high b bs y h = ap (map_bit (b ∷ bs)) (omega (arith, back)) ∙ map_bit-high b bs (y - 8)
  where
    back : 8 ≤ y
    back = ground (arith, h)
