-- ===== src/Paging/Space.antt =====
-- The pages that a directory maps, and what the writes of kernel/pagetbl.c do to them.
use exp_memfs.Base.{
  ltb, leb, ◌==◌, if◌then◌else◌, ==_iff, Bool-cases, ℕ, ◌+◌, ◌%◌, ◌^◌, ◌<◌, ◌≡◌, refl, sym, ◌≢◌,
  inl, inr, true, ◌&&◌, Option, none, some, arith,
}
use exp_memfs.Paging.{frame, slot, is_odd, page_size}
use exp_memfs.Ramfs.{k_phy2lin}

-- The page that an entry of a table names.
abbrev pub leaf : ℕ → Option ℕ
leaf v = if is_odd v then some (frame v) else none

-- The page of entry `j` in the table of entry `i` of the directory `d`.
abbrev pub look : (ℕ → ℕ) → ℕ → ℕ → ℕ → Option ℕ
look w d i j = if is_odd (w (slot d i)) then leaf (w (slot (frame (w (slot d i))) j)) else none

-- The address of a page that a table may have, in the first gigabyte.
abbrev pub IsPage : ℕ → Type 0
IsPage p = (p % 4096 ≡ 0) × (p < 2 ^ 30)

-- The directory `d` and its tables are pages of their own.
pub record Tables (w : ℕ → ℕ) (d : ℕ) : Type 0 where
  pub dir : IsPage d
  pub small : (i : ℕ) → i < 1024 → is_odd (w (slot d i)) ≡ true → frame (w (slot d i)) < 2 ^ 30
  pub not_dir : (i : ℕ) → i < 1024 → is_odd (w (slot d i)) ≡ true → frame (w (slot d i)) ≢ d
  pub apart :
      (i j : ℕ)
      → i < 1024
      → j < 1024
      → is_odd (w (slot d i)) ≡ true
      → is_odd (w (slot d j)) ≡ true
      → frame (w (slot d i)) ≡ frame (w (slot d j))
      → i ≡ j

abbrev pub upd : (ℕ → ℕ) → ℕ → ℕ → ℕ → ℕ
upd w x v y = if y == x then v else w y

abbrev pub clear : (ℕ → ℕ) → ℕ → ℕ → ℕ
clear w p x = if leb (k_phy2lin p) x && ltb x (k_phy2lin p + page_size) then 0 else w x

pub slot-same_page :
    (p q i j : ℕ) → IsPage p → IsPage q → i < 1024 → j < 1024 → slot p i ≡ slot q j → p ≡ q
slot-same_page p q i j hp hq hi hj e = omega arith

pub slot-same_index : (p i j : ℕ) → IsPage p → i < 1024 → j < 1024 → slot p i ≡ slot p j → i ≡ j
slot-same_index p i j hp hi hj e = omega arith

pub upd-other :
    (w : ℕ → ℕ) (v p q i j : ℕ)
    → IsPage p
    → IsPage q
    → i < 1024
    → j < 1024
    → p ≢ q
    → upd w (slot p i) v (slot q j) ≡ w (slot q j)
upd-other w v p q i j hp hq hi hj n = elim (Bool-cases (slot q j == slot p i)) [
  | inl e ↦
      absurd (n (sym (slot-same_page q p j i hq hp hj hi ((==_iff (slot q j) (slot p i)).0 e))))
  | inr e ↦ rw e refl
]

pub upd-same_page :
    (w : ℕ → ℕ) (v p i j : ℕ)
    → IsPage p
    → i < 1024
    → j < 1024
    → upd w (slot p i) v (slot p j) ≡ (if j == i then v else w (slot p j))
upd-same_page w v p i j hp hi hj = elim (Bool-cases (slot p j == slot p i)) [
  | inl e ↦ ground (arith, slot-same_index p j i hp hj hi ((==_iff (slot p j) (slot p i)).0 e), e)
  | inr e ↦ rw e (ground arith)
]

pub clear-slot :
    (w : ℕ → ℕ) (p q j : ℕ)
    → IsPage p
    → IsPage q
    → j < 1024
    → clear w p (slot q j) ≡ (if q == p then 0 else w (slot q j))
clear-slot w p q j hp hq hj = ground arith
