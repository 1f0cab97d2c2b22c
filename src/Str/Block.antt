-- ===== src/Str/Block.antt =====
-- `memset` and `memcpy` of lib/string.c: the memory that they leave, byte by byte.
use exp_memfs.Base.{
  ltb, leb, ◌==◌, if◌then◌else◌, lt→ltb, Bool-cases, ℕ, zero, suc, ◌+◌, ◌-◌, ◌%◌, ◌^◌, ◌≤◌, ◌<◌,
  ◌≡◌, ap, ◌≢◌, ◌⊎◌, inl, inr, Bool, ◌&&◌, arith,
}
use exp_memfs.Str.{Mem, store, fill, memset, memcpy, copy_up, copy_down}

-- `x` lies in the `n` bytes from `a` on.
abbrev pub within : ℕ → ℕ → ℕ → Bool
within a n x = leb a x && ltb x (a + n)

fill_lem : (n : ℕ) (m : Mem) (p c x : ℕ) → fill m p c n x ≡ (if within p n x then c else m x)
unfolding fill
fill_lem zero m p c x = ground arith
fill_lem (suc n) m p c x = ground (arith, fill_lem n (store m p c) (p + 1) c x)

pub memset_lem :
    (m : Mem) (v c n x : ℕ)
    → n < 2 ^ 31
    → memset m v c n x ≡ (if within v n x then c % 256 else m x)
unfolding memset
memset_lem m v c n x h = rw (lt→ltb n (2 ^ 31) h) (fill_lem n m v (c % 256) x)

at_same : (m : Mem) (a b : ℕ) → a ≡ b → m a ≡ m b
at_same m a b e = ap m e

up_here :
    (n : ℕ) (m : Mem) (d s x : ℕ)
    → x ≡ d
    → (if within (d + 1) n x then store m d (m s) (s + 1 + (x - (d + 1))) else store m d (m s) x)
      ≡ (if within d (suc n) x then m (s + (x - d)) else m x)
up_here n m d s x e = ground (arith, at_same m s (s + (x - d)))

up_there :
    (n : ℕ) (m : Mem) (d s x : ℕ)
    → (d ≤ s) ⊎ (s + suc n ≤ d)
    → x ≢ d
    → (if within (d + 1) n x then store m d (m s) (s + 1 + (x - (d + 1))) else store m d (m s) x)
      ≡ (if within d (suc n) x then m (s + (x - d)) else m x)
up_there n m d s x h e = ground (arith, at_same m (s + 1 + (x - (d + 1))) (s + (x - d)))

copy_up_lem :
    (n : ℕ) (m : Mem) (d s x : ℕ)
    → (d ≤ s) ⊎ (s + n ≤ d)
    → copy_up m d s n x ≡ (if within d n x then m (s + (x - d)) else m x)
unfolding copy_up
copy_up_lem zero m d s x h = ground arith
copy_up_lem (suc n) m d s x h = elim (Bool-cases (x == d)) [
  | inl here ↦
      rw (copy_up_lem n (store m d (m s)) (d + 1) (s + 1) x (ground arith))
        (up_here n m d s x (ground arith))
  | inr there ↦
      rw (copy_up_lem n (store m d (m s)) (d + 1) (s + 1) x (ground arith))
        (up_there n m d s x h (ground arith))
]

down_step :
    (n : ℕ) (m : Mem) (d s x : ℕ)
    → s < d
    → (if within d n x
        then store m (d + n) (m (s + n)) (s + (x - d))
        else store m (d + n) (m (s + n)) x)
      ≡ (if within d (suc n) x then m (s + (x - d)) else m x)
down_step n m d s x h =
    ground (arith, λ (e : s + n ≡ s + (x - d)). at_same m (s + n) (s + (x - d)) e)

copy_down_lem :
    (n : ℕ) (m : Mem) (d s x : ℕ)
    → s < d
    → copy_down m d s n x ≡ (if within d n x then m (s + (x - d)) else m x)
unfolding copy_down
copy_down_lem zero m d s x h = ground arith
copy_down_lem (suc n) m d s x h =
    rw (copy_down_lem n (store m (d + n) (m (s + n))) d s x h) (down_step n m d s x h)

memcpy_lem :
    (m : Mem) (d s n x : ℕ) → memcpy m d s n x ≡ (if within d n x then m (s + (x - d)) else m x)
unfolding memcpy
memcpy_lem m d s n x = elim (Bool-cases (ltb s d && ltb d (s + n))) [
  | inl overlap ↦ rw overlap (copy_down_lem n m d s x (ground arith))
  | inr free ↦ rw free (copy_up_lem n m d s x (ground arith))
]

-- `memset` of fewer than 2 ^ 31 bytes writes the low byte of `c` to each of them, and to no other.
-- `memcpy` leaves in the bytes at `d` what those at `s` held before the call, also where the two ranges
-- overlap, and changes no other byte.
pub memset_and_memcpy :
    (m : Mem) (v c k d s n x : ℕ)
    → k < 2 ^ 31
    → (memset m v c k x ≡ (if within v k x then c % 256 else m x))
      × (memcpy m d s n x ≡ (if within d n x then m (s + (x - d)) else m x))
memset_and_memcpy m v c k d s n x h = (memset_lem m v c k x h, memcpy_lem m d s n x)
