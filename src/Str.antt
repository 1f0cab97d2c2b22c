-- ===== src/Str.antt =====
-- The string functions, lib/string.c.
-- A `char *` is the list of bytes from there to the end of its buffer, and behind the end of a list
-- stand NUL bytes. `strcpy`, `strcat` and `strncpy` return the buffer `dst` as they leave it, and a
-- write behind its end is lost. `memset` and `memcpy` work on a byte memory.
pub mod Compare
pub mod Copy
pub mod Block
mod Tests
use exp_memfs.Base.{
  ltb, leb, ◌==◌, if◌then◌else◌, ltb→lt, lt→ltb, leb→le, ==_iff, Bool-cases, Option-cases, length,
  get_or, set, take, drop, replicate, erase_at, insert_at, length-append, length-set,
  get_or-set_self, get_or-set_ne, length-insert_at, u32_mod, add32, sub32, minus_one, sub_ℕ, ℤ, pos,
  negsuc, ℕ, zero, suc, ◌+◌, ◌-◌, ◌*◌, ◌/◌, ◌%◌, ◌^◌, ◌≤◌, ◌<◌, ◌≡◌, refl, sym, ap, ◌∙◌, ◌≢◌, ◌↔◌,
  ◌⊎◌, inl, inr, Bool, true, false, not, ◌&&◌, ◌||◌, Option, none, some, List, [], ◌∷◌, ◌++◌, map,
  arith,
}

-- `strlen`, with `n` bytes counted so far.
pub strlen_from : ℕ → List ℕ → ℕ
strlen_from n [] = n
strlen_from n (c ∷ s) = let rest = strlen_from (n + 1) s in if c == 0 then n else rest

unfoldable pub strlen : List ℕ → ℕ
unfolding strlen_from
strlen s = strlen_from 0 s

-- `strnlen`, with `n` bytes counted so far.
pub strnlen_from : ℕ → List ℕ → ℕ → ℕ
strnlen_from n s zero = n
strnlen_from n [] (suc k) = n
strnlen_from n (c ∷ s) (suc k) = let rest = strnlen_from (n + 1) s k in if c == 0 then n else rest

unfoldable pub strnlen : List ℕ → ℕ → ℕ
unfolding strnlen_from
strnlen s k = strnlen_from 0 s k

unfoldable pub strcpy : List ℕ → List ℕ → List ℕ
strcpy [] src = []
strcpy (d ∷ dst) [] = 0 ∷ dst
strcpy (d ∷ dst) (c ∷ src) = let rest = strcpy dst src in if c == 0 then 0 ∷ dst else c ∷ rest

-- `strcpy(dst + len, src)` leaves the first `len` bytes.
unfoldable pub strcat : List ℕ → List ℕ → List ℕ
unfolding strlen strcpy
strcat dst src = take (strlen dst) dst ++ strcpy (drop (strlen dst) dst) src

-- The byte that `src` points at, and `src` moved on unless it points at the NUL.
abbrev pub head : List ℕ → ℕ
head [] = 0
head (c ∷ s) = c

abbrev pub advance : List ℕ → List ℕ
advance [] = []
advance (c ∷ s) = if c == 0 then c ∷ s else s

unfoldable pub strncpy : List ℕ → List ℕ → ℕ → List ℕ
strncpy dst src zero = dst
strncpy [] src (suc k) = []
strncpy (d ∷ dst) src (suc k) = head src ∷ strncpy dst (advance src) k

unfoldable pub strcmp : List ℕ → List ℕ → ℤ
strcmp [] q = sub_ℕ 0 (head q)
strcmp (c ∷ p) [] = sub_ℕ c 0
strcmp (c ∷ p) (d ∷ q) =
    let rest = strcmp p q in if not (c == 0) && (c == d) then rest else sub_ℕ c d

unfoldable pub strncmp : List ℕ → List ℕ → ℕ → ℤ
strncmp p q zero = pos 0
strncmp [] q (suc n) = sub_ℕ 0 (head q)
strncmp (c ∷ p) [] (suc n) = sub_ℕ c 0
strncmp (c ∷ p) (d ∷ q) (suc n) =
    let rest = strncmp p q n in if not (c == 0) && (c == d) then rest else sub_ℕ c d

-- A byte memory, and a write to it.
abbrev pub Mem : Type 0
Mem = ℕ → ℕ

abbrev pub store : Mem → ℕ → ℕ → Mem
store m a v x = if x == a then v else m x

-- The loop of `memset`: `n` bytes are still to be written.
pub fill : Mem → ℕ → ℕ → ℕ → Mem
fill m p c zero = m
fill m p c (suc n) = fill (store m p c) (p + 1) c n

-- `memset` counts in an `int`: a count of 2 ^ 31 or more is negative there, and writes nothing.
unfoldable pub memset : Mem → ℕ → ℕ → ℕ → Mem
unfolding fill
memset m v c n = if ltb n (2 ^ 31) then fill m v (c % 256) n else m

-- The loop of `memcpy` from the low end.
pub copy_up : Mem → ℕ → ℕ → ℕ → Mem
copy_up m d s zero = m
copy_up m d s (suc n) = copy_up (store m d (m s)) (d + 1) (s + 1) n

-- The loop of `memcpy` from the high end: `d + n` and `s + n` are the pointers.
pub copy_down : Mem → ℕ → ℕ → ℕ → Mem
copy_down m d s zero = m
copy_down m d s (suc n) = copy_down (store m (d + n) (m (s + n))) d s n

unfoldable pub memcpy : Mem → ℕ → ℕ → ℕ → Mem
unfolding copy_up copy_down
memcpy m d s n = if ltb s d && ltb d (s + n) then copy_down m d s n else copy_up m d s n
