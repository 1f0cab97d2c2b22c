-- ===== src/Str/Compare.antt =====
-- `strlen`, `strnlen`, `strcmp` and `strncmp` of lib/string.c against the text that a buffer holds.
use exp_memfs.Base.{
  ◌==◌, if◌then◌else◌, length, take, sub_ℕ, pos, ℕ, zero, suc, ◌+◌, ◌≡◌, refl, ◌↔◌, List, [], ◌∷◌,
  arith,
}
use exp_memfs.Str.{strlen_from, strlen, strnlen_from, strnlen, strcmp, strncmp}

-- The text of a buffer: its bytes in front of the first NUL.
abbrev pub text : List ℕ → List ℕ
text [] = []
text (c ∷ s) = if c == 0 then [] else c ∷ text s

pub strlen_from-eq : (n : ℕ) (s : List ℕ) → strlen_from n s ≡ n + length (text s)
unfolding strlen_from
strlen_from-eq n [] = omega arith
strlen_from-eq n (c ∷ s) = ground (arith, strlen_from-eq (n + 1) s)

pub strlen-eq-length : (s : List ℕ) → strlen s ≡ length (text s)
unfolding strlen
strlen-eq-length s = omega (arith, strlen_from-eq 0 s)

strnlen_from-eq : (n : ℕ) (s : List ℕ) (k : ℕ) → strnlen_from n s k ≡ n + length (take k (text s))
unfolding strnlen_from
strnlen_from-eq n s zero = omega arith
strnlen_from-eq n [] (suc k) = omega arith
strnlen_from-eq n (c ∷ s) (suc k) = ground (arith, strnlen_from-eq (n + 1) s k)

strnlen-eq-length : (s : List ℕ) (k : ℕ) → strnlen s k ≡ length (take k (text s))
unfolding strnlen
strnlen-eq-length s k = omega (arith, strnlen_from-eq 0 s k)

sub_ℕ-zero : (a b : ℕ) → sub_ℕ a b ≡ pos 0 → a ≡ b
sub_ℕ-zero a b h = ground arith

sub_ℕ-self : (a : ℕ) → sub_ℕ a a ≡ pos 0
sub_ℕ-self a = ground arith

pub strcmp-zero : (p q : List ℕ) → strcmp p q ≡ pos 0 → text p ≡ text q
unfolding strcmp
strcmp-zero [] [] h = refl
strcmp-zero [] (d ∷ q) h = ground arith
strcmp-zero (c ∷ p) [] h = ground arith
strcmp-zero (c ∷ p) (d ∷ q) h = ground (arith, strcmp-zero p q, sub_ℕ-zero c d)

pub strcmp-eq : (p q : List ℕ) → text p ≡ text q → strcmp p q ≡ pos 0
unfolding strcmp
strcmp-eq [] [] h = refl
strcmp-eq [] (d ∷ q) h = ground arith
strcmp-eq (c ∷ p) [] h = ground arith
strcmp-eq (c ∷ p) (d ∷ q) h = ground (arith, strcmp-eq p q)

strncmp-zero : (p q : List ℕ) (n : ℕ) → strncmp p q n ≡ pos 0 → take n (text p) ≡ take n (text q)
unfolding strncmp
strncmp-zero p q zero h = refl
strncmp-zero [] [] (suc n) h = refl
strncmp-zero [] (d ∷ q) (suc n) h = ground arith
strncmp-zero (c ∷ p) [] (suc n) h = ground arith
strncmp-zero (c ∷ p) (d ∷ q) (suc n) h = ground (arith, strncmp-zero p q n, sub_ℕ-zero c d)

strncmp-eq : (p q : List ℕ) (n : ℕ) → take n (text p) ≡ take n (text q) → strncmp p q n ≡ pos 0
unfolding strncmp
strncmp-eq p q zero h = refl
strncmp-eq [] [] (suc n) h = refl
strncmp-eq [] (d ∷ q) (suc n) h = ground arith
strncmp-eq (c ∷ p) [] (suc n) h = ground arith
strncmp-eq (c ∷ p) (d ∷ q) (suc n) h = ground (arith, strncmp-eq p q n)

-- `strlen` is the length of the text in the buffer, and `strnlen` that of the text cut to the limit;
-- `strcmp` returns 0 exactly for buffers that hold the same text, and `strncmp` exactly for buffers
-- whose texts agree once both are cut to the limit.
pub strlen-strnlen-strcmp-strncmp :
    (p q : List ℕ) (n : ℕ)
    → (strlen p ≡ length (text p))
      × (strnlen p n ≡ length (take n (text p)))
      × ((strcmp p q ≡ pos 0) ↔ (text p ≡ text q))
      × ((strncmp p q n ≡ pos 0) ↔ (take n (text p) ≡ take n (text q)))
strlen-strnlen-strcmp-strncmp p q n = (
  strlen-eq-length p,
  strnlen-eq-length p n,
  (strcmp-zero p q, strcmp-eq p q),
  (strncmp-zero p q n, strncmp-eq p q n),
)
