-- ===== src/Str/Copy.antt =====
-- `strcpy`, `strcat` and `strncpy` of lib/string.c: the text that they leave in the buffer.
use exp_memfs.Base.{
  ◌==◌, if◌then◌else◌, ==_iff, Bool-cases, length, take, drop, ℕ, zero, suc, ◌+◌, ◌≤◌, ◌<◌, ◌≡◌,
  refl, ap, inl, inr, true, List, [], ◌∷◌, ◌++◌, arith,
}
use exp_memfs.Str.{strcpy, strncpy, strcat}
use exp_memfs.Str.Compare.{text, strlen-eq-length}

strcpy_lem :
    (dst src : List ℕ)
    → length (text src) < length dst
    → (text (strcpy dst src) ≡ text src) × (length (strcpy dst src) ≡ length dst)
unfolding strcpy
strcpy_lem [] src h = absurd (omega arith)
strcpy_lem (d ∷ dst) [] h = ground arith
strcpy_lem (d ∷ dst) (c ∷ src) h = ground (arith, strcpy_lem dst src)

text_join :
    (dst src : List ℕ)
    → length (text dst) + length (text src) < length dst
    → text (take (length (text dst)) dst ++ strcpy (drop (length (text dst)) dst) src)
      ≡ text dst ++ text src
text_join [] src h = absurd (omega arith)
text_join (c ∷ dst) src h = elim (Bool-cases (c == 0)) [
  | inl z ↦ rw z (strcpy_lem (c ∷ dst) src (ground arith)).0
  | inr nz ↦ rw (nz, nz) (ap (λ r. c ∷ r) (text_join dst src (ground arith)))
]

strcat_lem :
    (dst src : List ℕ)
    → length (text dst) + length (text src) < length dst
    → text (strcat dst src) ≡ text dst ++ text src
unfolding strcat
strcat_lem dst src h = rw (strlen-eq-length dst) (text_join dst src h)

-- What `strncpy` writes: the text cut to `n` bytes, and NUL bytes up to `n`.
abbrev pub padded : ℕ → List ℕ → List ℕ
padded zero s = []
padded (suc n) [] = 0 ∷ padded n []
padded (suc n) (c ∷ s) = if c == 0 then 0 ∷ padded n [] else c ∷ padded n s

padded_nul : (n c : ℕ) (s : List ℕ) → (c == 0) ≡ true → padded n (c ∷ s) ≡ padded n []
padded_nul zero c s h = refl
padded_nul (suc n) c s h = rw h

strncpy_lem :
    (dst src : List ℕ) (n : ℕ) → n ≤ length dst → strncpy dst src n ≡ padded n src ++ drop n dst
unfolding strncpy
strncpy_lem dst src zero h = refl
strncpy_lem [] src (suc n) h = absurd (omega arith)
strncpy_lem (d ∷ dst) [] (suc n) h = ap (λ r. 0 ∷ r) (strncpy_lem dst [] n (omega arith))
strncpy_lem (d ∷ dst) (c ∷ src) (suc n) h = elim (Bool-cases (c == 0)) [
  | inl z ↦
      rw (z, strncpy_lem dst (c ∷ src) n (omega arith), padded_nul n c src z)
        (ap (λ k. k ∷ (padded n [] ++ drop n dst)) ((==_iff c 0).0 z))
  | inr nz ↦ rw nz (ap (λ r. c ∷ r) (strncpy_lem dst src n (omega arith)))
]

-- `strcpy` into a buffer that has room for the text and its NUL leaves the source's text there, and the
-- buffer keeps its size; `strcat` into one with room for both texts and a NUL leaves the two texts
-- joined; `strncpy` of `n` bytes into one that holds as many overwrites exactly its first `n` bytes,
-- with the text cut to `n` bytes and filled up with NUL bytes.
pub strcpy-strcat-strncpy :
    (a b c src : List ℕ) (n : ℕ)
    → length (text src) < length a
    → length (text b) + length (text src) < length b
    → n ≤ length c
    → (text (strcpy a src) ≡ text src)
      × (length (strcpy a src) ≡ length a)
      × (text (strcat b src) ≡ text b ++ text src)
      × (strncpy c src n ≡ padded n src ++ drop n c)
strcpy-strcat-strncpy a b c src n ha hb hc =
    let (t, l) = strcpy_lem a src ha in (t, l, strcat_lem b src hb, strncpy_lem c src n hc)
