-- ===== src/Orange/Table.antt =====
-- The table of inodes of kernel/fs.c: what `get_inode` finds and puts there.
use exp_memfs.Base.{
  ◌==◌, Bool-cases, length, get_or, add32, Outcome, ok, panic, ℕ, zero, suc, ◌+◌, ◌<◌, ◌≡◌, refl,
  sym, ap, ◌∙◌, ◌≢◌, ◌⊎◌, inl, inr, true, false, Option, none, some, List, [], ◌∷◌, arith,
}
use mathlib.Core.Path.{subst⁻¹}
use mathlib.Core.Option.{some-ne-none, some-injective}
use exp_memfs.Orange.{
  Inode, no_inode, is_wanted, Slot, cached, vacant, search, get_inode, OrangeFs, load_into,
  set_inode, inode_at, load_inode, inode_words,
}

-- No inode of the list is the one that is wanted.
abbrev pub Missing : ℕ → ℕ → List Inode → Type 0
Missing dev num ps = (j : ℕ) → is_wanted dev num (get_or ps j no_inode) ≡ false

abbrev pub Full : List Inode → Type 0
Full ps = (j : ℕ) → j < length ps → (get_or ps j no_inode).i_cnt ≢ 0

-- Place `k` of the table that stands from place `i` on is free.
abbrev IsFree : ℕ → List Inode → ℕ → Type 0
IsFree i ps k = (j : ℕ) × (k ≡ i + j) × (j < length ps) × ((get_or ps j no_inode).i_cnt ≡ 0)

abbrev Result : ℕ → ℕ → ℕ → Option ℕ → List Inode → Slot → Type 0
Result dev num i q ps (cached k) =
    (j : ℕ) × (k ≡ i + j) × (is_wanted dev num (get_or ps j no_inode) ≡ true)
Result dev num i q ps (vacant none) = Missing dev num ps × (q ≡ none) × Full ps
Result dev num i q ps (vacant (some k)) = Missing dev num ps × ((q ≡ some k) ⊎ IsFree i ps k)

Missing-cons :
    (dev num : ℕ) (p : Inode) (ps : List Inode)
    → is_wanted dev num p ≡ false
    → Missing dev num ps
    → Missing dev num (p ∷ ps)
Missing-cons dev num p ps h m zero = h
Missing-cons dev num p ps h m (suc j) = m j

Full-cons : (p : Inode) (ps : List Inode) → p.i_cnt ≢ 0 → Full ps → Full (p ∷ ps)
Full-cons p ps h f zero l = h
Full-cons p ps h f (suc j) l = f j (omega arith)

IsFree-cons : (i k : ℕ) (p : Inode) (ps : List Inode) → IsFree (suc i) ps k → IsFree i (p ∷ ps) k
IsFree-cons i k p ps (j, e, l, c) = (suc j, omega (arith, e), omega (arith, l), c)

-- A used inode in front.
used-cons :
    (dev num i : ℕ) (q : Option ℕ) (p : Inode) (ps : List Inode) (r : Slot)
    → is_wanted dev num p ≡ false
    → (q ≡ none → p.i_cnt ≢ 0)
    → Result dev num (suc i) q ps r
    → Result dev num i q (p ∷ ps) r
used-cons dev num i q p ps (cached k) h c (j, e, w) = (suc j, omega (arith, e), w)
used-cons dev num i q p ps (vacant none) h c (m, e, f) =
    (Missing-cons dev num p ps h m, e, Full-cons p ps (c e) f)
used-cons dev num i q p ps (vacant (some k)) h c (m, inl e) = (Missing-cons dev num p ps h m, inl e)
used-cons dev num i q p ps (vacant (some k)) h c (m, inr f) =
    (Missing-cons dev num p ps h m, inr (IsFree-cons i k p ps f))

-- The first free place in front.
free-cons :
    (dev num i : ℕ) (p : Inode) (ps : List Inode) (r : Slot)
    → is_wanted dev num p ≡ false
    → p.i_cnt ≡ 0
    → Result dev num (suc i) (some i) ps r
    → Result dev num i none (p ∷ ps) r
free-cons dev num i p ps (cached k) h c (j, e, w) = (suc j, omega (arith, e), w)
free-cons dev num i p ps (vacant none) h c (m, e, f) = absurd (some-ne-none _ e)
free-cons dev num i p ps (vacant (some k)) h c (m, inl e) =
    (Missing-cons dev num p ps h m, inr (0, omega (arith, some-injective _ _ e), omega arith, c))
free-cons dev num i p ps (vacant (some k)) h c (m, inr f) =
    (Missing-cons dev num p ps h m, inr (IsFree-cons i k p ps f))

search-used :
    (dev num i : ℕ) (q : Option ℕ) (p : Inode) (ps : List Inode)
    → is_wanted dev num p ≡ false
    → (p.i_cnt == 0) ≡ false
    → search dev num i q (p ∷ ps) ≡ search dev num (suc i) q ps
unfolding search
search-used dev num i q p ps w z = rw (search, w, z) refl

search-taken :
    (dev num i j : ℕ) (p : Inode) (ps : List Inode)
    → is_wanted dev num p ≡ false
    → search dev num i (some j) (p ∷ ps) ≡ search dev num (suc i) (some j) ps
unfolding search
search-taken dev num i j p ps w = ground (arith, w)

search-free :
    (dev num i : ℕ) (p : Inode) (ps : List Inode)
    → is_wanted dev num p ≡ false
    → (p.i_cnt == 0) ≡ true
    → search dev num i none (p ∷ ps) ≡ search dev num (suc i) (some i) ps
unfolding search
search-free dev num i p ps w z = rw (search, w, z) refl

search-found :
    (dev num i : ℕ) (q : Option ℕ) (p : Inode) (ps : List Inode)
    → is_wanted dev num p ≡ true
    → search dev num i q (p ∷ ps) ≡ cached i
unfolding search
search-found dev num i q p ps w = rw (search, w) refl

search-Result :
    (dev num i : ℕ) (q : Option ℕ) (ps : List Inode) → Result dev num i q ps (search dev num i q ps)
unfolding search
search-Result dev num i none [] = ((λ j. refl), refl, λ j l. absurd (omega arith))
search-Result dev num i (some k) [] = ((λ j. refl), inl refl)
search-Result dev num i q (p ∷ ps) = elim (Bool-cases (is_wanted dev num p)) [
  | inl w ↦
      subst⁻¹ (Result dev num i q (p ∷ ps)) (search-found dev num i q p ps w) (0, omega arith, w)
  | inr w ↦ missed q w (λ k. search-Result dev num (suc i) k ps)
]
  where
    missed :
        (q : Option ℕ)
        → is_wanted dev num p ≡ false
        → ((k : Option ℕ) → Result dev num (suc i) k ps (search dev num (suc i) k ps))
        → Result dev num i q (p ∷ ps) (search dev num i q (p ∷ ps))
    missed (some j) w f =
        subst⁻¹ (Result dev num i (some j) (p ∷ ps)) (search-taken dev num i j p ps w) (
          used-cons dev num i (some j) p ps (search dev num (suc i) (some j) ps) w
            (λ e. absurd (some-ne-none _ e)) (f (some j)))
    missed none w f = elim (Bool-cases (p.i_cnt == 0)) [
      | inl z ↦ subst⁻¹ (Result dev num i none (p ∷ ps)) (search-free dev num i p ps w z) (
          free-cons dev num i p ps (search dev num (suc i) (some i) ps) w (ground (arith, z))
            (f (some i)))
      | inr z ↦ subst⁻¹ (Result dev num i none (p ∷ ps)) (search-used dev num i none p ps w z) (
          used-cons dev num i none p ps (search dev num (suc i) none ps) w (λ _. ground (arith, z))
            (f none))
    ]

-- The table after inode `i` got one reference more, and after inode `num` of `dev` was read into place
-- `i`.
abbrev pub referred : OrangeFs → ℕ → OrangeFs
referred s i = set_inode s i (record (inode_at s i) { i_cnt = add32 (inode_at s i).i_cnt 1 })

abbrev pub read_in : OrangeFs → ℕ → ℕ → ℕ → OrangeFs
read_in s dev num i = set_inode s i (load_inode (inode_words s dev num) dev num)

abbrev pub Got : OrangeFs → ℕ → ℕ → Outcome (Option ℕ × OrangeFs) → Type 0
Got s dev num r =
    ((i : ℕ) × (is_wanted dev num (inode_at s i) ≡ true) × (r ≡ ok (some i, referred s i)))
    ⊎ (Missing dev num s.inode_table
        × (((i : ℕ) × (i < length s.inode_table)
              × ((inode_at s i).i_cnt ≡ 0)
              × (r ≡ ok (some i, read_in s dev num i)))
            ⊎ (Full s.inode_table × (r ≡ panic))))

load_into-Got :
    (s : OrangeFs) (dev num : ℕ) (k : Slot)
    → Result dev num 0 none s.inode_table k
    → Got s dev num (load_into s dev num k)
load_into-Got s dev num (cached k) (j, e, w) =
    inl (k, subst⁻¹ (λ i. is_wanted dev num (inode_at s i) ≡ true) (omega (arith, e)) w, refl)
load_into-Got s dev num (vacant none) (m, e, f) = inr (m, inr (f, refl))
load_into-Got s dev num (vacant (some k)) (m, inl e) = absurd (some-ne-none _ (sym e))
load_into-Got s dev num (vacant (some k)) (m, inr (j, e, l, c)) =
    inr (m, inl (k, omega (arith, e, l), ap (λ i. (inode_at s i).i_cnt) here ∙ c, refl))
  where
    here : k ≡ j
    here = omega (arith, e)

-- For an inode number other than 0, `get_inode` gives one of three: the place of the inode in the
-- table, with one reference more in 32 bits, if it is there; else a place that was free, into which the
-- inode is read from the disk with one reference; and a panic if the table does not have it and has no
-- free place.
pub get_inode_lem : (s : OrangeFs) (dev num : ℕ) → num ≢ 0 → Got s dev num (get_inode s dev num)
unfolding get_inode
get_inode_lem s dev num n =
    rw (get_inode, ne)
      (load_into-Got s dev num (search dev num 0 none s.inode_table)
        (search-Result dev num 0 none s.inode_table))
  where
    ne : (num == 0) ≡ false
    ne = ground (arith, n)

-- Two places of the table in use do not hold the same inode.
abbrev pub Unique : OrangeFs → Type 0
Unique s =
    (dev num i j : ℕ)
    → is_wanted dev num (inode_at s i) ≡ true
    → is_wanted dev num (inode_at s j) ≡ true
    → i ≡ j
