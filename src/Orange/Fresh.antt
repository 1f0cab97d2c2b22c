-- ===== src/Orange/Fresh.antt =====
-- A new inode of kernel/fs.c that is given back and found again.

use exp_memfs.Base.{
  ltb, ◌==◌, if◌then◌else◌, ltb→lt, ==_iff, Bool-cases, length, get_or, length-set, get_or-set_self,
  get_or-set_ne, add32, sub32, ◌>>=◌, ok, panic, ℕ, zero, suc, ◌≤◌, ◌<◌, ◌≡◌, refl, sym, ap, ◌∙◌,
  ◌≢◌, ◌⊎◌, inl, inr, true, false, ◌&&◌, some, List, [], ◌∷◌, arith,
}
use mathlib.Core.Bool.{true≢false}
use exp_memfs.Orange.{
  Inode, no_inode, OrangeFs, is_wanted, set_inode, inode_at, get_inode, put_inode, sync_inode,
  new_inode, fresh, fill_new,
}
use exp_memfs.Orange.Table.{Missing, Full, Unique, get_inode_lem, referred, read_in}
use exp_memfs.Orange.Inodes.{on_disk, sync_inode_lem}

set-at :
    (s : OrangeFs) (i : ℕ) (p : Inode) → i < length s.inode_table → inode_at (set_inode s i p) i ≡ p
set-at s i p l = get_or-set_self s.inode_table i p no_inode l

set-elsewhere :
    (s : OrangeFs) (i j : ℕ) (p : Inode) → i ≢ j → inode_at (set_inode s i p) j ≡ inode_at s j
set-elsewhere s i j p n = get_or-set_ne s.inode_table p no_inode n

-- No place but `i` holds the inode.
abbrev OnlyAt : OrangeFs → ℕ → ℕ → ℕ → Type 0
OnlyAt s dev num i = (j : ℕ) → i ≢ j → is_wanted dev num (inode_at s j) ≡ false

-- The state after the inode was filled in and written, and after it was given back.
abbrev written : OrangeFs → ℕ → ℕ → ℕ → ℕ → OrangeFs
written s i dev num start = sync_inode (set_inode s i (fresh dev num start)) i

abbrev given_back : OrangeFs → ℕ → ℕ → ℕ → ℕ → OrangeFs
given_back s i dev num start = put_inode (written s i dev num start) i

written-at :
    (s : OrangeFs) (i dev num start : ℕ)
    → i < length s.inode_table
    → inode_at (written s i dev num start) i ≡ fresh dev num start
unfolding sync_inode
written-at s i dev num start l = set-at s i (fresh dev num start) l

given_back-at :
    (s : OrangeFs) (i dev num start : ℕ)
    → i < length s.inode_table
    → inode_at (given_back s i dev num start) i ≡ record (fresh dev num start) { i_cnt = 0 }
unfolding sync_inode put_inode
given_back-at s i dev num start l =
    set-at (written s i dev num start) i
      (record (inode_at (written s i dev num start) i) {
        i_cnt = sub32 (inode_at (written s i dev num start) i).i_cnt 1;
      })
      (omega (arith, l, length-set s.inode_table i (fresh dev num start)))
    ∙ ap {A = Inode} (λ p. record p { i_cnt = sub32 p.i_cnt 1 }) (written-at s i dev num start l)

given_back-elsewhere :
    (s : OrangeFs) (i j dev num start : ℕ)
    → i ≢ j
    → inode_at (given_back s i dev num start) j ≡ inode_at s j
unfolding sync_inode put_inode
given_back-elsewhere s i j dev num start n =
    set-elsewhere (written s i dev num start) i j
      (record (inode_at (written s i dev num start) i) {
        i_cnt = sub32 (inode_at (written s i dev num start) i).i_cnt 1;
      })
      n
    ∙ set-elsewhere s i j (fresh dev num start) n

given_back-length :
    (s : OrangeFs) (i dev num start : ℕ)
    → length (given_back s i dev num start).inode_table ≡ length s.inode_table
unfolding sync_inode put_inode
given_back-length s i dev num start =
    length-set (written s i dev num start).inode_table i
      (record (inode_at (written s i dev num start) i) {
        i_cnt = sub32 (inode_at (written s i dev num start) i).i_cnt 1;
      })
    ∙ length-set s.inode_table i (fresh dev num start)

unused : (dev num : ℕ) (p : Inode) → p.i_cnt ≡ 0 → is_wanted dev num p ≡ false
unused dev num p e = ground (arith, e)

given_back-Missing :
    (s : OrangeFs) (i dev num start : ℕ)
    → i < length s.inode_table
    → OnlyAt s dev num i
    → Missing dev num (given_back s i dev num start).inode_table
given_back-Missing s i dev num start l o j = elim (Bool-cases (i == j)) [
  | inl e ↦ unused dev num (inode_at (given_back s i dev num start) j) (
      ap (λ k. (inode_at (given_back s i dev num start) k).i_cnt) (sym ((==_iff i j).0 e))
      ∙ ap (λ p. p.i_cnt) (given_back-at s i dev num start l))
  | inr e ↦
      ap (is_wanted dev num) (given_back-elsewhere s i j dev num start (ground (arith, e)))
      ∙ o j (ground (arith, e))
]

given_back-on_disk :
    (s : OrangeFs) (i dev num start : ℕ)
    → i < length s.inode_table
    → num ≢ 0
    → on_disk (given_back s i dev num start) dev num ≡ fresh dev num start
unfolding put_inode
given_back-on_disk s i dev num start l n =
    sync_inode_lem (set_inode s i (fresh dev num start)) i dev num
      (λ e. n (ap (λ p. p.i_num) (sym here) ∙ e)) n
    ∙ ap {A = Inode}
        (λ p.
          if dev == p.i_dev && num == p.i_num
          then record p { i_cnt = 1 }
          else on_disk (set_inode s i (fresh dev num start)) dev num)
        here
    ∙ self
  where
    here : inode_at (set_inode s i (fresh dev num start)) i ≡ fresh dev num start
    here = set-at s i (fresh dev num start) l

    itself : (k : ℕ) → (k == k) ≡ true
    itself k = ground arith

    self :
        (if dev == dev && num == num
          then fresh dev num start
          else on_disk (set_inode s i (fresh dev num start)) dev num)
        ≡ fresh dev num start
    self = rw (itself dev, itself num) refl

-- The inode is made, and found again behind a `put_inode`.
abbrev pub Made : OrangeFs → ℕ → ℕ → ℕ → Type 0
Made s dev num start =
    (i : ℕ) × (s1 : OrangeFs) × (k : ℕ) × (s2 : OrangeFs) × (new_inode s dev num start ≡ ok (i, s1))
    × (inode_at s1 i ≡ fresh dev num start)
    × (get_inode (put_inode s1 i) dev num ≡ ok (some k, s2))
    × (inode_at s2 k ≡ fresh dev num start)

new_inode-Made :
    (s s0 : OrangeFs) (i dev num start : ℕ)
    → get_inode s dev num ≡ ok (some i, s0)
    → i < length s0.inode_table
    → OnlyAt s0 dev num i
    → num ≢ 0
    → Made s dev num start
unfolding new_inode
new_inode-Made s s0 i dev num start g l o n =
    elim (get_inode_lem (given_back s0 i dev num start) dev num n) [
      | inl (k, w, e) ↦ absurd (true≢false (sym w ∙ given_back-Missing s0 i dev num start l o k))
      | inr (m, inr (f, e)) ↦ absurd (
          f i (omega (arith, l, given_back-length s0 i dev num start))
            (ap (λ p. p.i_cnt) (given_back-at s0 i dev num start l)))
      | inr (m, inl (k, lk, c, e)) ↦ (
        i,
        written s0 i dev num start,
        k,
        read_in (given_back s0 i dev num start) dev num k,
        ap (λ r. r >>= fill_new dev num start) g,
        written-at s0 i dev num start l,
        e,
        set-at (given_back s0 i dev num start) k (on_disk (given_back s0 i dev num start) dev num)
              lk
            ∙ given_back-on_disk s0 i dev num start l n,
      )
    ]

in_table :
    (s : OrangeFs) (i dev num : ℕ)
    → is_wanted dev num (inode_at s i) ≡ true
    → i < length s.inode_table
in_table s i dev num w = elim (Bool-cases (ltb i (length s.inode_table))) [
  | inl l ↦ ltb→lt i (length s.inode_table) l
  | inr l ↦
      absurd
        (true≢false (sym w ∙ ap (is_wanted dev num) (beyond s.inode_table i (ground (arith, l)))))
]
  where
    beyond : (ps : List Inode) (i : ℕ) → length ps ≤ i → get_or ps i no_inode ≡ no_inode
    beyond [] i h = refl
    beyond (p ∷ ps) zero h = absurd (omega (arith, h))
    beyond (p ∷ ps) (suc i) h = beyond ps i (omega (arith, h))

abbrev more : Inode → Inode
more p = record p { i_cnt = add32 p.i_cnt 1 }

length-referred : (s : OrangeFs) (i : ℕ) → length (referred s i).inode_table ≡ length s.inode_table
length-referred s i = length-set s.inode_table i (more (inode_at s i))

-- For an inode number other than 0 and a table that holds no inode twice: `new_inode` makes an inode
-- of the given start sector and size 0, and when it is given back by `put_inode`, `get_inode` finds
-- the same inode again, with the same members and one reference; or the table has no free place, does
-- not hold the inode, and `new_inode` is a panic.
pub new_inode-get_inode :
    (s : OrangeFs) (dev num start : ℕ)
    → num ≢ 0
    → Unique s
    → Made s dev num start
      ⊎ (Missing dev num s.inode_table × Full s.inode_table × (new_inode s dev num start ≡ panic))
unfolding new_inode
new_inode-get_inode s dev num start n u = elim (get_inode_lem s dev num n) [
  | inl (i, w, e) ↦ inl (
      new_inode-Made s (referred s i) i dev num start e
        (omega (arith, in_table s i dev num w, length-referred s i))
        (λ j d.
          ap (is_wanted dev num) (set-elsewhere s i j (more (inode_at s i)) d) ∙ others i j w d)
        n)
  | inr (m, inl (i, l, c, e)) ↦ inl (
      new_inode-Made s (read_in s dev num i) i dev num start e
        (omega (arith, l, length-set s.inode_table i (on_disk s dev num)))
        (λ j d. ap (is_wanted dev num) (set-elsewhere s i j (on_disk s dev num) d) ∙ m j) n)
  | inr (m, inr (f, e)) ↦ inr (m, f, ap (λ r. r >>= fill_new dev num start) e)
]
  where
    others :
        (i j : ℕ)
        → is_wanted dev num (inode_at s i) ≡ true
        → i ≢ j
        → is_wanted dev num (inode_at s j) ≡ false
    others i j w d = elim (Bool-cases (is_wanted dev num (inode_at s j))) [
      | inl v ↦ absurd (d (u dev num i j w v))
      | inr v ↦ v
    ]
