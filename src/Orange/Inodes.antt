-- ===== src/Orange/Inodes.antt =====
-- Inodes on the disk, kernel/fs.c: `sync_inode`, and a new inode that is found again.
use exp_memfs.Base.{
  ◌==◌, if◌then◌else◌, ==_iff, Bool-cases, ℕ, ◌+◌, ◌-◌, ◌%◌, ◌<◌, ◌≡◌, refl, sym, ap, ◌∙◌, ◌≢◌, inl,
  inr, Bool, true, false, ◌&&◌, arith,
}
use mathlib.Core.Path.{ap₂}
use exp_memfs.Orange.{
  SuperBlock, Inode, OrangeFs, inode_at, sync_inode, load_inode, store_inode, inode_words, word_of,
  blk_nr,
}

-- The members of an inode that stand on the disk.
abbrev pub on_disk : OrangeFs → ℕ → ℕ → Inode
on_disk s dev num = load_inode (inode_words s dev num) dev num

-- The four words of an inode in a sector.
store-at :
    (w : ℕ → ℕ) (p : Inode)
    → (store_inode w p (word_of p.i_num) ≡ p.i_mode)
      × (store_inode w p (word_of p.i_num + 1) ≡ p.i_size)
      × (store_inode w p (word_of p.i_num + 2) ≡ p.i_start_sect)
      × (store_inode w p (word_of p.i_num + 3) ≡ p.i_nr_sects)
store-at w p = (ground arith, ground arith, ground arith, ground arith)

store-off :
    (w : ℕ → ℕ) (p : Inode) (num k : ℕ)
    → (num - 1) % 16 ≢ (p.i_num - 1) % 16
    → k < 4
    → store_inode w p (word_of num + k) ≡ w (word_of num + k)
store-off w p num k n h = ground arith

with_words : ℕ → ℕ → ℕ → ℕ → ℕ → ℕ → Inode
with_words dev num a b c d = record {
  i_mode = a;
  i_size = b;
  i_start_sect = c;
  i_nr_sects = d;
  i_dev = dev;
  i_cnt = 1;
  i_num = num;
}

load-cong :
    (w : ℕ → ℕ) (dev num a b c d : ℕ)
    → w (word_of num) ≡ a
    → w (word_of num + 1) ≡ b
    → w (word_of num + 2) ≡ c
    → w (word_of num + 3) ≡ d
    → load_inode w dev num ≡ with_words dev num a b c d
unfolding with_words
load-cong w dev num a b c d ea eb ec ed = rw (ea, eb, ec, ed) refl

load-store_same :
    (w : ℕ → ℕ) (p : Inode) → load_inode (store_inode w p) p.i_dev p.i_num ≡ record p { i_cnt = 1 }
unfolding with_words
load-store_same w p =
    let (a, b, c, d) = store-at w p in
    load-cong (store_inode w p) p.i_dev p.i_num p.i_mode p.i_size p.i_start_sect p.i_nr_sects a b c
      d

load-store_other :
    (w : ℕ → ℕ) (p : Inode) (dev num : ℕ)
    → (num - 1) % 16 ≢ (p.i_num - 1) % 16
    → load_inode (store_inode w p) dev num ≡ load_inode w dev num
unfolding with_words
load-store_other w p dev num n =
    load-cong (store_inode w p) dev num (w (word_of num)) (w (word_of num + 1))
      (w (word_of num + 2)) (w (word_of num + 3)) first (store-off w p num 1 n (omega arith))
      (store-off w p num 2 n (omega arith)) (store-off w p num 3 n (omega arith))
  where
    first : store_inode w p (word_of num) ≡ w (word_of num)
    first = ground (arith, n)

-- The sector of inode `num` of `dev` is the one that is written.
abbrev same_sector : OrangeFs → ℕ → ℕ → ℕ → Bool
same_sector s i dev num =
    dev == (inode_at s i).i_dev
    && blk_nr (s.super_block dev) num
      == blk_nr (s.super_block (inode_at s i).i_dev) (inode_at s i).i_num

on_disk-same :
    (s : OrangeFs) (i dev num : ℕ)
    → same_sector s i dev num ≡ true
    → on_disk (sync_inode s i) dev num
      ≡ load_inode
          (store_inode (inode_words s (inode_at s i).i_dev (inode_at s i).i_num) (inode_at s i))
          dev
          num
unfolding sync_inode
on_disk-same s i dev num e =
    ap
      (λ b.
        load_inode
          (if b
            then store_inode (inode_words s (inode_at s i).i_dev (inode_at s i).i_num)
                (inode_at s i)
            else inode_words s dev num)
          dev num)
      e

on_disk-other :
    (s : OrangeFs) (i dev num : ℕ)
    → same_sector s i dev num ≡ false
    → on_disk (sync_inode s i) dev num ≡ on_disk s dev num
unfolding sync_inode
on_disk-other s i dev num e =
    ap
      (λ b.
        load_inode
          (if b
            then store_inode (inode_words s (inode_at s i).i_dev (inode_at s i).i_num)
                (inode_at s i)
            else inode_words s dev num)
          dev num)
      e

-- Two inodes in one sector have different places there.
blk_nr-apart :
    (sb : SuperBlock) (a b : ℕ)
    → a ≢ 0
    → b ≢ 0
    → blk_nr sb a ≡ blk_nr sb b
    → a ≢ b
    → (a - 1) % 16 ≢ (b - 1) % 16
blk_nr-apart sb a b na nb e m r = m (omega (arith, na, nb, e, r))

-- `sync_inode` of the inode in place `i` writes its members where `get_inode` reads inode `i_num` of
-- its device, and no other inode of any device reads anything else from the disk than before.
pub sync_inode_lem :
    (s : OrangeFs) (i dev num : ℕ)
    → (inode_at s i).i_num ≢ 0
    → num ≢ 0
    → on_disk (sync_inode s i) dev num ≡ (
        if dev == (inode_at s i).i_dev && num == (inode_at s i).i_num
        then record (inode_at s i) { i_cnt = 1 }
        else on_disk s dev num)
sync_inode_lem s i dev num n0 n = elim (Bool-cases (dev == (inode_at s i).i_dev)) [
  | inr f ↦ rw f (on_disk-other s i dev num (rw f refl))
  | inl d ↦ elim (Bool-cases (num == (inode_at s i).i_num)) [
    | inl m ↦
        rw (d, m)
          (on_self ((==_iff dev (inode_at s i).i_dev).0 d) ((==_iff num (inode_at s i).i_num).0 m))
    | inr m ↦ rw (d, m) (on_neighbour ((==_iff dev (inode_at s i).i_dev).0 d) (ground (arith, m)))
  ]
]
  where
    on_self :
        dev ≡ (inode_at s i).i_dev
        → num ≡ (inode_at s i).i_num
        → on_disk (sync_inode s i) dev num ≡ record (inode_at s i) { i_cnt = 1 }
    on_self d m =
        ap₂ (on_disk (sync_inode s i)) d m
        ∙ on_disk-same s i (inode_at s i).i_dev (inode_at s i).i_num (ground arith)
        ∙ load-store_same (inode_words s (inode_at s i).i_dev (inode_at s i).i_num) (inode_at s i)

    block :
        same_sector s i dev num ≡ true
        → blk_nr (s.super_block dev) num
          ≡ blk_nr (s.super_block (inode_at s i).i_dev) (inode_at s i).i_num
    block e = ground (arith, e)

    places :
        dev ≡ (inode_at s i).i_dev
        → num ≢ (inode_at s i).i_num
        → blk_nr (s.super_block dev) num
          ≡ blk_nr (s.super_block (inode_at s i).i_dev) (inode_at s i).i_num
        → (num - 1) % 16 ≢ ((inode_at s i).i_num - 1) % 16
    places d m b =
        blk_nr-apart (s.super_block dev) num (inode_at s i).i_num n n0
          (b ∙ ap (λ x. blk_nr (s.super_block x) (inode_at s i).i_num) (sym d)) m

    on_neighbour :
        dev ≡ (inode_at s i).i_dev
        → num ≢ (inode_at s i).i_num
        → on_disk (sync_inode s i) dev num ≡ on_disk s dev num
    on_neighbour d m = elim (Bool-cases (same_sector s i dev num)) [
      | inr e ↦ on_disk-other s i dev num e
      | inl e ↦
          on_disk-same s i dev num e
          ∙ load-store_other (inode_words s (inode_at s i).i_dev (inode_at s i).i_num)
              (inode_at s i) dev num (places d m (block e))
          ∙ ap (λ w. load_inode w dev num) (ap₂ s.sect (sym d) (sym (block e)))
    ]
