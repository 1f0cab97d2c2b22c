-- ===== src/Orange.antt =====
-- The orange file system, kernel/fs.c: the table of inodes and their place on the disk. The sectors of
-- the disk are read and written by `rw_sector` as arrays of words; pointers into `inode_table` are
-- indices. Sector numbers are `u32`s that stay in their range, and every device has its super block in
-- the table that `get_super_block` searches.
pub mod Table
pub mod Inodes
pub mod Fresh
pub mod Imap
pub mod ImapBits
pub mod ImapAlloc
pub mod Smap
mod Tests
use exp_memfs.Base.{
  ltb, leb, ◌==◌, if◌then◌else◌, ltb→lt, lt→ltb, leb→le, ==_iff, Bool-cases, Option-cases, length,
  get_or, set, take, drop, replicate, erase_at, insert_at, length-append, length-set,
  get_or-set_self, get_or-set_ne, length-insert_at, take-append-drop, length-take, length-drop, mem,
  Distinct, u32_mod, add32, sub32, minus_one, sub_ℕ, ◌>>=◌, ◌>>◌, assert, Outcome, ok, panic, fault,
  no_fuel, ℤ, pos, negsuc, ℕ, zero, suc, ◌+◌, ◌-◌, ◌*◌, ◌/◌, ◌%◌, ◌^◌, ◌≤◌, ◌<◌, ◌≡◌, refl, sym, ap,
  ◌∙◌, ◌≢◌, ◌↔◌, ◌⊎◌, inl, inr, Bool, true, false, not, ◌&&◌, ◌||◌, Option, none, some, List, [],
  ◌∷◌, ◌++◌, map, arith,
}

-- The members of `struct super_block` that place the inodes.
pub record SuperBlock : Type 0 where
  pub nr_imap_sects : ℕ
  pub nr_smap_sects : ℕ
  pub n_1st_sect : ℕ

pub record Inode : Type 0 where
  pub i_mode : ℕ
  pub i_size : ℕ
  pub i_start_sect : ℕ
  pub i_nr_sects : ℕ
  pub i_dev : ℕ
  pub i_cnt : ℕ
  pub i_num : ℕ

abbrev pub no_inode : Inode
no_inode = record {
  i_mode = 0;
  i_size = 0;
  i_start_sect = 0;
  i_nr_sects = 0;
  i_dev = 0;
  i_cnt = 0;
  i_num = 0;
}

-- `inode_table`, the super block of each device, and the words of each sector of each device.
pub record OrangeFs : Type 0 where
  pub inode_table : List Inode
  pub super_block : ℕ → SuperBlock
  pub sect : ℕ → ℕ → ℕ → ℕ

-- The sector of inode `num`, where a sector holds 16.
abbrev pub blk_nr : SuperBlock → ℕ → ℕ
blk_nr sb num = 1 + 1 + sb.nr_imap_sects + sb.nr_smap_sects + (num - 1) / 16

-- The first word of inode `num` in its sector, where an inode has 8.
abbrev pub word_of : ℕ → ℕ
word_of num = (num - 1) % 16 * 8

-- The members of inode `num` as they stand in the words of its sector.
abbrev pub load_inode : (ℕ → ℕ) → ℕ → ℕ → Inode
load_inode w dev num = record {
  i_mode = w (word_of num);
  i_size = w (word_of num + 1);
  i_start_sect = w (word_of num + 2);
  i_nr_sects = w (word_of num + 3);
  i_dev = dev;
  i_cnt = 1;
  i_num = num;
}

-- The members of an inode in its place in the words of its sector.
abbrev pub store_inode : (ℕ → ℕ) → Inode → ℕ → ℕ
store_inode w p x =
    if x == word_of p.i_num
    then p.i_mode
    else if x == word_of p.i_num + 1
    then p.i_size
    else if x == word_of p.i_num + 2
    then p.i_start_sect
    else if x == word_of p.i_num + 3
    then p.i_nr_sects
    else w x

-- The inode of device `dev` and number `num`, in use.
abbrev pub is_wanted : ℕ → ℕ → Inode → Bool
is_wanted dev num p = not (p.i_cnt == 0) && (p.i_dev == dev && p.i_num == num)

-- What the loop of `get_inode` comes to: the inode, or the first free place.
pub data Slot : Type 0 where
  cached : ℕ → Slot
  vacant : Option ℕ → Slot

-- The loop of `get_inode`, from place `i` on; `q` is the first free place before it.
unfoldable pub search : ℕ → ℕ → ℕ → Option ℕ → List Inode → Slot
search dev num i q [] = vacant q
search dev num i q (p ∷ ps) =
    let keep = search dev num (suc i) q ps in
    let take_it = search dev num (suc i) (some i) ps in
    if is_wanted dev num p
    then cached i
    else if p.i_cnt == 0
    then elim q [ none ↦ take_it | some j ↦ keep ]
    else keep

abbrev pub set_inode : OrangeFs → ℕ → Inode → OrangeFs
set_inode s i p = record s { inode_table = set s.inode_table i p }

abbrev pub inode_at : OrangeFs → ℕ → Inode
inode_at s i = get_or s.inode_table i no_inode

-- The words of the sector of inode `num` of `dev`.
abbrev pub inode_words : OrangeFs → ℕ → ℕ → ℕ → ℕ
inode_words s dev num = s.sect dev (blk_nr (s.super_block dev) num)

abbrev pub load_into : OrangeFs → ℕ → ℕ → Slot → Outcome (Option ℕ × OrangeFs)
load_into s dev num (cached i) =
    ok (some i, set_inode s i (record (inode_at s i) { i_cnt = add32 (inode_at s i).i_cnt 1 }))
load_into s dev num (vacant none) = panic
load_into s dev num (vacant (some q)) =
    ok (some q, set_inode s q (load_inode (inode_words s dev num) dev num))

-- `get_inode`, and `get_inode_sched`, which is the same but for the queue of the disk.
unfoldable pub get_inode : OrangeFs → ℕ → ℕ → Outcome (Option ℕ × OrangeFs)
unfolding search
get_inode s dev num = elim (num == 0) [
  | true ↦ ok (none, s)
  | false ↦ load_into s dev num (search dev num 0 none s.inode_table)
]

unfoldable pub put_inode : OrangeFs → ℕ → OrangeFs
put_inode s i = set_inode s i (record (inode_at s i) { i_cnt = sub32 (inode_at s i).i_cnt 1 })

abbrev pub write_sect : OrangeFs → ℕ → ℕ → (ℕ → ℕ) → OrangeFs
write_sect s dev nr w = record s { sect = λ d n. if d == dev && n == nr then w else s.sect d n }

unfoldable pub sync_inode : OrangeFs → ℕ → OrangeFs
sync_inode s i =
    let p = inode_at s i in
    write_sect s p.i_dev (blk_nr (s.super_block p.i_dev) p.i_num)
      (store_inode (inode_words s p.i_dev p.i_num) p)

-- The inode that `new_inode` fills in.
abbrev pub fresh : ℕ → ℕ → ℕ → Inode
fresh dev inode_nr start_sect = record {
  i_mode = 0x8000;
  i_size = 0;
  i_start_sect = start_sect;
  i_nr_sects = 2048;
  i_dev = dev;
  i_cnt = 1;
  i_num = inode_nr;
}

abbrev pub fill_new : ℕ → ℕ → ℕ → Option ℕ × OrangeFs → Outcome (ℕ × OrangeFs)
fill_new dev inode_nr start_sect (none, s) = fault
fill_new dev inode_nr start_sect (some i, s) =
    ok (i, sync_inode (set_inode s i (fresh dev inode_nr start_sect)) i)

unfoldable pub new_inode : OrangeFs → ℕ → ℕ → ℕ → Outcome (ℕ × OrangeFs)
unfolding get_inode sync_inode
new_inode s dev inode_nr start_sect = get_inode s dev inode_nr >>= fill_new dev inode_nr start_sect
