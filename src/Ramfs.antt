-- ===== src/Ramfs.antt =====
-- The RAM file system, kernel/ramfs.c with include/ramfs.h: its state, and the clusters.
-- `RF_FAT_ROOT` is a list of RAM_FS_NR_CLU entries. A cluster is a page, known by its address; the
-- two members of `rf_clu` are two views of it, kept apart: `mem` for `data`, `recs` for `entry`.
-- A `p_rf_inode` is the address of a page and an index into its records. The words behind `p_size`
-- and `p_link_cnt` are `cell`.
pub mod Clusters
pub mod Dir
pub mod Path
pub mod File
pub mod Ops
pub mod Tests
use exp_memfs.Base.{
  ltb, leb, ◌==◌, if◌then◌else◌, ltb→lt, lt→ltb, leb→le, ==_iff, Bool-cases, Option-cases, length,
  get_or, set, take, drop, replicate, erase_at, insert_at, length-append, length-set,
  get_or-set_self, get_or-set_ne, length-insert_at, u32_mod, add32, sub32, minus_one, sub_ℕ, ◌>>=◌,
  ◌>>◌, assert, Outcome, ok, panic, fault, no_fuel, ℤ, pos, negsuc, ℕ, zero, suc, ◌+◌, ◌-◌, ◌*◌,
  ◌/◌, ◌%◌, ◌^◌, ◌≤◌, ◌<◌, ◌≡◌, refl, sym, ap, ◌∙◌, ◌≢◌, ◌↔◌, ◌⊎◌, inl, inr, Bool, true, false, not,
  ◌&&◌, ◌||◌, Option, none, some, List, [], ◌∷◌, ◌++◌, map, arith,
}
use exp_memfs.Str.{Mem, memset}
use exp_memfs.Memman.{Memman, memman_alloc_4k, memman_free_4k, memman_kalloc, memman_free}

-- `rf_fat`
pub record Fat : Type 0 where
  pub next_cluster : ℕ
  pub addr : ℕ

-- `rf_inode`. `name` is the text that the array holds.
pub record Inode : Type 0 where
  pub name : List ℕ
  pub record_type : ℕ
  pub p_size : ℕ
  pub p_link_cnt : ℕ
  pub open_cnt : ℕ
  pub start_cluster : ℕ

-- RF_NONE, RF_F, RF_D
abbrev pub rf_none : ℕ
rf_none = 0

abbrev pub rf_f : ℕ
rf_f = 1

abbrev pub rf_d : ℕ
rf_d = 2

-- RAM_FS_CLUSTER_SIZE, sizeof(rf_inode) and RF_NR_REC
abbrev pub cluster_size : ℕ
cluster_size = 0x1000

abbrev pub inode_size : ℕ
inode_size = 148

abbrev pub rf_nr_rec : ℕ
rf_nr_rec = 27

-- MAX_UNSIGNED_INT marks the last cluster of a chain.
abbrev pub last : ℕ
last = minus_one

abbrev pub Recs : Type 0
Recs = ℕ → ℕ → Inode

pub record Ram : Type 0 where
  pub man : Memman
  pub fat : List Fat
  pub mem : Mem
  pub recs : Recs
  pub cell : ℕ → ℕ

abbrev pub Ref : Type 0
Ref = ℕ × ℕ

-- K_PHY2LIN and K_LIN2PHY
abbrev pub k_phy2lin : ℕ → ℕ
k_phy2lin a = add32 a 0xC0000000

abbrev pub k_lin2phy : ℕ → ℕ
k_lin2phy a = sub32 a 0xC0000000

abbrev pub no_fat : Fat
no_fat = record { next_cluster = 0; addr = 0 }

-- A record of zero bytes.
abbrev pub no_inode : Inode
no_inode = record {
  name = [];
  record_type = rf_none;
  p_size = 0;
  p_link_cnt = 0;
  open_cnt = 0;
  start_cluster = 0;
}

-- `RF_FAT_ROOT[c].next_cluster` and `RF_FAT_ROOT[c].addr`
abbrev pub next : List Fat → ℕ → ℕ
next fat c = (get_or fat c no_fat).next_cluster

abbrev pub page : List Fat → ℕ → ℕ
page fat c = (get_or fat c no_fat).addr

-- `RF_FAT_ROOT[c].next_cluster = v` and `RF_FAT_ROOT[c].addr = v`
abbrev pub set_next : List Fat → ℕ → ℕ → List Fat
set_next fat c v = set fat c (record { next_cluster = v; addr = page fat c })

abbrev pub set_page : List Fat → ℕ → ℕ → List Fat
set_page fat c v = set fat c (record { next_cluster = next fat c; addr = v })

abbrev pub clear_recs : Recs → ℕ → Recs
clear_recs r a b i = if b == a then no_inode else r b i

-- The page `phy` becomes the cluster `clu`, filled with zero bytes.
abbrev pub install : ℕ → ℕ → Ram → Ram
install clu phy s =
    let a = k_phy2lin phy in
    record s {
      fat = set_page s.fat clu a;
      mem = memset s.mem a 0 cluster_size;
      recs = clear_recs s.recs a;
    }

-- -1 and -ENOMEM
abbrev pub minus_1 : ℤ
minus_1 = negsuc 0

abbrev pub enomem : ℤ
enomem = negsuc 11

-- `rf_alloc_clu`. The entry is marked as in use before the page is asked for.
unfoldable pub rf_alloc_clu : ℕ → Ram → ℤ × Ram
rf_alloc_clu clu s =
    let s1 = record s { fat = set_next s.fat clu last } in
    let (phy, man') = memman_alloc_4k s1.man in
    if phy == minus_one
    then (minus_1, record s1 { man = man' })
    else (pos 0, install clu phy (record s1 { man = man' }))

-- The first entry with `next_cluster == 0`.
unfoldable pub first_free : List Fat → Option ℕ
first_free [] = none
first_free (e ∷ es) =
    if e.next_cluster == 0
    then some 0
    else elim (first_free es) [ none ↦ none | some i ↦ some (suc i) ]

abbrev pub is_minus_1 : ℤ → Bool
is_minus_1 (pos n) = false
is_minus_1 (negsuc n) = n == 0

-- `rf_find_first_free_alloc`: a failed allocation ends the search.
unfoldable pub rf_find_first_free_alloc : Ram → ℤ × Ram
unfolding first_free rf_alloc_clu
rf_find_first_free_alloc s = elim (first_free s.fat) [
  | none ↦ (enomem, s)
  | some i ↦ let (c, s') = rf_alloc_clu i s in if is_minus_1 c then (enomem, s') else (pos i, s')
]

-- `rf_free_clu`, with the rounds that its loop may take.
unfoldable pub rf_free_clu : ℕ → ℕ → Ram → Outcome Ram
rf_free_clu zero clu s = no_fuel
rf_free_clu (suc fuel) clu s =
    let nxt = next s.fat clu in
    let freed = memman_free_4k s.man (k_lin2phy (page s.fat clu)) in
    let s' = record s { fat = set_next s.fat clu 0; man = freed.1 } in
    let rest = rf_free_clu fuel nxt s' in
    if freed.0 == minus_one then panic else if nxt == last then ok s' else rest

-- The cluster `k` places behind `c`.
unfoldable pub seek : List Fat → ℕ → ℕ → ℕ
seek fat c zero = c
seek fat c (suc k) = seek fat (next fat c) k
