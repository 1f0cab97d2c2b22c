-- ===== src/Ramfs/Dir.antt =====
-- Directories of kernel/ramfs.c: `check_dir_size`, `init_dir_record`, `rf_write_record`,
-- `init_ram_fs` and `find_path`.
-- A path and a name are the texts that the C strings hold. A record is named by the address of its
-- page and its index; `p_fa` and `dir_rec` are `none` for NULL.
use exp_memfs.Base.{
  ◌==◌, if◌then◌else◌, length, add32, ◌>>=◌, Outcome, ok, no_fuel, pos, negsuc, ℕ, zero, suc, ◌+◌,
  ◌*◌, ◌&&◌, Option, none, some, List, [], ◌∷◌,
}
use exp_memfs.Memman.{memman_kalloc}
use exp_memfs.Ramfs.{
  Ram, Fat, Inode, Ref, Recs, rf_none, rf_f, rf_d, rf_nr_rec, inode_size, cluster_size, last, next,
  page, set_next, k_phy2lin, rf_find_first_free_alloc,
}

abbrev pub deref : Ram → Ref → Inode
deref s (a, i) = s.recs a i

abbrev pub update : Recs → Ref → Inode → Recs
update r (a, i) v b j = if b == a && j == i then v else r b j

-- `*r = v`
abbrev pub write_rec : Ram → Ref → Inode → Ram
write_rec s r v = record s { recs = update s.recs r v }

-- `*p = v` for a `u32 *`
abbrev pub write_cell : Ram → ℕ → ℕ → Ram
write_cell s p v = record s { cell = λ q. if q == p then v else s.cell q }

-- The last cluster of a chain and the bytes of the clusters in front of it, with the rounds that
-- the loop may take.
pub walk_chain : ℕ → List Fat → ℕ → ℕ → Outcome (ℕ × ℕ)
walk_chain zero fat size clu = no_fuel
walk_chain (suc fuel) fat size clu =
    let rest = walk_chain fuel fat (add32 size cluster_size) (next fat clu) in
    if next fat clu == last then ok (size, clu) else rest

-- The records up to the last one in use, looking down from index `k - 1`.
pub used_records : (ℕ → Inode) → ℕ → ℕ
used_records rec zero = 0
used_records rec (suc k) =
    let rest = used_records rec k in if (rec k).record_type == rf_none then rest else suc k

unfoldable pub check_dir_size : Ram → ℕ → Outcome ℕ
unfolding walk_chain used_records
check_dir_size s clu = do
  (size, end) ← walk_chain (suc (length s.fat)) s.fat 0 clu
  ok (add32 size (used_records (s.recs (page s.fat end)) rf_nr_rec * inode_size))

-- `(u32*)K_PHY2LIN(do_kmalloc(sizeof(u32)))`
abbrev pub new_word : Ram → ℕ × Ram
new_word s = let (phy, man') = memman_kalloc s.man 4 in (k_phy2lin phy, record s { man = man' })

abbrev pub dot : List ℕ
dot = b'.' ∷ []

abbrev pub dot_dot : List ℕ
dot_dot = b'.' ∷ b'.' ∷ []

-- The record "." of a new directory, in the cluster `clu`.
abbrev pub init_dot : Ram → ℕ → Ram
init_dot s clu =
    let (psize, s1) = new_word s in
    let (plink, s2) = new_word s1 in
    let r : Ref = (page s.fat clu, 0) in
    let s3 = write_rec s2 r (record (deref s2 r) {
      name = dot;
      record_type = rf_d;
      p_size = psize;
      p_link_cnt = plink;
      start_cluster = clu;
    }) in
    write_cell (write_cell s3 psize inode_size) plink 0

-- The record ".." behind it, for the parent's record `p`.
abbrev pub init_dot_dot : Ram → ℕ → Ref → Ram
init_dot_dot s clu p =
    let a = page s.fat clu in
    let size = (deref s (a, 0)).p_size in
    let s1 = write_cell s size (add32 (s.cell size) inode_size) in
    write_rec s1 (a, 1)
      (record (deref s1 (a, 1)) {
        name = dot_dot;
        record_type = rf_d;
        p_size = (deref s1 p).p_size;
        start_cluster = (deref s1 p).start_cluster;
        p_link_cnt = (deref s1 p).p_link_cnt;
      })

unfoldable pub init_dir_record : Ram → ℕ → Option Ref → Ram
init_dir_record s clu parent = elim parent [
  | none ↦ init_dot s clu
  | some p ↦ init_dot_dot (init_dot s clu) clu p
]

-- The first of the `k` records from index `i` on that is not in use.
pub free_slot : (ℕ → Inode) → ℕ → ℕ → Option ℕ
free_slot rec i zero = none
free_slot rec i (suc k) =
    let rest = free_slot rec (i + 1) k in if (rec i).record_type == rf_none then some i else rest

-- The loop of `rf_write_record`: `a` is the page of `rec`, which stays where it is. The result is
-- the free index and the cluster that `dir_clu` has become, or `none` when no cluster is left.
pub find_slot : ℕ → Ram → ℕ → ℕ → Outcome (Option (ℕ × ℕ) × Ram)
find_slot zero s a dir_clu = no_fuel
find_slot (suc fuel) s a dir_clu = elim (free_slot (s.recs a) 0 rf_nr_rec) [
  | some i ↦ ok (some (i, dir_clu), s)
  | none ↦
      let (c, s1) = rf_find_first_free_alloc s in
      elim c [
        | negsuc _ ↦ ok (none, s1)
        | pos n ↦ find_slot fuel (record s1 { fat = set_next s1.fat dir_clu n }) a n
      ]
]

-- A hard link: the new record shares the words and the cluster of `p`.
abbrev pub link_rec : Ram → Ref → Ref → Ram
link_rec s r p = write_rec s r (record (deref s r) {
  record_type = (deref s p).record_type;
  start_cluster = (deref s p).start_cluster;
  p_size = (deref s p).p_size;
  p_link_cnt = (deref s p).p_link_cnt;
})

-- The record of a new file.
abbrev pub file_rec : Ram → Ref → ℕ → Ram
file_rec s r ent_clu =
    let (psize, s1) = new_word s in
    let s2 = write_cell s1 psize 0 in
    let (plink, s3) = new_word s2 in
    let s4 = write_cell s3 plink 0 in
    write_rec s4 r (record (deref s4 r) {
      p_size = psize;
      open_cnt = 0;
      p_link_cnt = plink;
      start_cluster = ent_clu;
    })

-- The record of a new directory, whose parent's own record is `rec`.
abbrev pub dir_entry : Ram → Ref → Ref → ℕ → Outcome Ram
dir_entry s rec r ent_clu =
    let s1 = init_dir_record s ent_clu (some rec) in
    let (psize, s2) = new_word s1 in
    check_dir_size s2 ent_clu >>= λ size.
    let s3 = write_cell s2 psize size in
    let (plink, s4) = new_word s3 in
    let s5 = write_cell s4 plink 0 in
    ok (
      write_rec s5 r (record (deref s5 r) {
        p_size = psize;
        open_cnt = 0;
        p_link_cnt = plink;
        start_cluster = ent_clu;
      }))

-- What `rf_write_record` stores in the record `r`, by its type and `p_fa`.
abbrev pub fill_rec : Ram → Ref → Ref → ℕ → ℕ → Option Ref → Outcome Ram
fill_rec s rec r ent_clu type (some p) = ok (link_rec s r p)
fill_rec s rec r ent_clu type none =
    if type == rf_f
    then ok (file_rec s r ent_clu)
    else if type == rf_d
    then dir_entry s rec r ent_clu
    else ok s

abbrev pub start_of : Ram → Option Ref → ℕ
start_of s none = 0
start_of s (some r) = (deref s r).start_cluster

-- `*dir_rec->p_size = size`
abbrev pub set_dir_size : Ram → Option Ref → ℕ → Ram
set_dir_size s none size = s
set_dir_size s (some r) size = write_cell s (deref s r).p_size size

-- `rf_write_record` once a record is found: index `i` of the page `a`.
unfoldable pub store_record :
    Ram → Option Ref → List ℕ → ℕ → ℕ → Option Ref → ℕ → ℕ → ℕ → Outcome (Option Ref × Ram)
unfolding init_dir_record check_dir_size
store_record s dir_rec name ent_clu type p_fa a i dir_clu = do
  let s1 = write_rec s (a, i) (record (deref s (a, i)) { name = name; record_type = type })
  new_size ← check_dir_size s1 dir_clu
  let s2 = write_cell s1 (deref s1 (a, 0)).p_size new_size
  s3 ← fill_rec s2 (a, 0) (a, i) ent_clu type p_fa
  ok (some (a, i), set_dir_size s3 dir_rec new_size)

unfoldable pub rf_write_record :
    Ram → Option Ref → List ℕ → ℕ → ℕ → Option Ref → Outcome (Option Ref × Ram)
unfolding find_slot free_slot store_record
rf_write_record s dir_rec name ent_clu type p_fa =
    let dir_clu = start_of s dir_rec in
    let a = page s.fat dir_clu in
    find_slot (suc (length s.fat)) s a dir_clu >>= λ (found, s1). elim found [
      | none ↦ ok (none, s1)
      | some (i, clu) ↦ store_record s1 dir_rec name ent_clu type p_fa a i clu
    ]
