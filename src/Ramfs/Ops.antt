-- ===== src/Ramfs/Ops.antt =====
-- The operations of kernel/ramfs.c that take a path: opening, creating, deleting and linking.
-- `rf_open` also copies the path to a local buffer that nothing reads; that copy is left out.
use exp_memfs.Base.{
  ltb, leb, ◌==◌, if◌then◌else◌, length, set, add32, sub32, ◌>>=◌, Outcome, ok, ℤ, pos, negsuc, ℕ,
  suc, ◌*◌, true, false, ◌||◌, Option, none, some, List, [], ◌∷◌,
}
use exp_memfs.Memman.{memman_free}
use exp_memfs.Ramfs.{Ram, Ref, rf_none, rf_f, rf_d, inode_size, minus_1, k_lin2phy, rf_free_clu}
use exp_memfs.Ramfs.Dir.{deref, write_rec, write_cell, check_dir_size}
use exp_memfs.Ramfs.Path.{find_path}
use exp_memfs.Ramfs.File.{Sys, Desc}

-- O_CREAT, O_RDWR, VFS_INDEX_RAMFS, MAX_PATH
abbrev pub o_creat : ℕ
o_creat = 1

abbrev pub o_rdwr : ℕ
o_rdwr = 2

abbrev pub vfs_index_ramfs : ℕ
vfs_index_ramfs = 5

abbrev pub max_path : ℕ
max_path = 128

-- -ENOENT, -ENFILE, -EMFILE, -ENOTEMPTY
abbrev pub enoent : ℤ
enoent = negsuc 1

abbrev pub enfile : ℤ
enfile = negsuc 22

abbrev pub emfile : ℤ
emfile = negsuc 23

abbrev pub enotempty : ℤ
enotempty = negsuc 38

-- The first free place of `filp`, and of `f_desc_table`.
unfoldable pub free_fd : List (Option ℕ) → Option ℕ
free_fd [] = none
free_fd (none ∷ fs) = some 0
free_fd (some _ ∷ fs) = elim (free_fd fs) [ none ↦ none | some i ↦ some (suc i) ]

unfoldable pub free_desc : List Desc → Option ℕ
free_desc [] = none
free_desc (d ∷ ds) =
    if d.flag == 0 then some 0 else elim (free_desc ds) [ none ↦ none | some i ↦ some (suc i) ]

-- The record `r` is opened: its count rises, and `filp[fd]` gets the descriptor `k` for it.
abbrev pub connect : Sys → ℕ → ℕ → Ref → ℕ → Sys
connect s fd k r mode = record s {
  ram = write_rec s.ram r (record (deref s.ram r) { open_cnt = add32 (deref s.ram r).open_cnt 1 });
  filp = set s.filp fd (some k);
  table = set s.table k (record {
    fd_mode = mode;
    fd_pos = 0;
    fd_ram = some r;
    flag = 1;
    dev_index = vfs_index_ramfs;
  });
}

-- The common part of `rf_open` and `rf_open_dir`: the two free places, then the path.
abbrev pub open_as : Sys → List ℕ → ℕ → ℕ → Outcome (ℤ × Sys)
open_as s path flags type = elim (free_fd s.filp) [
  | none ↦ ok (emfile, s)
  | some fd ↦ elim (free_desc s.table) [
    | none ↦ ok (enfile, s)
    | some k ↦ find_path path none flags type none s.ram >>= λ (found, ram1). elim found [
      | none ↦ ok (enoent, record s { ram = ram1 })
      | some r ↦ ok (pos fd, connect (record s { ram = ram1 }) fd k r flags)
    ]
  ]
]

unfoldable pub rf_open : Sys → List ℕ → ℕ → Outcome (ℤ × Sys)
unfolding free_fd free_desc find_path
rf_open s path flags = open_as s path flags rf_f

unfoldable pub rf_create : Sys → List ℕ → Outcome (ℤ × Sys)
unfolding rf_open
rf_create s path = rf_open s path o_creat

unfoldable pub rf_create_dir : Sys → List ℕ → Outcome (ℤ × Sys)
unfolding find_path
rf_create_dir s path = find_path path none o_creat rf_d none s.ram >>= λ (found, ram1).
    ok (elim found [ none ↦ minus_1 | some _ ↦ pos 0 ], record s { ram = ram1 })

unfoldable pub rf_open_dir : Sys → List ℕ → Outcome (ℤ × Sys)
unfolding free_fd free_desc find_path
rf_open_dir s path =
    if ltb max_path (length path) then ok (minus_1, s) else open_as s path o_rdwr rf_d

-- `do_free(K_LIN2PHY(p), sizeof(u32))`
abbrev pub free_word : Ram → ℕ → Ram
free_word s p = record s { man = (memman_free s.man (k_lin2phy p) 4).1 }

abbrev pub set_type : Ram → Ref → ℕ → Ram
set_type s r t = write_rec s r (record (deref s r) { record_type = t })

abbrev pub link_cnt : Ram → Ref → ℕ
link_cnt s r = s.cell (deref s r).p_link_cnt

abbrev pub free_words : Ram → Ref → Ram
free_words s r = free_word (free_word s (deref s r).p_size) (deref s r).p_link_cnt

-- The cluster chain of the record is freed, and the call succeeds.
abbrev pub free_chain : Ram → Ref → Outcome (ℤ × Ram)
free_chain s r =
    rf_free_clu (suc (length s.fat)) (deref s r).start_cluster s >>= λ s'. ok (pos 0, s')

unfoldable pub rf_delete : Ram → List ℕ → Outcome (ℤ × Ram)
unfolding find_path rf_free_clu
rf_delete s path = find_path path none 0 rf_f none s >>= λ (found, s1). elim found [
  | none ↦ ok (enoent, s1)
  | some r ↦ elim (leb 1 (link_cnt s1 r) || leb 1 (deref s1 r).open_cnt) [
    | true ↦ ok (minus_1, s1)
    | false ↦ free_chain (set_type (free_words s1 r) r rf_none) r
  ]
]

-- `rf_delete_dir`. The record is given up before the tests.
unfoldable pub rf_delete_dir : Ram → List ℕ → Outcome (ℤ × Ram)
unfolding find_path rf_free_clu check_dir_size
rf_delete_dir s path = find_path path none 0 rf_d none s >>= λ (found, s1). elim found [
  | none ↦ ok (enoent, s1)
  | some r ↦
      let s2 = set_type s1 r rf_none in
      elim (leb 1 (link_cnt s2 r)) [
        | true ↦ ok (minus_1, s2)
        | false ↦
            let s3 = free_words s2 r in
            check_dir_size s3 (deref s3 r).start_cluster >>= λ size.
            elim (ltb (2 * inode_size) size) [ true ↦ ok (enotempty, s3) | false ↦ free_chain s3 r ]
      ]
]

-- `*r->p_link_cnt--; r->record_type = RF_NONE`: the postfix operator moves the pointer.
abbrev pub drop_name : Ram → Ref → Ram
drop_name s r =
    write_rec s r
      (record (deref s r) { p_link_cnt = sub32 (deref s r).p_link_cnt 4; record_type = rf_none })

unfoldable pub rf_unlink : Ram → List ℕ → Outcome (ℤ × Ram)
unfolding rf_delete rf_delete_dir
rf_unlink s path = find_path path none 0 rf_f none s >>= λ (file, s1). elim file [
  | some r ↦ elim (link_cnt s1 r == 0) [
    | true ↦ rf_delete s1 path
    | false ↦ ok (pos 0, drop_name s1 r)
  ]
  | none ↦ find_path path none 0 rf_d none s1 >>= λ (dir, s2). elim dir [
    | none ↦ ok (enoent, s2)
    | some r ↦ elim (link_cnt s2 r == 0) [
      | true ↦ rf_delete_dir s2 path
      | false ↦ ok (pos 0, drop_name s2 r)
    ]
  ]
]

-- The new name for the record `old`.
abbrev pub add_link : Ram → List ℕ → Ref → Outcome (ℤ × Ram)
add_link s newpath old =
    find_path newpath none o_creat (deref s old).record_type (some old) s >>= λ (made, s1).
    elim made [
      | none ↦ ok (minus_1, s1)
      | some _ ↦ ok (pos 0, write_cell s1 (deref s1 old).p_link_cnt (add32 (link_cnt s1 old) 1))
    ]

unfoldable pub rf_link : Ram → List ℕ → List ℕ → Outcome (ℤ × Ram)
unfolding find_path
rf_link s oldpath newpath = find_path oldpath none 0 rf_f none s >>= λ (file, s1). elim file [
  | some r ↦ add_link s1 newpath r
  | none ↦ find_path oldpath none 0 rf_d none s1 >>= λ (dir, s2). elim dir [
    | none ↦ ok (enoent, s2)
    | some r ↦ add_link s2 newpath r
  ]
]
