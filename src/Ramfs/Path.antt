-- ===== src/Ramfs/Path.antt =====
-- `init_ram_fs` and `find_path` of kernel/ramfs.c.
use exp_memfs.Base.{
  ◌==◌, if◌then◌else◌, length, ◌>>=◌, Outcome, ok, no_fuel, pos, negsuc, ℕ, zero, suc, ◌+◌, ◌*◌,
  ◌%◌, Bool, true, false, ◌&&◌, Option, none, some, List, [], ◌∷◌,
}
use exp_memfs.Str.{strcmp}
use exp_memfs.Ramfs.{
  Ram, Inode, Ref, rf_none, rf_d, rf_nr_rec, last, next, page, rf_alloc_clu,
  rf_find_first_free_alloc,
}
use exp_memfs.Ramfs.Dir.{
  deref, write_cell, check_dir_size, init_dir_record, rf_write_record, start_of,
}

-- The table that `do_kmalloc` gives is taken to be all zero: `fat` before the call.
unfoldable pub init_ram_fs : Ram → Ram
unfolding rf_alloc_clu init_dir_record
init_ram_fs s = init_dir_record (rf_alloc_clu 0 s).1 0 none

-- The entry name: the bytes in front of the next '/', and the rest of the path from there.
unfoldable pub split_name : List ℕ → List ℕ × List ℕ
split_name [] = ([], [])
split_name (c ∷ p) = let (n, r) = split_name p in if c == b'/' then ([], c ∷ p) else (c ∷ n, r)

abbrev pub same_name : List ℕ → List ℕ → Bool
same_name p q = elim (strcmp p q) [ pos n ↦ n == 0 | negsuc _ ↦ false ]

-- The record at which the inner loop stops, among the `k` from index `i` on: a directory of that
-- name where the path goes on, and any record of that name where it ends.
unfoldable pub scan : (ℕ → Inode) → Bool → List ℕ → ℕ → ℕ → Option ℕ
scan rec more name i zero = none
scan rec more name i (suc k) =
    let rest = scan rec more name (i + 1) k in
    if (rec i).record_type == rf_none
    then rest
    else if more
    then (if (rec i).record_type == rf_d && same_name (rec i).name name then some i else rest)
    else if same_name (rec i).name name
    then some i
    else rest

-- `*r->p_size = check_dir_size(r->start_cluster)`
abbrev pub refresh_size : Ram → Ref → Outcome Ram
refresh_size s r =
    check_dir_size s (deref s r).start_cluster >>= λ size. ok (write_cell s (deref s r).p_size size)

-- The path ends at the record `r`: it is returned if it is of the type asked for.
abbrev pub arrive : Ram → Ref → ℕ → Outcome (Option Ref × Ram)
arrive s r find_type =
    let refreshed : Outcome (Option Ref × Ram) = refresh_size s r >>= λ s'. ok (some r, s') in
    if (deref s r).record_type == find_type
    then (if (deref s r).record_type == rf_d then refreshed else ok (some r, s))
    else ok (none, s)

abbrev pub has_creat : ℕ → Bool
has_creat flag = flag % 2 == 1

-- The path ends and no record has the name: with O_CREAT a record is made, over a new cluster.
abbrev pub create : Ram → Option Ref → List ℕ → ℕ → ℕ → Option Ref → Outcome (Option Ref × Ram)
create s dir_rec name flag find_type p_fa =
    if has_creat flag
    then (let (c, s') = rf_find_first_free_alloc s in
        elim c [
          | negsuc _ ↦ ok (none, s')
          | pos inew ↦ rf_write_record s' dir_rec name inew find_type p_fa
        ])
    else ok (none, s)

-- The rounds of the outer loop of `find_path`: `path` is what lies from `pathpos` on.
unfoldable pub find_from :
    ℕ → Ram → List ℕ → Option Ref → ℕ → ℕ → ℕ → Option Ref → Outcome (Option Ref × Ram)
find_from zero s path dir_rec dir_clu flag find_type p_fa = no_fuel
find_from (suc fuel) s [] dir_rec dir_clu flag find_type p_fa = ok (none, s)
find_from (suc fuel) s (c ∷ path) dir_rec dir_clu flag find_type p_fa =
    let (name, rest) = split_name (c ∷ path) in
    let a = page s.fat dir_clu in
    elim rest [
      | [] ↦ elim (scan (s.recs a) false name 0 rf_nr_rec) [
        | some i ↦ arrive s (a, i) find_type
        | none ↦ create s dir_rec name flag find_type p_fa
      ]
      | d ∷ tail ↦ elim (scan (s.recs a) true name 0 rf_nr_rec) [
        | some i ↦ refresh_size s (a, i) >>= λ s'.
            find_from fuel s' tail (some (a, i)) (deref s' (a, i)).start_cluster flag find_type p_fa
        | none ↦ elim (next s.fat dir_clu == last) [
          | true ↦ ok (none, s)
          | false ↦ find_from fuel s (d ∷ tail) dir_rec (next s.fat dir_clu) flag find_type p_fa
        ]
      ]
    ]

-- Each byte of the path and each step along a chain of clusters takes one round at most.
abbrev pub rounds : Ram → List ℕ → ℕ
rounds s path = suc (length path) * suc (length s.fat) + 1

unfoldable pub find_path :
    List ℕ → Option Ref → ℕ → ℕ → Option Ref → Ram → Outcome (Option Ref × Ram)
unfolding split_name scan find_from rf_write_record rf_find_first_free_alloc check_dir_size strcmp
find_path path dir_rec flag find_type p_fa s =
    find_from (rounds s path) s path dir_rec (start_of s dir_rec) flag find_type p_fa
