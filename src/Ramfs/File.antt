-- ===== src/Ramfs/File.antt =====
-- Open files of kernel/ramfs.c: `rf_read`, `rf_write`, `rf_lseek` and `rf_close`.
-- `p_proc_current->task.filp` holds indices of `f_desc_table`, `none` for a null pointer. The
-- caller's buffer is a list of bytes, of which a call reads or returns `length`; counts and
-- positions are the `int`s of the source that are not negative, and a sum that leaves the range of
-- an `int` is not modelled.
pub mod Content
pub mod Read
pub mod Put
pub mod Write
use exp_memfs.Base.{
  ltb, leb, ◌==◌, if◌then◌else◌, ltb→lt, lt→ltb, leb→le, ==_iff, Bool-cases, Option-cases, length,
  get_or, set, take, drop, replicate, erase_at, insert_at, length-append, length-set,
  get_or-set_self, get_or-set_ne, length-insert_at, u32_mod, add32, sub32, minus_one, sub_ℕ, ◌>>=◌,
  ◌>>◌, assert, Outcome, ok, panic, fault, no_fuel, ℤ, pos, negsuc, ℕ, zero, suc, ◌+◌, ◌-◌, ◌*◌,
  ◌/◌, ◌%◌, ◌^◌, ◌≤◌, ◌<◌, ◌≡◌, refl, sym, ap, ◌∙◌, ◌≢◌, ◌↔◌, ◌⊎◌, inl, inr, Bool, true, false, not,
  ◌&&◌, ◌||◌, Option, none, some, List, [], ◌∷◌, ◌++◌, map, arith,
}
use exp_memfs.Str.{Mem}
use exp_memfs.Ramfs.{
  Ram, Ref, cluster_size, last, next, page, seek, minus_1, rf_find_first_free_alloc, set_next,
}
use exp_memfs.Ramfs.Dir.{deref, write_cell, write_rec}

-- `struct file_desc`, with the member `fd_ram` of its `fd_node`.
pub record Desc : Type 0 where
  pub fd_mode : ℕ
  pub fd_pos : ℕ
  pub fd_ram : Option Ref
  pub flag : ℕ
  pub dev_index : ℕ

abbrev pub no_desc : Desc
no_desc = record { fd_mode = 0; fd_pos = 0; fd_ram = none; flag = 0; dev_index = 0 }

-- NR_FILES, NR_FILE_DESC
abbrev pub nr_files : ℕ
nr_files = 64

abbrev pub nr_file_desc : ℕ
nr_file_desc = 128

-- The RAM file system, `f_desc_table`, and the current process's `filp` and `cwd`.
pub record Sys : Type 0 where
  pub ram : Ram
  pub table : List Desc
  pub filp : List (Option ℕ)
  pub cwd : List ℕ

abbrev pub eacces : ℤ
eacces = negsuc 12

-- The descriptor that a pointer of `filp` points at.
abbrev pub pointed : List Desc → Option ℕ → Outcome (ℕ × Desc)
pointed t none = fault
pointed t (some k) = ok (k, get_or t k no_desc)

abbrev pub desc_of : Sys → ℕ → Outcome (ℕ × Desc)
desc_of s fd = pointed s.table (get_or s.filp fd none)

abbrev pub not_null : Option Ref → Outcome Ref
not_null none = fault
not_null (some r) = ok r

abbrev pub node_of : Desc → Outcome Ref
node_of d = not_null d.fd_ram

-- `mode & O_RDWR`
abbrev pub has_rdwr : ℕ → Bool
has_rdwr mode = mode / 2 % 2 == 1

abbrev pub size_of : Ram → Ref → ℕ
size_of s r = s.cell (deref s r).p_size

abbrev pub set_pos : Sys → ℕ → ℕ → Sys
set_pos s k p = record s {
  table = set s.table k (record (get_or s.table k no_desc) { fd_pos = p });
}

abbrev pub min : ℕ → ℕ → ℕ
min a b = if ltb a b then a else b

-- The `n` bytes from `a` on.
abbrev pub slice : Mem → ℕ → ℕ → List ℕ
slice m a zero = []
slice m a (suc n) = m a ∷ slice m (a + 1) n

-- The loop of `rf_read`: `size` is the file's, `cur_pos` the position at the start of the call,
-- `data_off` where `rf_data` stands in the cluster, and `out` what was copied so far.
unfoldable pub read_loop : ℕ → Ram → ℕ → ℕ → ℕ → ℕ → ℕ → ℕ → List ℕ → Outcome (ℕ × List ℕ)
read_loop zero s size cur_pos length st_clu data_off bytes_read out = no_fuel
read_loop (suc fuel) s size cur_pos length st_clu data_off bytes_read out =
    let n = min (min (cluster_size - data_off) (length - bytes_read)) (size - cur_pos) in
    let rest =
      read_loop fuel s size cur_pos length (next s.fat st_clu) 0 (bytes_read + n)
        (out ++ slice s.mem (page s.fat st_clu + data_off) n) in
    if ltb bytes_read length && not (st_clu == last) then rest else ok (bytes_read, out)

-- `rf_read`. Each round but the last copies a byte at least.
unfoldable pub rf_read : Sys → ℕ → ℕ → Outcome (ℤ × List ℕ × Sys)
rf_read s fd length = desc_of s fd >>= λ (k, d).
    if has_rdwr d.fd_mode
    then (node_of d >>= λ r.
        let size = size_of s.ram r in
        let cur_pos = d.fd_pos in
        if leb size cur_pos
        then ok (pos 0, [], s)
        else (read_loop (suc length) s.ram size cur_pos length
              (seek s.ram.fat (deref s.ram r).start_cluster (cur_pos / cluster_size))
              (cur_pos % cluster_size) 0 []
            >>= λ (bytes_read, out).
                assert (bytes_read == length || bytes_read == size - cur_pos)
                >> ok (pos bytes_read, out, set_pos s k (cur_pos + bytes_read))))
    else ok (eacces, [], s)

-- `memcpy` of `bytes` to the address `a`.
abbrev pub poke : Mem → ℕ → List ℕ → Mem
poke m a bytes x = if leb a x && ltb x (a + length bytes) then get_or bytes (x - a) 0 else m x

-- The step of `rf_write` to the next cluster, which is made where the chain ends. `none`: no cluster
-- is left.
unfoldable pub extend : Ram → ℕ → Option ℕ × Ram
extend s c =
    if next s.fat c == last
    then (let (r, s1) = rf_find_first_free_alloc s in
        elim r [
          | negsuc _ ↦ (none, s1)
          | pos n ↦ (some n, record s1 { fat = set_next s1.fat c n })
        ])
    else (some (next s.fat c), s)

-- The first loop of `rf_write`, `k` clusters on from `c`.
unfoldable pub seek_write : ℕ → Ram → ℕ → Option ℕ × Ram
seek_write zero s c = (some c, s)
seek_write (suc k) s c = elim (c == last) [
  | true ↦ (some c, s)
  | false ↦ let (o, s') = extend s c in elim o [ none ↦ (none, s') | some d ↦ seek_write k s' d ]
]

-- The second loop of `rf_write` and the copy behind it: `off` is where `rf_data` stands in the
-- cluster `c`, and `data` what is still to be written. The result counts the bytes written.
unfoldable pub write_loop : ℕ → Ram → ℕ → ℕ → List ℕ → ℕ → Outcome (ℕ × Ram)
write_loop zero s c off bytes written = no_fuel
write_loop (suc fuel) s c off bytes written =
    let a = page s.fat c + off in
    let pref = cluster_size - off in
    elim (ltb cluster_size (off + length bytes)) [
      | false ↦ ok (written + length bytes, record s { mem = poke s.mem a bytes })
      | true ↦
          let (o, s') = extend (record s { mem = poke s.mem a (take pref bytes) }) c in
          elim o [
            | none ↦ ok (written + pref, s')
            | some d ↦ write_loop fuel s' d 0 (drop pref bytes) (written + pref)
          ]
    ]

-- The position and the size after `n` bytes were written from `p` on.
abbrev pub advance_file : Sys → ℕ → Ref → ℕ → ℕ → Ram → Sys
advance_file s k r p n ram =
    let size = size_of ram r in
    set_pos
      (record s {
        ram = if ltb size (p + n) then write_cell ram (deref ram r).p_size (p + n) else ram;
      })
      k (p + n)

-- `rf_write`, for the `length` bytes of the buffer.
unfoldable pub rf_write : Sys → ℕ → List ℕ → Outcome (ℤ × Sys)
rf_write s fd bytes = desc_of s fd >>= λ (k, d).
    if has_rdwr d.fd_mode
    then (node_of d >>= λ r.
        let (o, ram1) = seek_write (d.fd_pos / cluster_size) s.ram (deref s.ram r).start_cluster in
        elim o [
          | none ↦ ok (pos 0, record s { ram = ram1 })
          | some c ↦
              write_loop (suc (length bytes)) ram1 c (d.fd_pos % cluster_size) bytes 0
              >>= λ (n, ram2). ok (pos n, advance_file s k r d.fd_pos n ram2)
        ])
    else ok (eacces, s)

-- SEEK_SET, SEEK_CUR, SEEK_END
abbrev pub seek_set : ℕ
seek_set = 1

abbrev pub seek_cur : ℕ
seek_cur = 2

abbrev pub seek_end : ℕ
seek_end = 3

abbrev pub shift : ℕ → ℤ → ℤ
shift a (pos b) = pos (a + b)
shift a (negsuc b) = sub_ℕ a (suc b)

-- The position that `rf_lseek` is asked for; `none` for an unknown `whence`.
abbrev pub target : ℕ → ℕ → ℤ → ℕ → Option ℤ
target p size offset whence =
    if whence == seek_set
    then some offset
    else if whence == seek_cur
    then some (shift p offset)
    else if whence == seek_end
    then some (shift size offset)
    else none

unfoldable pub rf_lseek : Sys → ℕ → ℤ → ℕ → Outcome (ℤ × Sys)
rf_lseek s fd offset whence = desc_of s fd >>= λ (k, d). node_of d >>= λ r.
    let size = size_of s.ram r in
    elim (target d.fd_pos size offset whence) [
      | none ↦ ok (minus_1, s)
      | some (negsuc _) ↦ ok (minus_1, s)
      | some (pos p) ↦ if ltb size p then ok (minus_1, s) else ok (pos p, set_pos s k p)
    ]

-- The body of `rf_close` behind its tests on `fd`.
abbrev pub close_desc : Sys → ℕ → ℕ → Ref → ℤ × Sys
close_desc s fd k r =
    let node = deref s.ram r in
    if node.open_cnt == 0 then (minus_1, s) else (
      pos 0,
      record s {
        ram = write_rec s.ram r (record node { open_cnt = node.open_cnt - 1 });
        table = set s.table k (record (get_or s.table k no_desc) { fd_ram = none; flag = 0 });
        filp = set s.filp fd none;
      },
    )

-- `rf_close`. For `fd == NR_FILES` the test `fd > NR_FILES` passes, and `filp[fd]` is read behind
-- the end of the array: a fault here.
unfoldable pub rf_close : Sys → ℤ → Outcome (ℤ × Sys)
rf_close s (negsuc _) = ok (minus_1, s)
rf_close s (pos fd) =
    if ltb nr_files fd
    then ok (minus_1, s)
    else if fd == nr_files
    then fault
    else elim (get_or s.filp fd none) [
      | none ↦ ok (minus_1, s)
      | some k ↦ node_of (get_or s.table k no_desc) >>= λ r. ok (close_desc s fd k r)
    ]
