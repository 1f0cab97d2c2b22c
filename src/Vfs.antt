-- ===== src/Vfs.antt =====
-- The virtual file system, kernel/vfs.c: its tables, and the calls that take a path or a descriptor.
-- The state is `Sys`; a call of a null function pointer is a fault. The operations of the other file
-- systems are arguments. Messages are left out.
pub mod Path
pub mod Route
pub mod Dispatch
pub mod Pieces
pub mod RamWrite
pub mod Dirs
mod Tests
use exp_memfs.Base.{
  ltb, leb, ◌==◌, if◌then◌else◌, ltb→lt, lt→ltb, leb→le, ==_iff, Bool-cases, Option-cases, length,
  get_or, set, take, drop, replicate, erase_at, insert_at, length-append, length-set,
  get_or-set_self, get_or-set_ne, length-insert_at, take-append-drop, length-take, length-drop, mem,
  Distinct, u32_mod, add32, sub32, minus_one, sub_ℕ, ◌>>=◌, ◌>>◌, assert, Outcome, ok, panic, fault,
  no_fuel, ℤ, pos, negsuc, ℕ, zero, suc, ◌+◌, ◌-◌, ◌*◌, ◌/◌, ◌%◌, ◌^◌, ◌≤◌, ◌<◌, ◌≡◌, refl, sym, ap,
  ◌∙◌, ◌≢◌, ◌↔◌, ◌⊎◌, inl, inr, Bool, true, false, not, ◌&&◌, ◌||◌, Option, none, some, List, [],
  ◌∷◌, ◌++◌, map, arith,
}
use exp_memfs.Str.{strcmp}
use exp_memfs.Str.Compare.{text}
use exp_memfs.Ramfs.{Ram, minus_1}
use exp_memfs.Ramfs.File.{
  Sys, Desc, no_desc, pointed, desc_of, nr_files, rf_read, rf_write, rf_lseek, rf_close,
}
use exp_memfs.Ramfs.Ops.{
  rf_open, rf_create, rf_create_dir, rf_open_dir, rf_delete, rf_delete_dir, rf_unlink, rf_link,
  vfs_index_ramfs, max_path,
}
use exp_memfs.Vfs.Path.{buffer, is_zero, slash, fs_names, find_fs, process_relative_path, get_index}

-- `struct file_op`. `none` is a null pointer.
pub record FileOp : Type 0 where
  pub create : Option (Sys → List ℕ → Outcome (ℤ × Sys))
  pub delete : Option (Sys → List ℕ → Outcome (ℤ × Sys))
  pub unlink : Option (Sys → List ℕ → Outcome (ℤ × Sys))
  pub opendir : Option (Sys → List ℕ → Outcome (ℤ × Sys))
  pub createdir : Option (Sys → List ℕ → Outcome (ℤ × Sys))
  pub deletedir : Option (Sys → List ℕ → Outcome (ℤ × Sys))
  pub open_file : Option (Sys → List ℕ → ℕ → Outcome (ℤ × Sys))
  pub close : Option (Sys → ℤ → Outcome (ℤ × Sys))
  pub read : Option (Sys → ℕ → ℕ → Outcome (ℤ × List ℕ × Sys))
  pub write : Option (Sys → ℕ → List ℕ → Outcome (ℤ × Sys))
  pub lseek : Option (Sys → ℕ → ℤ → ℕ → Outcome (ℤ × Sys))
  pub link : Option (Sys → List ℕ → List ℕ → Outcome (ℤ × Sys))

-- The other operations of `f_op_table`, and the byte below the array `pathname` on the stack.
pub record Env : Type 0 where
  pub tty : FileOp
  pub orange : FileOp
  pub fat32 : FileOp
  pub before : ℕ

-- An operation on the RAM file system alone.
abbrev pub on_ram : Sys → Outcome (ℤ × Ram) → Outcome (ℤ × Sys)
on_ram s m = m >>= λ (r, ram1). ok (r, record s { ram = ram1 })

-- `f_op_table[3]`
abbrev pub ram_ops : FileOp
ram_ops = record {
  create = some rf_create;
  delete = some (λ s p. on_ram s (rf_delete s.ram p));
  unlink = some (λ s p. on_ram s (rf_unlink s.ram p));
  opendir = some rf_open_dir;
  createdir = some rf_create_dir;
  deletedir = some (λ s p. on_ram s (rf_delete_dir s.ram p));
  open_file = some rf_open;
  close = some rf_close;
  read = some rf_read;
  write = some rf_write;
  lseek = some rf_lseek;
  link = some (λ s p q. on_ram s (rf_link s.ram p q));
}

abbrev pub f_op_table : Env → List FileOp
f_op_table e = e.tty ∷ e.orange ∷ e.fat32 ∷ ram_ops ∷ []

-- The members `op` of `vfs_table`.
abbrev pub vfs_ops : Env → List FileOp
vfs_ops e = e.tty ∷ e.tty ∷ e.tty ∷ e.fat32 ∷ e.orange ∷ ram_ops ∷ []

-- An entry of a table.
abbrev pub entry {ℓ} : {A : Type ℓ} → List A → ℕ → Outcome A
entry [] i = fault
entry (x ∷ xs) zero = ok x
entry (x ∷ xs) (suc i) = entry xs i

-- A function pointer that is called.
abbrev pub called {ℓ} : {A : Type ℓ} → Option A → Outcome A
called none = fault
called (some f) = ok f

-- `strcpy` to an array of MAX_PATH bytes.
abbrev pub load : List ℕ → Outcome (List ℕ)
load path = if leb max_path (length path) then fault else ok (buffer max_path path)

-- The file system and the rest of a path, after `process_relative_path` and `get_index`.
unfoldable pub resolve : Env → Sys → List ℕ → Outcome (Option ℕ × List ℕ)
unfolding process_relative_path get_index
resolve e s path =
    load path >>= λ b. process_relative_path e.before s.cwd b >>= get_index e.before s.cwd

-- The same with `get_index` alone.
unfoldable pub locate : Env → Sys → List ℕ → Outcome (Option ℕ × List ℕ)
unfolding get_index
locate e s path = load path >>= get_index e.before s.cwd

-- The operation `get` of a file system on a path; -1 if there is none.
abbrev pub dispatch :
    List FileOp
    → (FileOp → Option (Sys → List ℕ → Outcome (ℤ × Sys)))
    → Sys
    → Option ℕ × List ℕ
    → Outcome (ℤ × Sys)
dispatch t get s (none, p) = ok (minus_1, s)
dispatch t get s (some i, p) = entry t i >>= λ o. called (get o) >>= λ f. f s p

unfoldable pub do_vcreate : Env → Sys → List ℕ → Outcome (ℤ × Sys)
unfolding resolve
do_vcreate e s path = resolve e s path >>= dispatch (vfs_ops e) (λ o. o.create) s

unfoldable pub do_vdelete : Env → Sys → List ℕ → Outcome (ℤ × Sys)
unfolding locate
do_vdelete e s path = locate e s path >>= dispatch (vfs_ops e) (λ o. o.delete) s

unfoldable pub do_vunlink : Env → Sys → List ℕ → Outcome (ℤ × Sys)
unfolding resolve
do_vunlink e s path = resolve e s path >>= dispatch (vfs_ops e) (λ o. o.unlink) s

-- `do_vcreatedir`, by the index of `f_op_table`.
unfoldable pub do_vcreatedir : Env → Sys → List ℕ → Outcome (ℤ × Sys)
unfolding locate
do_vcreatedir e s path = locate e s path >>= dispatch (f_op_table e) (λ o. o.createdir) s

unfoldable pub do_vdeletedir : Env → Sys → List ℕ → Outcome (ℤ × Sys)
unfolding resolve
do_vdeletedir e s path = resolve e s path >>= dispatch (vfs_ops e) (λ o. o.deletedir) s

-- A path without a file system indexes `vfs_table` by -1 here.
abbrev pub known : Option ℕ → Outcome ℕ
known none = fault
known (some i) = ok i

unfoldable pub do_vmkdir : Env → Sys → List ℕ → Outcome (ℤ × Sys)
unfolding resolve
do_vmkdir e s path = resolve e s path >>= λ (o, p).
    known o >>= λ i. dispatch (vfs_ops e) (λ o. o.createdir) s (some i, p)

abbrev pub link_in : Env → Sys → Option ℕ → List ℕ → List ℕ → Outcome (ℤ × Sys)
link_in e s none p q = ok (minus_1, s)
link_in e s (some i) p q = entry (vfs_ops e) i >>= λ o. called o.link >>= λ f. f s p q

unfoldable pub do_vlink : Env → Sys → List ℕ → List ℕ → Outcome (ℤ × Sys)
unfolding resolve
do_vlink e s oldpath newpath =
    resolve e s oldpath >>= λ (o, p). resolve e s newpath >>= λ (_, q). link_in e s o p q

-- `filp[fd]->dev_index = index` for any descriptor but -1. C leaves an index below -1
-- undefined: the element is memory in front of the array. Here it is a fault.
abbrev pub set_dev : ℤ → ℕ → Sys → Outcome (ℤ × Sys)
set_dev (negsuc zero) index s = ok (minus_1, s)
set_dev (negsuc (suc n)) index s = fault
set_dev (pos fd) index s = desc_of s fd >>= λ (k, d).
    ok (pos fd, record s { table = set s.table k (record d { dev_index = index }) })

abbrev pub open_in : Env → Sys → ℕ → Option ℕ × List ℕ → Outcome (ℤ × Sys)
open_in e s flags (none, p) = ok (minus_1, s)
open_in e s flags (some i, p) =
    (entry (vfs_ops e) i >>= λ o. called o.open_file >>= λ f. f s p flags) >>= λ (fd, s').
    set_dev fd i s'

unfoldable pub do_vopen : Env → Sys → List ℕ → ℕ → Outcome (ℤ × Sys)
unfolding resolve
do_vopen e s path flags = resolve e s path >>= open_in e s flags

-- `vfs_table[filp[fd]->dev_index].op`
abbrev pub ops_of : Env → Sys → ℕ → Outcome FileOp
ops_of e s fd = desc_of s fd >>= λ (k, d). entry (vfs_ops e) d.dev_index

unfoldable pub do_vclose : Env → Sys → ℕ → Outcome (ℤ × Sys)
do_vclose e s fd = ops_of e s fd >>= λ o. called o.close >>= λ f. f s (pos fd)

unfoldable pub do_vread : Env → Sys → ℕ → ℕ → Outcome (ℤ × List ℕ × Sys)
do_vread e s fd count = ops_of e s fd >>= λ o. called o.read >>= λ f. f s fd count

unfoldable pub do_vlseek : Env → Sys → ℕ → ℤ → ℕ → Outcome (ℤ × Sys)
do_vlseek e s fd offset whence = ops_of e s fd >>= λ o. called o.lseek >>= λ f. f s fd offset whence

abbrev pub is_count : ℤ → ℕ → Bool
is_count (pos a) n = a == n
is_count (negsuc a) n = false

-- The most bytes of a piece, the size of the array `s` of `do_vwrite`.
abbrev pub piece_max : ℕ
piece_max = 512

-- The loop of `do_vwrite`, for the function pointer `write`: pieces of `piece_max` bytes at most.
unfoldable pub write_pieces :
    ℕ → (Sys → ℕ → List ℕ → Outcome (ℤ × Sys)) → Sys → ℕ → ℕ → List ℕ → Outcome (ℤ × Sys)
write_pieces zero write s fd count bytes = no_fuel
write_pieces (suc fuel) write s fd count [] = ok (pos count, s)
write_pieces (suc fuel) write s fd count (b ∷ bytes) =
    let piece = take piece_max (b ∷ bytes) in
    write s fd piece >>= λ (r, s'). elim (is_count r (length piece)) [
      | true ↦ write_pieces fuel write s' fd count (drop piece_max (b ∷ bytes))
      | false ↦ ok (r, s')
    ]

-- The loop from the start. The function pointer is only called where there is a byte to write.
abbrev pub write_all : Sys → ℕ → List ℕ → FileOp → Outcome (ℤ × Sys)
write_all s fd [] o = ok (pos 0, s)
write_all s fd (b ∷ bytes) o = called o.write >>= λ f.
    write_pieces (suc (length (b ∷ bytes))) f s fd (length (b ∷ bytes)) (b ∷ bytes)

-- `do_vwrite`, for the `count` bytes of the buffer.
unfoldable pub do_vwrite : Env → Sys → ℕ → List ℕ → Outcome (ℤ × Sys)
do_vwrite e s fd bytes = ops_of e s fd >>= write_all s fd bytes
