-- ===== src/Vfs/Tests.antt =====
-- The theorems on kernel/vfs.c at small states.
use exp_memfs.Base.{replicate, ◌>>=◌, ok, fault, pos, ℕ, ◌≡◌, refl, none, List, [], ◌∷◌, arith}
use exp_memfs.Str.Compare.{text}
use exp_memfs.Ramfs.File.{Sys, rf_write}
use exp_memfs.Ramfs.Ops.{rf_open, rf_create, rf_create_dir, rf_delete, rf_delete_dir, rf_unlink}
use exp_memfs.Ramfs.Tests.{entry, at, at-IsOpen, file-Covers}
use exp_memfs.Vfs.{
  Env, FileOp, on_ram, set_dev, do_vcreate, do_vdelete, do_vunlink, do_vdeletedir, do_vmkdir,
  do_vopen, do_vwrite,
}
use exp_memfs.Vfs.Path.{buffer, process_relative_path}
use exp_memfs.Vfs.Route.{path_in}
use exp_memfs.Vfs.Dispatch.{ram_calls}
use exp_memfs.Vfs.RamWrite.{do_vwrite-eq-rf_write}

-- "x/../a" below "/r" is "/r/a".
drops_dots :
    (process_relative_path 0
        (b'/' ∷ b'r' ∷ [])
        (buffer 16 (b'x' ∷ b'/' ∷ b'.' ∷ b'.' ∷ b'/' ∷ b'a' ∷ []))
      >>= λ p. ok (text p))
    ≡ ok (b'/' ∷ b'r' ∷ b'/' ∷ b'a' ∷ [])
unfolding process_relative_path exp_memfs.Str.strncmp
drops_dots = refl

-- "x/../../a" below "/r" writes in front of the path.
two_steps_up :
    process_relative_path 0
      (b'/' ∷ b'r' ∷ [])
      (buffer 16 (b'x' ∷ b'/' ∷ b'.' ∷ b'.' ∷ b'/' ∷ b'.' ∷ b'.' ∷ b'/' ∷ b'a' ∷ []))
    ≡ fault
unfolding process_relative_path exp_memfs.Str.strncmp
two_steps_up = refl

abbrev no_ops : FileOp
no_ops = record {
  create = none;
  delete = none;
  unlink = none;
  opendir = none;
  createdir = none;
  deletedir = none;
  open_file = none;
  close = none;
  read = none;
  write = none;
  lseek = none;
  link = none;
}

abbrev env : Env
env = record { tty = no_ops; orange = no_ops; fat32 = no_ops; before = 0 }

abbrev name : List ℕ
name = b'a' ∷ []

ram_calls_example :
    (do_vcreate env (at 0) (path_in 5 name) ≡ rf_create (at 0) name)
    × (do_vdelete env (at 0) (path_in 5 name) ≡ on_ram (at 0) (rf_delete (at 0).ram name))
    × (do_vunlink env (at 0) (path_in 5 name) ≡ on_ram (at 0) (rf_unlink (at 0).ram name))
    × (do_vmkdir env (at 0) (path_in 5 name) ≡ rf_create_dir (at 0) name)
    × (do_vdeletedir env (at 0) (path_in 5 name) ≡ on_ram (at 0) (rf_delete_dir (at 0).ram name))
    × (do_vopen env (at 0) (path_in 5 name) 2
        ≡ (rf_open (at 0) name 2 >>= λ (fd, s'). set_dev fd 5 s'))
ram_calls_example = ram_calls env (at 0) name 2 (omega arith, tt) (omega arith)

-- 600 bytes are two pieces.
abbrev two_pieces : List ℕ
two_pieces = replicate 600 7

do_vwrite-eq-rf_write_example :
    (rest : Sys) × (do_vwrite env (at 4094) 0 two_pieces ≡ ok (pos 600, rest))
    × (rf_write (at 4094) 0 two_pieces ≡ ok (pos 600, rest))
do_vwrite-eq-rf_write_example =
    do_vwrite-eq-rf_write env (at 4094) 5000 0 0 4094 entry two_pieces (at-IsOpen 4094) refl
      (omega arith) (omega arith) (omega arith) (file-Covers 5000 (omega arith))
