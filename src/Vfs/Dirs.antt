-- ===== src/Vfs/Dirs.antt =====
-- Opening and changing directories in kernel/vfs.c: `do_vopendir` and `do_vchdir`.
use exp_memfs.Base.{
  if◌then◌else◌, drop, ◌>>=◌, Outcome, ok, ℤ, pos, negsuc, ℕ, Bool, true, false, ◌||◌, Option, none,
  some, List, [], ◌∷◌,
}
use exp_memfs.Str.{strcmp}
use exp_memfs.Str.Compare.{text}
use exp_memfs.Ramfs.{minus_1}
use exp_memfs.Ramfs.File.{Sys}
use exp_memfs.Ramfs.Ops.{rf_open_dir}
use exp_memfs.Vfs.Path.{is_zero, slash, fs_names, find_fs, process_relative_path, get_index}
use exp_memfs.Vfs.{Env, FileOp, entry, called, vfs_ops, load}

-- `strcmp` with a constant gives 0.
abbrev pub same : List ℕ → List ℕ → Bool
unfolding strcmp
same a b = is_zero (strcmp a b)

abbrev pub slash_ram : List ℕ
slash_ram = b'/' ∷ b'r' ∷ b'a' ∷ b'm' ∷ []

abbrev pub opendir_in : Env → Sys → Option ℕ × List ℕ → Outcome (ℤ × Sys)
opendir_in e s (none, p) = ok (minus_1, s)
opendir_in e s (some i, p) =
    entry (vfs_ops e) i >>= λ o. elim o.opendir [ none ↦ ok (minus_1, s) | some f ↦ f s p ]

unfoldable pub do_vopendir : Env → Sys → List ℕ → Outcome (ℤ × Sys)
unfolding process_relative_path get_index rf_open_dir
do_vopendir e s path = load path >>= λ b. process_relative_path e.before s.cwd b >>= λ p.
    if same p slash
    then ok (pos 0, s)
    else if same p slash_ram
    then rf_open_dir s (b'.' ∷ [])
    else (get_index e.before s.cwd p >>= opendir_in e s)

abbrev pub set_cwd : Sys → List ℕ → Outcome (ℤ × Sys)
set_cwd s p = ok (pos 0, record s { cwd = p })

-- The directory is opened and closed again before it becomes `p`.
abbrev pub try_dir : FileOp → List ℕ → ℤ × Sys → Outcome (ℤ × Sys)
try_dir o p (negsuc n, s) = ok (minus_1, s)
try_dir o p (pos fd, s) = called o.close >>= λ f. f s (pos fd) >>= λ (_, s'). set_cwd s' p

abbrev pub chdir_in : Env → Sys → List ℕ → Option ℕ × List ℕ → Outcome (ℤ × Sys)
chdir_in e s p (none, q) = ok (minus_1, s)
chdir_in e s p (some i, q) =
    entry (vfs_ops e) i >>= λ o. called o.opendir >>= λ f. f s q >>= try_dir o p

-- `pathname + 1` is the name of a file system.
abbrev pub is_fs : List ℕ → Bool
unfolding find_fs
is_fs p = elim (find_fs (drop 1 p) fs_names 0) [ none ↦ false | some _ ↦ true ]

unfoldable pub do_vchdir : Env → Sys → List ℕ → Outcome (ℤ × Sys)
unfolding process_relative_path get_index
do_vchdir e s path = load path >>= λ b. process_relative_path e.before s.cwd b >>= λ p.
    if same p slash || is_fs p
    then set_cwd s (text p)
    else (get_index e.before s.cwd p >>= chdir_in e s (text p))
