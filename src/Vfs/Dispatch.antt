-- ===== src/Vfs/Dispatch.antt =====
-- The calls of kernel/vfs.c that take a path, for absolute paths.
use exp_memfs.Base.{length, ◌>>=◌, ℕ, ◌<◌, ◌≡◌, ap, some, List, arith}
use exp_memfs.Ramfs.File.{Sys}
use exp_memfs.Ramfs.Ops.{
  rf_open, rf_create, rf_create_dir, rf_delete, rf_delete_dir, rf_unlink, max_path,
}
use exp_memfs.Vfs.{
  Env, on_ram, vfs_ops, f_op_table, set_dev, do_vcreate, do_vdelete, do_vunlink, do_vdeletedir,
  do_vcreatedir, do_vmkdir, do_vopen, dispatch, open_in,
}
use exp_memfs.Vfs.Route.{NoNul, path_in, nr_fs, locate-path_in, resolve-path_in}

module _ (e : Env) (s : Sys) (i : ℕ) (p : List ℕ) (l : i < nr_fs) (h : NoNul p)
    (fits : length (path_in i p) < max_path) where
  pub create-in : do_vcreate e s (path_in i p) ≡ dispatch (vfs_ops e) (λ o. o.create) s (some i, p)
  unfolding do_vcreate
  create-in =
      ap (λ m. m >>= dispatch (vfs_ops e) (λ o. o.create) s) (resolve-path_in e s i p l h fits)

  pub delete-in : do_vdelete e s (path_in i p) ≡ dispatch (vfs_ops e) (λ o. o.delete) s (some i, p)
  unfolding do_vdelete
  delete-in =
      ap (λ m. m >>= dispatch (vfs_ops e) (λ o. o.delete) s) (locate-path_in e s i p l h fits)

  pub unlink-in : do_vunlink e s (path_in i p) ≡ dispatch (vfs_ops e) (λ o. o.unlink) s (some i, p)
  unfolding do_vunlink
  unlink-in =
      ap (λ m. m >>= dispatch (vfs_ops e) (λ o. o.unlink) s) (resolve-path_in e s i p l h fits)

  pub deletedir-in :
      do_vdeletedir e s (path_in i p) ≡ dispatch (vfs_ops e) (λ o. o.deletedir) s (some i, p)
  unfolding do_vdeletedir
  deletedir-in =
      ap (λ m. m >>= dispatch (vfs_ops e) (λ o. o.deletedir) s) (resolve-path_in e s i p l h fits)

  pub createdir-in :
      do_vcreatedir e s (path_in i p) ≡ dispatch (f_op_table e) (λ o. o.createdir) s (some i, p)
  unfolding do_vcreatedir
  createdir-in =
      ap (λ m. m >>= dispatch (f_op_table e) (λ o. o.createdir) s) (locate-path_in e s i p l h fits)

  pub mkdir-in : do_vmkdir e s (path_in i p) ≡ dispatch (vfs_ops e) (λ o. o.createdir) s (some i, p)
  unfolding do_vmkdir
  mkdir-in = rw (resolve-path_in e s i p l h fits)

  pub open-in : (flags : ℕ) → do_vopen e s (path_in i p) flags ≡ open_in e s flags (some i, p)
  unfolding do_vopen
  open-in flags = ap (λ m. m >>= open_in e s flags) (resolve-path_in e s i p l h fits)

-- The calls on the absolute path "/ram/<p>" of at most 127 bytes, where `p` holds no NUL, are the
-- operations of the RAM file system on `p`: create, delete, unlink, mkdir, deletedir, and open, which
-- also sets the index of the file system in the descriptor.
pub ram_calls :
    (e : Env) (s : Sys) (p : List ℕ) (flags : ℕ)
    → NoNul p
    → length (path_in 5 p) < max_path
    → (do_vcreate e s (path_in 5 p) ≡ rf_create s p)
      × (do_vdelete e s (path_in 5 p) ≡ on_ram s (rf_delete s.ram p))
      × (do_vunlink e s (path_in 5 p) ≡ on_ram s (rf_unlink s.ram p))
      × (do_vmkdir e s (path_in 5 p) ≡ rf_create_dir s p)
      × (do_vdeletedir e s (path_in 5 p) ≡ on_ram s (rf_delete_dir s.ram p))
      × (do_vopen e s (path_in 5 p) flags ≡ (rf_open s p flags >>= λ (fd, s'). set_dev fd 5 s'))
ram_calls e s p flags h fits = (
  create-in e s 5 p (omega arith) h fits,
  delete-in e s 5 p (omega arith) h fits,
  unlink-in e s 5 p (omega arith) h fits,
  mkdir-in e s 5 p (omega arith) h fits,
  deletedir-in e s 5 p (omega arith) h fits,
  open-in e s 5 p (omega arith) h fits flags,
)
