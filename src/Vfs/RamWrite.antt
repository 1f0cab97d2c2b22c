-- ===== src/Vfs/RamWrite.antt =====
-- `do_vwrite` of kernel/vfs.c on a file of the RAM file system: the pieces together.
use exp_memfs.Base.{
  ltb, ◌==◌, if◌then◌else◌, Bool-cases, length, get_or, set, length-append, length-set,
  get_or-set_self, ok, pos, ℕ, zero, suc, ◌+◌, ◌≤◌, ◌<◌, ◌≡◌, refl, sym, ap, ◌∙◌, inl, inr, true,
  false, ◌&&◌, List, [], ◌∷◌, ◌++◌, arith,
}
use mathlib.Core.Path.{fun_ext, ap₂}
use exp_memfs.Ramfs.{Ram, Ref}
use exp_memfs.Ramfs.Dir.{deref}
use exp_memfs.Ramfs.File.{
  Sys, Desc, no_desc, set_pos, size_of, advance_file, rf_write, has_rdwr, pointed,
}
use exp_memfs.Ramfs.File.Put.{put, put-append}
use exp_memfs.Ramfs.File.Read.{IsOpen, Covers}
use exp_memfs.Ramfs.File.Write.{rf_write-put}
use exp_memfs.Ramfs.Ops.{vfs_index_ramfs}
use exp_memfs.Vfs.{piece_max, Env, do_vwrite, ops_of, ram_ops}
use exp_memfs.Vfs.Pieces.{do_vwrite-after}

set-set {ℓ} : {A : Type ℓ} (xs : List A) (k : ℕ) (a b : A) → set (set xs k a) k b ≡ set xs k b
set-set [] k a b = refl
set-set (x ∷ xs) zero a b = refl
set-set (x ∷ xs) (suc k) a b = ap (λ r. x ∷ r) (set-set xs k a b)

-- The cells where the size of a file grows to `w` bytes.
grow : (ℕ → ℕ) → ℕ → ℕ → ℕ → ℕ
grow f q w x = if x == q && ltb (f q) w then w else f x

grow-kept : (f : ℕ → ℕ) (q w x : ℕ) → ltb (f q) w ≡ false → f x ≡ grow f q w x
unfolding grow
grow-kept f q w x h = ground arith

grow-moved :
    (f : ℕ → ℕ) (q w x : ℕ) → ltb (f q) w ≡ true → (if x == q then w else f x) ≡ grow f q w x
unfolding grow
grow-moved f q w x h = ground arith

grow-grow : (f : ℕ → ℕ) (q v w x : ℕ) → v < w → grow (grow f q v) q w x ≡ grow f q w x
unfolding grow
grow-grow f q v w x l = ground arith

-- What a write of `bytes` from `p` on leaves of the RAM file system.
written : Ram → Ref → ℕ → List ℕ → Ram
written s r p bytes = record s {
  mem = put s.fat (deref s r).start_cluster s.mem p bytes;
  cell = grow s.cell (deref s r).p_size (p + length bytes);
}

written-append :
    (s : Ram) (r : Ref) (p : ℕ) (a b : List ℕ)
    → 0 < length b
    → written (written s r p a) r (p + length a) b ≡ written s r p (a ++ b)
unfolding written
written-append s r p a b l =
    ap₂ (λ m c. record s { mem = m; cell = c })
      (sym (put-append s.fat (deref s r).start_cluster s.mem p a b))
      (fun_ext (λ x.
          grow-grow s.cell (deref s r).p_size (p + length a) (p + length a + length b) x
            (omega arith))
        ∙ ap (grow s.cell (deref s r).p_size) (omega (arith, length-append a b)))

advance_file-written :
    (s : Sys) (k : ℕ) (r : Ref) (p : ℕ) (bytes : List ℕ)
    → advance_file s k r p
        (length bytes)
        (record s.ram { mem = put s.ram.fat (deref s.ram r).start_cluster s.ram.mem p bytes })
      ≡ set_pos (record s { ram = written s.ram r p bytes }) k (p + length bytes)
unfolding written
advance_file-written s k r p bytes = elim (Bool-cases (ltb (size_of s.ram r) (p + length bytes))) [
  | inl h ↦
      rw h
        (ap to (fun_ext (λ x. grow-moved s.ram.cell (deref s.ram r).p_size (p + length bytes) x h)))
  | inr h ↦
      rw h
        (ap to (fun_ext (λ x. grow-kept s.ram.cell (deref s.ram r).p_size (p + length bytes) x h)))
]
  where
    to : (ℕ → ℕ) → Sys
    to c =
        set_pos
          (record s {
            ram = record s.ram {
              mem = put s.ram.fat (deref s.ram r).start_cluster s.ram.mem p bytes;
              cell = c;
            };
          })
          k (p + length bytes)

-- The state after `bytes` were written at the position of descriptor `k`.
after : ℕ → Ref → Sys → List ℕ → Sys
after k r s bytes = set_pos (record s { ram = written s.ram r p bytes }) k (p + length bytes)
  where
    p : ℕ
    p = (get_or s.table k no_desc).fd_pos

-- `fd` is open for writing on a file with clusters for its first `n` bytes, and `bytes` fits there.
record Fits (n fd k : ℕ) (r : Ref) (s : Sys) (bytes : List ℕ) : Type 0 where
  is_open : IsOpen s fd k (get_or s.table k no_desc).fd_pos r
  in_table : k < length s.table
  room : (get_or s.table k no_desc).fd_pos + length bytes ≤ n
  covers : Covers s.ram.fat (deref s.ram r).start_cluster n

-- The descriptor after a write of `n` bytes.
abbrev moved : Sys → ℕ → ℕ → Desc
moved s k n = record (get_or s.table k no_desc) { fd_pos = (get_or s.table k no_desc).fd_pos + n }

module _ (n fd k : ℕ) (r : Ref) where
  at_once :
      (s : Sys) (a : List ℕ)
      → 0 < length a
      → Fits n fd k r s a
      → rf_write s fd a ≡ ok (pos (length a), after k r s a)
  unfolding after
  at_once s a l f =
      rf_write-put s fd k (get_or s.table k no_desc).fd_pos n r a f.is_open l f.room f.covers
      ∙ ap (λ t. ok (pos (length a), t))
          (advance_file-written s k r (get_or s.table k no_desc).fd_pos a)

  serves :
      (s : Sys) (a b : List ℕ)
      → 0 < length a
      → length a ≤ piece_max
      → Fits n fd k r s (a ++ b)
      → rf_write s fd a ≡ ok (pos (length a), after k r s a)
  serves s a b l m f = at_once s a l (record {
    is_open = f.is_open;
    in_table = f.in_table;
    room = omega (arith, f.room, length-append a b);
    covers = f.covers;
  })

  goes_on :
      (s : Sys) (a b : List ℕ)
      → 0 < length a
      → Fits n fd k r s (a ++ b)
      → Fits n fd k r (after k r s a) b
  unfolding after written
  goes_on s a b l f = record {
    is_open = record {
      slot = f.is_open.slot;
      node = ap (λ d. d.fd_ram) self ∙ f.is_open.node;
      mode = ap (λ d. has_rdwr d.fd_mode) self ∙ f.is_open.mode;
      place = refl;
    };
    in_table = omega (arith, f.in_table, length-set s.table k (moved s k (length a)));
    room = omega (arith, f.room, ap (λ d. d.fd_pos) self, length-append a b);
    covers = f.covers;
  }
    where
      self : get_or (set s.table k (moved s k (length a))) k no_desc ≡ moved s k (length a)
      self = get_or-set_self s.table k (moved s k (length a)) no_desc f.in_table

  joins :
      (s : Sys) (a b : List ℕ)
      → 0 < length a
      → 0 < length b
      → Fits n fd k r s (a ++ b)
      → after k r (after k r s a) b ≡ after k r s (a ++ b)
  unfolding after
  joins s a b l m f =
      ap
        (λ d.
          state (written (written s.ram r p a) r d.fd_pos b)
            (set t k (record d { fd_pos = d.fd_pos + length b })))
        (get_or-set_self s.table k (moved s k (length a)) no_desc f.in_table)
      ∙ ap₂ state (written-append s.ram r p a b m) (
          set-set s.table k (moved s k (length a)) (at (p + length a + length b))
          ∙ ap (λ x. set s.table k (at x)) (omega (arith, length-append a b)))
    where
      p : ℕ
      p = (get_or s.table k no_desc).fd_pos

      t : List Desc
      t = set s.table k (moved s k (length a))

      at : ℕ → Desc
      at x = record (get_or s.table k no_desc) { fd_pos = x }

      state : Ram → List Desc → Sys
      state ram table = record s { ram = ram; table = table }

-- Writing a non-empty buffer by `do_vwrite` to an open file of the RAM file system, whose chain
-- already has clusters for its first `n` bytes, those of the buffer included, comes to what one
-- `rf_write` of the whole buffer does, in every part of the state: the pieces join without a gap, the
-- position and the size end behind the last byte, and the count returned is the buffer's.
pub do_vwrite-eq-rf_write :
    (e : Env) (s : Sys) (n fd k p : ℕ) (r : Ref) (bytes : List ℕ)
    → IsOpen s fd k p r
    → (get_or s.table k no_desc).dev_index ≡ vfs_index_ramfs
    → k < length s.table
    → 0 < length bytes
    → p + length bytes ≤ n
    → Covers s.ram.fat (deref s.ram r).start_cluster n
    → (rest : Sys) × (do_vwrite e s fd bytes ≡ ok (pos (length bytes), rest))
      × (rf_write s fd bytes ≡ ok (pos (length bytes), rest))
do_vwrite-eq-rf_write e s n fd k p r bytes o dev l m h has = (
  after k r s bytes,
  do_vwrite-after rf_write fd (Fits n fd k r) (after k r) (serves n fd k r) (goes_on n fd k r)
      (joins n fd k r) e s ram_ops bytes ops refl m fits,
  at_once n fd k r s bytes m fits,
)
  where
    fits : Fits n fd k r s bytes
    fits = record {
      is_open = record { slot = o.slot; node = o.node; mode = o.mode; place = refl };
      in_table = l;
      room = omega (arith, h, o.place);
      covers = has;
    }

    ops : ops_of e s fd ≡ ok ram_ops
    ops = rw (o.slot, pointed, dev) refl
