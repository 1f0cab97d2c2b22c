-- ===== src/Vfs/Route.antt =====
-- Which file system a call of kernel/vfs.c reaches.
use exp_memfs.Base.{
  length, get_or, replicate, ◌>>=◌, ok, ℕ, zero, suc, ◌-◌, ◌<◌, ◌≡◌, refl, ap, ◌∙◌, some, List, [],
  ◌∷◌, ◌++◌, arith,
}
use exp_memfs.Str.Compare.{text}
use exp_memfs.Vfs.{Env, load, resolve, locate, strcmp, Sys, fs_names, max_path}
use exp_memfs.Vfs.Path.{buffer, cut_fs, process_relative_path, get_index}

-- A text without a NUL.
abbrev pub NoNul : List ℕ → Type 0
NoNul [] = Unit
NoNul (c ∷ p) = (0 < c) × NoNul p

text-zeros : (n : ℕ) → text (replicate n 0) ≡ []
text-zeros zero = refl
text-zeros (suc n) = refl

text-buffer : (n : ℕ) (p : List ℕ) → NoNul p → text (p ++ replicate n 0) ≡ p
text-buffer n [] h = text-zeros n
text-buffer n (c ∷ p) (h, hs) = ground (arith, text-buffer n p hs)

-- "/<name>/<p>" for the name at `i` in `vfs_table`.
abbrev pub path_in : ℕ → List ℕ → List ℕ
path_in i p = b'/' ∷ (get_or fs_names i [] ++ b'/' ∷ p)

abbrev pub nr_fs : ℕ
nr_fs = 6

-- A case for each file system.
by_fs {ℓ} : (P : ℕ → Type ℓ) → P 0 → P 1 → P 2 → P 3 → P 4 → P 5 → (i : ℕ) → i < nr_fs → P i
by_fs P a b c d e f zero l = a
by_fs P a b c d e f (suc zero) l = b
by_fs P a b c d e f (suc (suc zero)) l = c
by_fs P a b c d e f (suc (suc (suc zero))) l = d
by_fs P a b c d e f (suc (suc (suc (suc zero)))) l = e
by_fs P a b c d e f (suc (suc (suc (suc (suc zero))))) l = f
by_fs P a b c d e f (suc (suc (suc (suc (suc (suc i)))))) l = ground arith

cut_fs-path_in : (p : List ℕ) (i : ℕ) → i < nr_fs → cut_fs (path_in i p) ≡ ok (some i, p)
unfolding cut_fs exp_memfs.Str.strcmp
cut_fs-path_in p = by_fs (λ i. cut_fs (path_in i p) ≡ ok (some i, p)) refl refl refl refl refl refl

text-path_in :
    (n : ℕ) (p : List ℕ)
    → NoNul p
    → (i : ℕ) → i < nr_fs
    → text (path_in i p ++ replicate n 0) ≡ path_in i p
text-path_in n p h =
    by_fs (λ i. text (path_in i p ++ replicate n 0) ≡ path_in i p) (back 0) (back 1) (back 2)
      (back 3) (back 4) (back 5)
  where
    back : (i : ℕ) → path_in i (text (p ++ replicate n 0)) ≡ path_in i p
    back i = ap (path_in i) (text-buffer n p h)

get_index-path_in :
    (before i n : ℕ) (cwd p : List ℕ)
    → i < nr_fs
    → NoNul p
    → get_index before cwd (path_in i p ++ replicate n 0) ≡ ok (some i, p)
unfolding get_index process_relative_path
get_index-path_in before i n cwd p l h = ap cut_fs (text-path_in n p h i l) ∙ cut_fs-path_in p i l

load-path_in :
    (i : ℕ) (p : List ℕ)
    → length (path_in i p) < max_path
    → load (path_in i p) ≡ ok (buffer max_path (path_in i p))
load-path_in i p fits = ground arith

module _ (e : Env) (s : Sys) (i : ℕ) (p : List ℕ) (l : i < nr_fs) (h : NoNul p)
    (fits : length (path_in i p) < max_path) where
  -- What `locate` makes of an absolute path.
  pub locate-path_in : locate e s (path_in i p) ≡ ok (some i, p)
  unfolding locate
  locate-path_in =
      ap (λ m. m >>= get_index e.before s.cwd) (load-path_in i p fits)
      ∙ get_index-path_in e.before i (max_path - length (path_in i p)) s.cwd p l h

  pub resolve-path_in : resolve e s (path_in i p) ≡ ok (some i, p)
  unfolding resolve process_relative_path
  resolve-path_in =
      ap (λ m. m >>= (λ b. process_relative_path e.before s.cwd b >>= get_index e.before s.cwd))
        (load-path_in i p fits)
      ∙ get_index-path_in e.before i (max_path - length (path_in i p)) s.cwd p l h
