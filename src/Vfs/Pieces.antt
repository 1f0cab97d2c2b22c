-- ===== src/Vfs/Pieces.antt =====
-- `do_vwrite` of kernel/vfs.c, which hands the buffer to the file system in pieces.
use exp_memfs.Base.{
  length, take, drop, take-append-drop, length-drop, ◌>>=◌, Outcome, ok, ℤ, pos, ℕ, zero, suc, ◌≤◌,
  ◌<◌, ◌≡◌, refl, sym, ap, ◌∙◌, true, some, List, [], ◌∷◌, ◌++◌, arith,
}
use mathlib.Core.Path.{subst⁻¹}
use exp_memfs.Ramfs.File.{Sys}
use exp_memfs.Vfs.{Env, called, ops_of, is_count, piece_max, write_pieces, do_vwrite, FileOp}

is_count_self : (n : ℕ) → is_count (pos n) n ≡ true
is_count_self n = ground arith

append-nil : (xs : List ℕ) → xs ++ [] ≡ xs
append-nil [] = refl
append-nil (x ∷ xs) = ap (λ r. x ∷ r) (append-nil xs)

length-take_le : (n : ℕ) (xs : List ℕ) → length (take n xs) ≤ n
length-take_le zero xs = omega arith
length-take_le (suc n) [] = omega arith
length-take_le (suc n) (x ∷ xs) = omega (arith, length-take_le n xs)

module _ (write : Sys → ℕ → List ℕ → Outcome (ℤ × Sys)) (fd : ℕ) (Ready : Sys → List ℕ → Type 0)
    (after : Sys → List ℕ → Sys)
    (serves : (s : Sys) (a b : List ℕ)
      → 0 < length a
      → length a ≤ piece_max
      → Ready s (a ++ b)
      → write s fd a ≡ ok (pos (length a), after s a))
    (goes_on : (s : Sys) (a b : List ℕ) → 0 < length a → Ready s (a ++ b) → Ready (after s a) b)
    (joins : (s : Sys) (a b : List ℕ)
      → 0 < length a
      → 0 < length b
      → Ready s (a ++ b)
      → after (after s a) b ≡ after s (a ++ b)) where
  rest-after :
      (fuel : ℕ) (s : Sys) (count : ℕ) (a b : List ℕ)
      → 0 < length a
      → 0 < fuel
      → Ready s (a ++ b)
      → (0 < length b
          → write_pieces fuel write (after s a) fd count b ≡ ok (pos count, after (after s a) b))
      → write_pieces fuel write (after s a) fd count b ≡ ok (pos count, after s (a ++ b))
  unfolding write_pieces
  rest-after zero s count a b l m r ih = ground arith
  rest-after (suc fuel) s count a [] l m r ih =
      ap (λ t. ok (pos count, after s t)) (sym (append-nil a))
  rest-after (suc fuel) s count a (x ∷ b) l m r ih =
      ih (omega arith) ∙ ap (λ t. ok (pos count, t)) (joins s a (x ∷ b) l (omega arith) r)

  piece-after :
      (fuel : ℕ) (s : Sys) (count : ℕ) (x : ℕ) (bytes : List ℕ)
      → write s fd (take piece_max (x ∷ bytes))
        ≡ ok (pos (length (take piece_max (x ∷ bytes))), after s (take piece_max (x ∷ bytes)))
      → write_pieces (suc fuel) write s fd count (x ∷ bytes)
        ≡ write_pieces fuel write
            (after s (take piece_max (x ∷ bytes)))
            fd
            count
            (drop piece_max (x ∷ bytes))
  unfolding write_pieces
  piece-after fuel s count x bytes e =
      rw (e, ◌>>=◌, is_count_self (length (take piece_max (x ∷ bytes))))

  write_pieces-after :
      (fuel : ℕ) (s : Sys) (count : ℕ) (bytes : List ℕ)
      → length bytes < fuel
      → 0 < length bytes
      → Ready s bytes
      → write_pieces fuel write s fd count bytes ≡ ok (pos count, after s bytes)
  write_pieces-after zero s count bytes h l r = ground arith
  write_pieces-after (suc fuel) s count [] h l r = ground arith
  write_pieces-after (suc fuel) s count (b ∷ bytes) h l r =
      piece-after fuel s count b bytes (serves s piece rest (omega arith) short ready)
      ∙ rest-after fuel s count piece rest (omega arith) (omega arith) ready (λ m.
        write_pieces-after fuel (after s piece) count rest
          (omega (arith, length-drop piece_max (b ∷ bytes))) m
          (goes_on s piece rest (omega arith) ready))
      ∙ ap (λ t. ok (pos count, after s t)) whole
    where
      piece : List ℕ
      piece = take piece_max (b ∷ bytes)

      rest : List ℕ
      rest = drop piece_max (b ∷ bytes)

      whole : piece ++ rest ≡ b ∷ bytes
      whole = take-append-drop piece_max (b ∷ bytes)

      ready : Ready s (piece ++ rest)
      ready = subst⁻¹ (Ready s) whole r

      short : length piece ≤ piece_max
      short = length-take_le piece_max (b ∷ bytes)

  -- A file system that takes a piece at a time takes the whole buffer. `Ready s a` is what it needs
  -- to take `a` in the state `s`, and `after s a` the state in which it leaves.
  -- A call of do_vwrite on a descriptor of this file system never runs out of rounds.
  pub do_vwrite-after :
      (e : Env) (s : Sys) (o : FileOp) (bytes : List ℕ)
      → ops_of e s fd ≡ ok o
      → o.write ≡ some write
      → 0 < length bytes
      → Ready s bytes
      → do_vwrite e s fd bytes ≡ ok (pos (length bytes), after s bytes)
  unfolding do_vwrite
  do_vwrite-after e s o [] at w l r = ground arith
  do_vwrite-after e s o (b ∷ bytes) at w l r = rw (
    at,
    ◌>>=◌,
    w,
    called,
    write_pieces-after (suc (suc (length bytes))) s (suc (length bytes)) (b ∷ bytes) (omega arith) l
        r,
  )
