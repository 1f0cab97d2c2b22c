-- ===== src/Memman/RoundTrip.antt =====
-- Freeing what an allocator of kernel/memman.c has just returned gives the free list back.
use exp_memfs.Base.{
  ◌≢◌, minus_one, length, ℕ, ◌+◌, ◌≤◌, ◌<◌, ◌≡◌, Bool, true, Option, none, some, List, [], ◌∷◌,
  arith, Bool-cases, ◌^◌, suc, inl, inr, ltb,
}
use exp_memfs.Memman.{
  Memman, alloc_from, settle, memman_free, memman_frees, FreeInfo, cut, fits, keep,
}
use exp_memfs.Memman.Region.{Region, low, high, amount, request, request-eq-settle, amount_pos}
use exp_memfs.Memman.View.{Gapped}
use exp_memfs.Memman.Alloc.{alloc_from-Took, Took}
use exp_memfs.Memman.Release.{release, cons_some}
use exp_memfs.Memman.Free.{IsValid, memman_free-eq-finish, finish}
use exp_memfs.Base.{refl, ◌∙◌}

module _ (lo hi n : ℕ) (pos : 0 < n) where
  -- Where the list got shorter there is room in the table.
  abbrev pub Restores : Bool → List FreeInfo → Option (ℕ × List FreeInfo) → Type 0
  Restores room xs none = Unit {0}
  Restores room xs (some (a, r)) =
      (length r ≤ length xs) × ((length r < length xs → room ≡ true) → release room a n r ≡ some xs)

  release_behind :
      (room : Bool) (a : ℕ) (e : FreeInfo) (r : List FreeInfo)
      → e.addr + e.size + 1 ≤ a
      → e.addr + e.size < 2 ^ 32
      → release room a n (e ∷ r) ≡ cons_some e (release room a n r)
  unfolding release
  release_behind room a e r h b = ground arith

  release-cut :
      (room : Bool) (e : FreeInfo) (es : List FreeInfo)
      → n ≤ e.size
      → e.addr + e.size < 2 ^ 32
      → Gapped (e.addr + e.size + 1) es
      → (length (cut n e es) < suc (length es) → room ≡ true)
      → release room e.addr n (cut n e es) ≡ some (e ∷ es)
  unfolding release
  release-cut room e [] h b g r = ground arith
  release-cut room e (f ∷ es) h b g r = ground arith

  length-cut : (e : FreeInfo) (es : List FreeInfo) → length (cut n e es) ≤ suc (length es)
  length-cut e es = ground arith

  keep-Restores :
      (room : Bool) (e : FreeInfo) (es : List FreeInfo) (o : Option (ℕ × List FreeInfo))
      → e.addr + e.size < 2 ^ 32
      → Took lo hi n (e.addr + e.size + 1) es o
      → Restores room es o
      → Restores room (e ∷ es) (keep e o)
  keep-Restores room e es none b t h = tt
  keep-Restores room e es (some (a, r)) b t h =
      (omega arith, λ l. rw (release_behind room a e r t.1 b, h.1 (λ k. l (omega arith))))

  alloc_from-Restores :
      (room : Bool) (k : ℕ) (xs : List FreeInfo)
      → Gapped k xs
      → Restores room xs (alloc_from lo hi n xs)
  unfolding alloc_from
  alloc_from-Restores room k [] g = tt
  alloc_from-Restores room k (e ∷ es) g = elim (Bool-cases (fits lo hi n e)) [
    | inl here ↦ rw here (length-cut e es, release-cut room e es (ground arith) g.2 g.3)
    | inr later ↦ rw later (
        keep-Restores room e es (alloc_from lo hi n es) g.2
          (alloc_from-Took lo hi n (e.addr + e.size + 1) es g.3)
          (alloc_from-Restores room (e.addr + e.size + 1) es g.3))
  ]

  finish-settle :
      (m : Memman) (o : Option (ℕ × List FreeInfo))
      → IsValid m
      → Restores (ltb (length (settle m o).1.free) memman_frees) m.free o
      → (settle m o).0 ≢ minus_one
      → finish (settle m o).1 n (
          release
            (ltb (length (settle m o).1.free) memman_frees)
            (settle m o).0
            n
            (settle m o).1.free)
        ≡ (0, m)
  finish-settle m none v r ne = absurd (ne refl)
  finish-settle m (some (a, f)) v r ne =
      rw (r.1 (λ l. ground (arith, v.room))) (ground (arith, v.mark, r.0))

  free_after_settle :
      (m : Memman)
      → IsValid m
      → (settle m (alloc_from lo hi n m.free)).0 ≢ minus_one
      → memman_free
          (settle m (alloc_from lo hi n m.free)).1
          (settle m (alloc_from lo hi n m.free)).0
          n
        ≡ (0, m)
  free_after_settle m v ne =
      let o = alloc_from lo hi n m.free in
      let m' = (settle m o).1 in
      memman_free-eq-finish m' (settle m o).0 n pos
      ∙ finish-settle m o v
          (alloc_from-Restores (ltb (length m'.free) memman_frees) 0 m.free v.list) ne

-- In a valid manager, freeing the block that an allocator has just returned, which was not -1,
-- restores the manager exactly, whichever of the four allocators it was and whether or not the
-- entry was used up.
pub free_undoes_alloc :
    (g : Region) (m : Memman) (n : ℕ)
    → IsValid m
    → 0 < n
    → (request g m n).0 ≢ minus_one
    → memman_free (request g m n).1 (request g m n).0 (amount g n) ≡ (0, m)
free_undoes_alloc g m n v pos =
    rw (request-eq-settle g m n)
      (free_after_settle (low g) (high g) (amount g n) (amount_pos g n pos) m v)
