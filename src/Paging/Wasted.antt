-- ===== src/Paging/Wasted.antt =====
-- A block that `lin_mapping_phy` of kernel/pagetbl.c gives up: it is cleared, and no table with it.
use exp_memfs.Base.{
  ltb, leb, if◌then◌else◌, Bool-cases, ℕ, ◌+◌, ◌-◌, ◌*◌, ◌^◌, ◌≤◌, ◌<◌, ◌≡◌, refl, sym, ap, ◌∙◌,
  ◌⊎◌, inl, inr, true, false, ◌&&◌, none, arith,
}
use mathlib.Core.Bool.{true≢false}
use exp_memfs.Memman.{memman_kalloc_4k}
use exp_memfs.Memman.View.{is_free}
use exp_memfs.Ramfs.{k_phy2lin}
use exp_memfs.Paging.{page_size, Mmu, frame, slot, is_odd}
use exp_memfs.Paging.Space.{leaf, look, IsPage, clear}
use exp_memfs.Paging.Write.{Tables-cong}
use exp_memfs.Paging.Alloc.{IsUsed, Block}
use exp_memfs.Paging.Map.{IsPaged, wasted}

module _ (s : Mmu) (pid a f : ℕ) (g : IsPaged s pid) (small : a < 2 ^ 32) (flag : f < 4096)
    (odd : is_odd f ≡ true) (n : Block s.man (memman_kalloc_4k s.man)) where
  abbrev p : ℕ
  p = (memman_kalloc_4k s.man).0

  abbrev d : ℕ
  d = frame (s.cr3 pid)

  -- A byte of a used page is none of the block.
  not_inside : (t y : ℕ) → IsUsed t s.man.free → y < 4096 → p ≤ t + y → ¬ (t + y < p + 4096)
  not_inside t y u h l k = true≢false (
      sym (n.was_free (t + y - p) (omega (arith, l, k)))
      ∙ ap (λ x. is_free x s.man.free) (omega (arith, l))
      ∙ u y h)

  -- The words of a used page are kept.
  word_kept :
      (t i : ℕ)
      → IsPage t
      → IsUsed t s.man.free
      → i < 1024
      → clear s.word p (slot t i) ≡ s.word (slot t i)
  word_kept t i q u h =
      elim (Bool-cases (leb (k_phy2lin p) (slot t i) && ltb (slot t i) (k_phy2lin p + page_size))) [
        | inr e ↦ rw e refl
        | inl e ↦ absurd (not_inside t (4 * i) u (omega (arith, h)) (from e) (to e))
      ]
    where
      from :
          (leb (k_phy2lin p) (slot t i) && ltb (slot t i) (k_phy2lin p + page_size)) ≡ true
          → p ≤ t + 4 * i
      from e = ground (arith, e, q, h, n.below)

      to :
          (leb (k_phy2lin p) (slot t i) && ltb (slot t i) (k_phy2lin p + page_size)) ≡ true
          → t + 4 * i < p + 4096
      to e = ground (arith, e, q, h, n.below)

  entry_kept :
      (i : ℕ) → i < 1024 → (wasted s pid a f g small flag odd).word (slot d i) ≡ s.word (slot d i)
  entry_kept i h = word_kept d i g.tables.dir g.dir_used h

  pub wasted-IsPaged : IsPaged (wasted s pid a f g small flag odd) pid
  wasted-IsPaged = record {
    has_dir = g.has_dir;
    tables = Tables-cong s.word (wasted s pid a f g small flag odd).word d entry_kept g.tables;
    free_list = n.still_list;
    dir_used = λ x l. n.others (d + x) (g.dir_used x l);
    tables_used = λ i h o x l.
        ap (λ v. is_free (frame v + x) (memman_kalloc_4k s.man).1.free) (entry_kept i h)
        ∙ n.others (frame (s.word (slot d i)) + x)
            (g.tables_used i h (ap is_odd (sym (entry_kept i h)) ∙ o) x l);
  }

  pub wasted-look :
      (i j : ℕ)
      → i < 1024
      → j < 1024
      → look (wasted s pid a f g small flag odd).word d i j ≡ look s.word d i j
  wasted-look i j h m =
      ap
        (λ v.
          if is_odd v
          then leaf ((wasted s pid a f g small flag odd).word (slot (frame v) j))
          else none)
        (entry_kept i h)
      ∙ by_entry (Bool-cases (is_odd (s.word (slot d i))))
    where
      by_entry :
          (is_odd (s.word (slot d i)) ≡ true) ⊎ (is_odd (s.word (slot d i)) ≡ false)
          → (if is_odd (s.word (slot d i))
              then leaf
                  ((wasted s pid a f g small flag odd).word (slot (frame (s.word (slot d i))) j))
              else none)
            ≡ look s.word d i j
      by_entry (inr e) = rw e refl
      by_entry (inl e) = rw e (
          ap leaf (
            word_kept (frame (s.word (slot d i))) j (omega arith, g.tables.small i h e)
              (g.tables_used i h e) m))
