-- ===== src/Paging/Correct.antt =====
-- `lin_mapping_phy` of kernel/pagetbl.c: the page asked for is mapped, and nothing else changes.
use mathlib.Core.Bool.{true≢false}
use mathlib.Core.Path.{ap₂}
use exp_memfs.Base.{
  ◌==◌, if◌then◌else◌, ℕ, ◌+◌, ◌%◌, ◌^◌, ◌<◌, ◌≡◌, refl, sym, ap, ◌∙◌, ◌≢◌, inl, inr, true, false,
  ◌&&◌, some, arith,
}
use Prim.Native.Nat.{bit_or}
use exp_memfs.Memman.{memman_kalloc_4k}
use exp_memfs.Memman.View.{is_free}
use exp_memfs.Paging.{
  Mmu, frame, slot, is_odd, get_pde_index, get_pte_index, pte_exist, write_page_pte,
}
use exp_memfs.Paging.Space.{leaf, look, upd}
use exp_memfs.Paging.Write.{look-write, look-new, new-Tables, view, at_new, dir_kept, Tables-cong}
use exp_memfs.Paging.Alloc.{IsUsed, Page}
use exp_memfs.Paging.Map.{IsPaged, Found, flagged, made}

module _ (s : Mmu) (pid a f : ℕ) (g : IsPaged s pid) (small : a < 2 ^ 32) (flag : f < 4096)
    (odd : is_odd f ≡ true) where
  pub Found-old :
      pte_exist s (frame (s.cr3 pid)) a ≡ true
      → Found s pid a (frame (s.word (slot (frame (s.cr3 pid)) (get_pde_index a)))) s
  Found-old e = record { paged = g; on = e; names = refl; same = λ i j h m. refl }

  module _ (e : pte_exist s (frame (s.cr3 pid)) a ≡ false)
      (n : Page s.man (memman_kalloc_4k s.man)) where
    abbrev p : ℕ
    p = (memman_kalloc_4k s.man).0

    abbrev v : ℕ
    v = bit_or (frame p) f

    index_small : get_pde_index a < 1024
    index_small = omega arith

    names_p : frame v ≡ p
    names_p = (flagged p f flag odd).0 ∙ omega (arith, n.page)

    -- The new page is none that is used.
    apart_from : (q : ℕ) → IsUsed q s.man.free → p ≢ q
    apart_from q u e = true≢false (
        sym (n.block.was_free 0 (omega arith))
        ∙ ap (λ x. is_free (x + 0) s.man.free) e
        ∙ u 0 (omega arith))

    not_dir : p ≢ frame (s.cr3 pid)
    not_dir q = apart_from (frame (s.cr3 pid)) g.dir_used q

    not_table :
        (i : ℕ)
        → i < 1024
        → is_odd (s.word (slot (frame (s.cr3 pid)) i)) ≡ true
        → frame (s.word (slot (frame (s.cr3 pid)) i)) ≢ p
    not_table i h o q =
        apart_from (frame (s.word (slot (frame (s.cr3 pid)) i))) (g.tables_used i h o) (sym q)

    odd_v : is_odd v ≡ true
    odd_v = (flagged p f flag odd).1

    entry_new :
        (made s pid a f g small flag odd).word (slot (frame (s.cr3 pid)) (get_pde_index a)) ≡ v
    entry_new =
        at_new s.word (frame (s.cr3 pid)) (get_pde_index a) p v g.tables index_small e n.page
          not_dir not_table names_p odd_v

    made-IsPaged : IsPaged (made s pid a f g small flag odd) pid
    made-IsPaged = record {
      has_dir = g.has_dir;
      tables =
          new-Tables s.word (frame (s.cr3 pid)) (get_pde_index a) p v g.tables index_small e n.page
            not_dir not_table names_p odd_v;
      free_list = n.block.still_list;
      dir_used = λ x l. n.block.others (frame (s.cr3 pid) + x) (g.dir_used x l);
      tables_used = λ i h o x l.
          elim (view s.word (frame (s.cr3 pid)) (get_pde_index a) p v g.tables index_small e n.page
            not_dir not_table names_p odd_v i h) [
              | inl (_, q) ↦
                  ap (λ t. is_free (t + x) (memman_kalloc_4k s.man).1.free) (ap frame q ∙ names_p)
                  ∙ n.block.taken x l
              | inr (_, q) ↦
                  ap (λ t. is_free (t + x) (memman_kalloc_4k s.man).1.free) (ap frame q)
                  ∙ n.block.others (frame (s.word (slot (frame (s.cr3 pid)) i)) + x)
                      (g.tables_used i h (ap is_odd (sym q) ∙ o) x l)
            ];
    }

    pub Found-new : Found s pid a p (made s pid a f g small flag odd)
    Found-new = record {
      paged = made-IsPaged;
      on = ap is_odd entry_new ∙ odd_v;
      names = ap frame entry_new ∙ names_p;
      same =
          look-new s.word (frame (s.cr3 pid)) (get_pde_index a) p v g.tables index_small e n.page
            not_dir not_table names_p odd_v;
    }

-- The write of the page into the table found.
module _ (s : Mmu) (pid a t : ℕ) (s1 : Mmu) (x : Found s pid a t s1) (small : a < 2 ^ 32)
    (phy f : ℕ) (whole : phy % 4096 ≡ 0) (flag : f < 4096) (odd : is_odd f ≡ true) where
  abbrev d1 : ℕ
  d1 = frame (s1.cr3 pid)

  -- The words after the write, by the entry of the directory.
  abbrev after : ℕ → ℕ
  after =
      upd s1.word (slot (frame (s1.word (slot d1 (get_pde_index a)))) (get_pte_index a))
        (bit_or (frame phy) f)

  abbrev pub s2 : Mmu
  s2 = write_page_pte s1 t a phy f

  s2_word : s2.word ≡ after
  s2_word = ap (λ q. upd s1.word (slot q (get_pte_index a)) (bit_or (frame phy) f)) (sym x.names)

  leaf_new : leaf (bit_or (frame phy) f) ≡ some phy
  leaf_new = rw ((flagged phy f flag odd).1, (flagged phy f flag odd).0) (ap some (omega arith))

  pde_small : get_pde_index a < 1024
  pde_small = omega arith

  pte_small : get_pte_index a < 1024
  pte_small = omega arith

  pub look_after :
      (i j : ℕ)
      → i < 1024
      → j < 1024
      → look s2.word d1 i j ≡ (
          if (i == get_pde_index a) && (j == get_pte_index a)
          then some phy
          else look s.word (frame (s.cr3 pid)) i j)
  look_after i j h m =
      ap (λ w. look w d1 i j) s2_word
      ∙ look-write s1.word d1 (get_pde_index a) (get_pte_index a) (bit_or (frame phy) f)
          x.paged.tables pde_small pte_small x.on i j h m
      ∙ ap₂ (λ l r. if (i == get_pde_index a) && (j == get_pte_index a) then l else r) leaf_new
          (x.same i j h m)

  entry_kept : (i : ℕ) → i < 1024 → s2.word (slot d1 i) ≡ s1.word (slot d1 i)
  entry_kept i h =
      ap (λ w. w (slot d1 i)) s2_word
      ∙ dir_kept s1.word d1 (get_pde_index a) (get_pte_index a) (bit_or (frame phy) f)
          x.paged.tables pde_small pte_small x.on i h

  pub s2-IsPaged : IsPaged s2 pid
  s2-IsPaged = record {
    has_dir = x.paged.has_dir;
    tables = Tables-cong s1.word s2.word d1 entry_kept x.paged.tables;
    free_list = x.paged.free_list;
    dir_used = x.paged.dir_used;
    tables_used = λ i h o y l.
        ap (λ q. is_free (frame q + y) s1.man.free) (entry_kept i h)
        ∙ x.paged.tables_used i h (ap is_odd (sym (entry_kept i h)) ∙ o) y l;
  }
