-- ===== src/Paging/Map.antt =====
-- `lin_mapping_phy` of kernel/pagetbl.c over a directory whose tables are pages of their own.
use exp_memfs.Base.{
  ◌==◌, minus_one, ok, fault, ℕ, ◌^◌, ◌<◌, ◌≡◌, refl, true, false, Option, none, some, arith,
}
use Prim.Native.Nat.{bit_or}
use exp_memfs.Memman.{memman_kalloc_4k}
use exp_memfs.Memman.View.{IsFreeList}
use exp_memfs.Paging.{
  Mmu, frame, slot, is_odd, is_bad, get_pde_index, get_pte_index, get_pde_phy_addr, pte_exist,
  find_table, new_page, clear_page,
}
use exp_memfs.Paging.Flags.{or_flags}
use exp_memfs.Paging.Space.{look, IsPage, Tables, upd, clear}
use exp_memfs.Paging.Alloc.{IsUsed, Block, Page}

-- A process with a directory. No byte of its directory and of its tables is free, and the memory manager
-- is well formed.
pub record IsPaged (s : Mmu) (pid : ℕ) : Type 0 where
  pub has_dir : (s.cr3 pid == 0) ≡ false
  pub tables : Tables s.word (frame (s.cr3 pid))
  pub free_list : IsFreeList s.man.free
  pub dir_used : IsUsed (frame (s.cr3 pid)) s.man.free
  pub tables_used :
      (i : ℕ)
      → i < 1024
      → is_odd (s.word (slot (frame (s.cr3 pid)) i)) ≡ true
      → IsUsed (frame (s.word (slot (frame (s.cr3 pid)) i))) s.man.free

-- The physical page that a process's tables give an address.
abbrev pub page_of : Mmu → ℕ → ℕ → Option ℕ
page_of s pid a = look s.word (get_pde_phy_addr s pid) (get_pde_index a) (get_pte_index a)

-- The entry that names page `p`, with flags.
pub flagged :
    (x f : ℕ)
    → f < 4096
    → is_odd f ≡ true
    → (frame (bit_or (frame x) f) ≡ frame x) × (is_odd (bit_or (frame x) f) ≡ true)
flagged x f h o = rw (or_flags x f h) (omega arith, ground arith)

-- The table found or made for address `a`: no page that was mapped before is mapped otherwise.
pub record Found (s : Mmu) (pid a t : ℕ) (s1 : Mmu) : Type 0 where
  pub paged : IsPaged s1 pid
  pub on : is_odd (s1.word (slot (frame (s1.cr3 pid)) (get_pde_index a))) ≡ true
  pub names : frame (s1.word (slot (frame (s1.cr3 pid)) (get_pde_index a))) ≡ t
  pub same :
      (i j : ℕ)
      → i < 1024
      → j < 1024
      → look s1.word (frame (s1.cr3 pid)) i j ≡ look s.word (frame (s.cr3 pid)) i j

pub new_page_none : (s : Mmu) → (memman_kalloc_4k s.man).0 ≡ minus_one → new_page s ≡ fault
unfolding new_page
new_page_none s n = rw n refl

pub new_page_some :
    (s : Mmu)
    → Block s.man (memman_kalloc_4k s.man)
    → new_page s
      ≡ ok (
        (memman_kalloc_4k s.man).0,
        clear_page (record s { man = (memman_kalloc_4k s.man).1 }) (memman_kalloc_4k s.man).0,
      )
unfolding new_page
new_page_some s n = rw there refl
  where
    there : ((memman_kalloc_4k s.man).0 == minus_one) ≡ false
    there = ground (arith, n.below)

pub good_page : (p : ℕ) → IsPage p → is_bad p ≡ false
good_page p h = ground (arith, h)

module _ (s : Mmu) (pid a f : ℕ) (g : IsPaged s pid) (small : a < 2 ^ 32) (flag : f < 4096)
    (odd : is_odd f ≡ true) where
  abbrev d : ℕ
  d = frame (s.cr3 pid)

  pub dir_at : get_pde_phy_addr s pid ≡ d
  dir_at = rw g.has_dir refl

  pub find_old :
      pte_exist s d a ≡ true
      → find_table s pid a f ≡ ok (some (frame (s.word (slot d (get_pde_index a)))), s)
  unfolding find_table
  find_old e = rw (find_table, dir_at, e, dir_at) refl

  pub find_none :
      pte_exist s d a ≡ false
      → (memman_kalloc_4k s.man).0 ≡ minus_one
      → find_table s pid a f ≡ fault
  unfolding find_table new_page
  find_none e n = rw (find_table, dir_at, e, new_page_none s n) refl

  -- The state with a new table.
  abbrev pub made : Mmu
  made = record s {
    man = (memman_kalloc_4k s.man).1;
    word =
        upd (clear s.word (memman_kalloc_4k s.man).0) (slot d (get_pde_index a))
          (bit_or (frame (memman_kalloc_4k s.man).0) f);
  }

  pub find_new :
      pte_exist s d a ≡ false
      → Page s.man (memman_kalloc_4k s.man)
      → find_table s pid a f ≡ ok (some (memman_kalloc_4k s.man).0, made)
  unfolding find_table new_page
  find_new e n =
      rw (find_table, dir_at, e, dir_at, new_page_some s n.block)
        (rw (good_page (memman_kalloc_4k s.man).0 n.page) refl)

  -- The state in which a block that is no page is given up.
  abbrev pub wasted : Mmu
  wasted = record s {
    man = (memman_kalloc_4k s.man).1;
    word = clear s.word (memman_kalloc_4k s.man).0;
  }

  pub find_bad :
      pte_exist s d a ≡ false
      → Block s.man (memman_kalloc_4k s.man)
      → is_bad (memman_kalloc_4k s.man).0 ≡ true
      → find_table s pid a f ≡ ok (none, wasted)
  unfolding find_table new_page
  find_bad e n b = rw (find_table, dir_at, e, dir_at, new_page_some s n) (rw b refl)
