-- ===== src/Paging/Init.antt =====
-- `init_page_pte` of kernel/pagetbl.c: a new directory with the kernel's pages.
use exp_memfs.Base.{
  ltb, leb, ◌==◌, if◌then◌else◌, minus_one, ◌>>=◌, Outcome, ok, fault, ℤ, pos, negsuc, ℕ, zero, suc,
  ◌+◌, ◌-◌, ◌*◌, ◌/◌, ◌%◌, ◌^◌, ◌≤◌, ◌<◌, ◌≡◌, refl, sym, ap, ◌∙◌, ◌≢◌, ◌⊎◌, inl, inr, Bool, true,
  false, not, ◌&&◌, Option, none, some, arith,
}
use mathlib.Core.Path.{subst⁻¹}
use mathlib.Core.Bool.{true≢false}
use exp_memfs.Memman.{Memman, memman_kalloc_4k}
use exp_memfs.Memman.View.{is_free, IsFreeList}
use exp_memfs.Paging.{
  get_pde_index, get_pte_index, Mmu, frame, slot, is_odd, is_bad, new_page, lin_mapping_phy,
  clear_page,
}
use exp_memfs.Paging.Space.{look, IsPage, clear-slot}
use exp_memfs.Paging.Alloc.{Aligned, IsUsed, Page, kalloc-Block, kalloc-Aligned, Block-Page}
use exp_memfs.Paging.Map.{IsPaged, page_of, new_page_none, new_page_some, good_page}
use exp_memfs.Paging.Mapping.{page_of-eq, lin_mapping_phy_lem}

-- KernelLinBase, KernelSize / num_4K, and the two sets of flags
abbrev pub kernel_lin_base : ℕ
kernel_lin_base = 0xC0000000

abbrev pub kernel_pages : ℕ
kernel_pages = 0x8000

abbrev pub pde_flags : ℕ
pde_flags = 7

abbrev pub pte_flags : ℕ
pte_flags = 3

abbrev pub failed : ℤ → Bool
failed (pos n) = not (n == 0)
failed (negsuc n) = true

-- The loop over the kernel's pages, from page `j` on.
unfoldable pub map_kernel : ℕ → ℕ → ℕ → Mmu → Outcome (ℤ × Mmu)
unfolding lin_mapping_phy
map_kernel pid zero j s = ok (pos 0, s)
map_kernel pid (suc n) j s =
    lin_mapping_phy s (kernel_lin_base + 4096 * j) (4096 * j) pid pde_flags pte_flags >>= λ (r, s').
    elim (failed r) [ true ↦ ok (negsuc 0, s') | false ↦ map_kernel pid n (suc j) s' ]

abbrev pub set_cr3 : Mmu → ℕ → ℕ → Mmu
set_cr3 s pid p = record s { cr3 = λ q. if q == pid then p else s.cr3 q }

-- Behind the allocation of the directory.
unfoldable pub init_in : ℕ → ℕ × Mmu → Outcome (ℤ × Mmu)
unfolding map_kernel
init_in pid (p, s) = elim (is_bad p) [
  | true ↦ ok (negsuc 0, s)
  | false ↦ map_kernel pid kernel_pages 0 (set_cr3 s pid p)
]

unfoldable pub init_page_pte : Mmu → ℕ → Outcome (ℤ × Mmu)
init_page_pte s pid = new_page s >>= init_in pid

-- The memory manager after `k` pages were asked for.
abbrev pub given : ℕ → Memman → Memman
given zero m = m
given (suc k) m = given k (memman_kalloc_4k m).1

-- The pages of the kernel up to page `j`.
abbrev pub kernel_map : ℕ → ℕ → Option ℕ
kernel_map j b =
    if leb kernel_lin_base b && ltb b (kernel_lin_base + 4096 * j)
    then some ((b - kernel_lin_base) / 4096 * 4096)
    else none

kernel_map-suc :
    (j b : ℕ)
    → j < kernel_pages
    → b < 2 ^ 32
    → (if b / 4096 == (kernel_lin_base + 4096 * j) / 4096 then some (4096 * j) else kernel_map j b)
      ≡ kernel_map (suc j) b
kernel_map-suc j b h m = ground arith

-- How the loop may end: with all pages mapped, or with no page left for a table.
abbrev pub Done : ℕ → ℕ → Mmu → Outcome (ℤ × Mmu) → Type 0
Done pid j s r =
    ((r ≡ fault) × ((k : ℕ) × ((memman_kalloc_4k (given k s.man)).0 ≡ minus_one)))
    ⊎ ((s' : Mmu) × (r ≡ ok (pos 0, s'))
        × IsPaged s' pid
        × Aligned s'.man.free
        × ((b : ℕ) → b < 2 ^ 32 → page_of s' pid b ≡ kernel_map j b))

Done-took :
    (pid j : ℕ) (s s1 : Mmu) (r : Outcome (ℤ × Mmu))
    → (s1.man ≡ s.man) ⊎ (s1.man ≡ (memman_kalloc_4k s.man).1)
    → Done pid j s1 r
    → Done pid j s r
Done-took pid j s s1 r t (inr d) = inr d
Done-took pid j s s1 r (inl t) (inl (f, (k, short))) =
    inl (f, (k, ap (λ m. (memman_kalloc_4k (given k m)).0) (sym t) ∙ short))
Done-took pid j s s1 r (inr t) (inl (f, (k, short))) =
    inl (f, (suc k, ap (λ m. (memman_kalloc_4k (given k m)).0) (sym t) ∙ short))

map_kernel-next :
    (pid n j : ℕ) (s s1 : Mmu)
    → lin_mapping_phy s (kernel_lin_base + 4096 * j) (4096 * j) pid pde_flags pte_flags
      ≡ ok (pos 0, s1)
    → map_kernel pid (suc n) j s ≡ map_kernel pid n (suc j) s1
unfolding map_kernel
map_kernel-next pid n j s s1 f = rw f refl

map_kernel-fault :
    (pid n j : ℕ) (s : Mmu)
    → lin_mapping_phy s (kernel_lin_base + 4096 * j) (4096 * j) pid pde_flags pte_flags ≡ fault
    → map_kernel pid (suc n) j s ≡ fault
unfolding map_kernel
map_kernel-fault pid n j s f = rw f refl

-- A page that is given from whole pages is aligned, as the rest is.
given_page :
    (m : Memman)
    → Aligned m.free
    → (memman_kalloc_4k m).0 % 1024 ≡ 0
    → (memman_kalloc_4k m).0 % 4096 ≡ 0
given_page m al h = elim (kalloc-Aligned m al).1 [
  | inl e ↦ absurd (minus_odd (memman_kalloc_4k m).0 e h)
  | inr e ↦ e
]
  where
    minus_odd : (x : ℕ) → x ≡ minus_one → x % 1024 ≢ 0
    minus_odd x e h = omega (arith, e, h)

no_waste :
    (m : Memman)
    → Aligned m.free
    → (memman_kalloc_4k m).0 ≢ minus_one
    → (memman_kalloc_4k m).0 % 1024 ≡ 0
no_waste m al n = elim (kalloc-Aligned m al).1 [
  | inl e ↦ absurd (n e)
  | inr e ↦ whole (memman_kalloc_4k m).0 e
]
  where
    whole : (x : ℕ) → x % 4096 ≡ 0 → x % 1024 ≡ 0
    whole x h = omega (arith, h)

Aligned-took :
    (m m1 : Memman) → (m1 ≡ m) ⊎ (m1 ≡ (memman_kalloc_4k m).1) → Aligned m.free → Aligned m1.free
Aligned-took m m1 (inl e) al = subst⁻¹ (λ k. Aligned k.free) e al
Aligned-took m m1 (inr e) al = subst⁻¹ (λ k. Aligned k.free) e (kalloc-Aligned m al).0

map_kernel-Done :
    (pid n j last : ℕ) (s : Mmu)
    → n + j ≡ last
    → last ≤ kernel_pages
    → IsPaged s pid
    → Aligned s.man.free
    → ((b : ℕ) → b < 2 ^ 32 → page_of s pid b ≡ kernel_map j b)
    → Done pid last s (map_kernel pid n j s)
unfolding map_kernel
map_kernel-Done pid zero j last s q h g al e =
    inr (s, refl, g, al, λ b m. e b m ∙ ap (λ i. kernel_map i b) (omega arith))
map_kernel-Done pid (suc n) j last s q h g al e =
    elim (lin_mapping_phy_lem s pid (kernel_lin_base + 4096 * j) (4096 * j) pde_flags pte_flags g
      (omega arith) (omega arith) (omega arith) refl (omega arith) refl
      (λ _. given_page s.man al)) [
        | inl (_, short, f) ↦ inl (map_kernel-fault pid n j s f, (0, short))
        | inr (inl (_, any, off, _)) ↦ absurd (off (no_waste s.man al any))
        | inr (inr (s1, f, g1, maps, took)) ↦
            subst⁻¹ (Done pid last s) (map_kernel-next pid n j s s1 f) (
              Done-took pid last s s1 (map_kernel pid n (suc j) s1) took (
                map_kernel-Done pid n (suc j) last s1 (omega arith) h g1
                  (Aligned-took s.man s1.man took al)
                  (λ b m.
                    maps b m
                    ∙ ap
                        (λ o.
                          if b / 4096 == (kernel_lin_base + 4096 * j) / 4096
                          then some (4096 * j)
                          else o)
                        (e b m)
                    ∙ kernel_map-suc j b (omega arith) m)))
      ]

-- The state in which the loop begins.
abbrev begun : Mmu → ℕ → Mmu
begun s pid =
    set_cr3 (clear_page (record s { man = (memman_kalloc_4k s.man).1 }) (memman_kalloc_4k s.man).0)
      pid (memman_kalloc_4k s.man).0

init_in-begun :
    (s : Mmu) (pid : ℕ)
    → Page s.man (memman_kalloc_4k s.man)
    → init_page_pte s pid ≡ map_kernel pid kernel_pages 0 (begun s pid)
unfolding init_page_pte init_in
init_in-begun s pid n =
    rw (new_page_some s n.block, init_in, good_page (memman_kalloc_4k s.man).0 n.page) refl

module _ (s : Mmu) (pid p : ℕ) (at : s.cr3 pid ≡ p) (page : IsPage p) (above : 0 < p)
    (zeros : (i : ℕ) → i < 1024 → s.word (slot p i) ≡ 0) where
  dir_at : frame (s.cr3 pid) ≡ p
  dir_at = ap frame at ∙ omega (arith, page)

  no_table : (i : ℕ) → i < 1024 → is_odd (s.word (slot (frame (s.cr3 pid)) i)) ≢ true
  no_table i h o = true≢false (sym o ∙ ap is_odd (ap (λ d. s.word (slot d i)) dir_at ∙ zeros i h))

  fresh-IsPaged : IsFreeList s.man.free → IsUsed p s.man.free → IsPaged s pid
  fresh-IsPaged v u = record {
    has_dir = rw at (ground (arith, above));
    tables = record {
      dir = subst⁻¹ IsPage dir_at page;
      small = λ i h o. absurd (no_table i h o);
      not_dir = λ i h o. absurd (no_table i h o);
      apart = λ i j h m o. absurd (no_table i h o);
    };
    free_list = v;
    dir_used = λ x l. ap (λ d. is_free (d + x) s.man.free) dir_at ∙ u x l;
    tables_used = λ i h o. absurd (no_table i h o);
  }

  fresh-none : (b : ℕ) → b < 2 ^ 32 → page_of s pid b ≡ none
  fresh-none b h =
      page_of-eq s pid b (rw at (ground (arith, above)))
      ∙ no_look (get_pde_index b) (get_pte_index b) (omega arith)
    where
      no_look : (i j : ℕ) → i < 1024 → look s.word (frame (s.cr3 pid)) i j ≡ none
      no_look i j h = rw (dir_at, zeros i h) refl

module _ (s : Mmu) (pid : ℕ) (n : Page s.man (memman_kalloc_4k s.man)) where
  begun_dir : (begun s pid).cr3 pid ≡ (memman_kalloc_4k s.man).0
  begun_dir = ground arith

  begun_zeros : (i : ℕ) → i < 1024 → (begun s pid).word (slot (memman_kalloc_4k s.man).0 i) ≡ 0
  begun_zeros i h =
      clear-slot s.word (memman_kalloc_4k s.man).0 (memman_kalloc_4k s.man).0 i n.page n.page h
      ∙ ground arith

  begun-IsPaged : IsPaged (begun s pid) pid
  begun-IsPaged =
      fresh-IsPaged (begun s pid) pid (memman_kalloc_4k s.man).0 begun_dir n.page n.block.above
        begun_zeros n.block.still_list n.block.taken

  begun-empty : (b : ℕ) → b < 2 ^ 32 → page_of (begun s pid) pid b ≡ kernel_map 0 b
  begun-empty b h =
      fresh-none (begun s pid) pid (memman_kalloc_4k s.man).0 begun_dir n.page n.block.above
        begun_zeros b h
      ∙ ground arith

kalloc-Page :
    (m : Memman)
    → IsFreeList m.free
    → Aligned m.free
    → ((memman_kalloc_4k m).0 ≡ minus_one) ⊎ Page m (memman_kalloc_4k m)
kalloc-Page m v al = elim (kalloc-Block m v) [
  | inl n ↦ inl n
  | inr n ↦ elim (kalloc-Aligned m al).1 [
    | inl e ↦ inl e
    | inr e ↦ inr (Block-Page m (memman_kalloc_4k m) n e)
  ]
]

-- Where the free blocks are whole pages in a well-formed list, `init_page_pte` either is a fault, and
-- then the manager has no page left after some number of requests; or it returns 0 and the process
-- has a directory of its own that maps the 128 megabytes from 3G on to the physical memory from 0 on,
-- page by page, and nothing else; the free blocks are then still whole pages in a well-formed list.
pub init_page_pte_lem :
    (s : Mmu) (pid : ℕ)
    → IsFreeList s.man.free
    → Aligned s.man.free
    → ((init_page_pte s pid ≡ fault)
        × ((k : ℕ) × ((memman_kalloc_4k (given k s.man)).0 ≡ minus_one)))
      ⊎ ((s' : Mmu) × (init_page_pte s pid ≡ ok (pos 0, s'))
          × IsPaged s' pid
          × Aligned s'.man.free
          × ((b : ℕ)
              → b < 2 ^ 32
              → page_of s' pid b ≡ (
                  if leb 0xC0000000 b && ltb b 0xC8000000
                  then some ((b - 0xC0000000) / 4096 * 4096)
                  else none)))
unfolding init_page_pte
init_page_pte_lem s pid v al = elim (kalloc-Page s.man v al) [
  | inl n ↦ inl (ap (λ m. m >>= init_in pid) (new_page_none s n), (0, n))
  | inr n ↦ subst⁻¹ (Done pid kernel_pages s) (init_in-begun s pid n) (
      Done-took pid kernel_pages s (begun s pid) (map_kernel pid kernel_pages 0 (begun s pid))
        (inr refl)
        (map_kernel-Done pid kernel_pages 0 kernel_pages (begun s pid) refl (omega arith)
          (begun-IsPaged s pid n) (kalloc-Aligned s.man al).0 (begun-empty s pid n)))
]
