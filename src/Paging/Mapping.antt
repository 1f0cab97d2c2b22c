-- ===== src/Paging/Mapping.antt =====
-- `lin_mapping_phy` of kernel/pagetbl.c as an update of the map from addresses to pages.
use exp_memfs.Base.{
  ◌==◌, if◌then◌else◌, Bool-cases, minus_one, ◌>>=◌, Outcome, ok, fault, ℤ, pos, negsuc, ℕ, ◌/◌,
  ◌%◌, ◌^◌, ◌<◌, ◌≡◌, refl, sym, ap, ◌∙◌, ◌≢◌, ◌⊎◌, inl, inr, true, false, ◌&&◌, none, some, arith,
}
use exp_memfs.Memman.{memman_kalloc_4k}
use mathlib.Core.Path.{ap₂}
use exp_memfs.Paging.{
  write_page_pte, Mmu, frame, slot, is_odd, is_bad, get_pde_index, get_pte_index, pte_exist,
  find_table, map_in, lin_mapping_phy,
}
use exp_memfs.Paging.Space.{look}
use exp_memfs.Paging.Alloc.{Block, kalloc-Block, Block-Page}
use exp_memfs.Paging.Wasted.{wasted-IsPaged, wasted-look}
use exp_memfs.Paging.Map.{
  wasted, find_bad, IsPaged, page_of, Found, find_old, find_none, find_new, made,
}
use exp_memfs.Paging.Correct.{Found-old, Found-new, s2, look_after, s2-IsPaged}

same_page :
    (a b : ℕ)
    → a < 2 ^ 32
    → b < 2 ^ 32
    → ((get_pde_index b == get_pde_index a) && (get_pte_index b == get_pte_index a))
      ≡ (b / 4096 == a / 4096)
same_page a b h m = ground arith

pub page_of-eq :
    (s : Mmu) (pid a : ℕ)
    → (s.cr3 pid == 0) ≡ false
    → page_of s pid a ≡ look s.word (frame (s.cr3 pid)) (get_pde_index a) (get_pte_index a)
page_of-eq s pid a h = rw h refl

map_in_bad : (a phy f : ℕ) (s : Mmu) → map_in a phy f (none, s) ≡ (negsuc 0, s)
unfolding map_in
map_in_bad a phy f s = refl

map_in-enters :
    (a phy f t : ℕ) (s1 : Mmu)
    → phy % 4096 ≡ 0
    → map_in a phy f (some t, s1) ≡ (pos 0, write_page_pte s1 t a phy f)
unfolding map_in
map_in-enters a phy f t s1 h = rw (one, two) refl
  where
    one : (phy == minus_one) ≡ false
    one = ground arith

    two : is_bad phy ≡ false
    two = ground arith

-- The address `a` of the process gets the page `phy`, and every other one keeps what it had.
abbrev pub Maps : Mmu → ℕ → ℕ → ℕ → Mmu → Type 0
Maps s pid a phy s' =
    (b : ℕ)
    → b < 2 ^ 32
    → page_of s' pid b ≡ (if b / 4096 == a / 4096 then some phy else page_of s pid b)

module _ (s : Mmu) (pid a phy da ta : ℕ) (g : IsPaged s pid) (small : a < 2 ^ 32)
    (whole : phy % 4096 ≡ 0) (flag : da < 4096) (odd : is_odd da ≡ true) (flag' : ta < 4096)
    (odd' : is_odd ta ≡ true) where
  abbrev Ends : Outcome (ℤ × Mmu) → Type 0
  Ends r =
      (s' : Mmu) × (r ≡ ok (pos 0, s'))
      × IsPaged s' pid
      × Maps s pid a phy s'
      × ((s'.man ≡ s.man) ⊎ (s'.man ≡ (memman_kalloc_4k s.man).1))

  Found-Ends :
      (t : ℕ) (s1 : Mmu)
      → Found s pid a t s1
      → (s1.man ≡ s.man) ⊎ (s1.man ≡ (memman_kalloc_4k s.man).1)
      → find_table s pid a da ≡ ok (some t, s1)
      → Ends (lin_mapping_phy s a phy pid da ta)
  unfolding lin_mapping_phy
  Found-Ends t s1 x took e = (
    s2 s pid a t s1 x small phy ta whole flag' odd',
    ap (λ m. m >>= λ r. ok (map_in a phy ta r)) e ∙ ap ok (map_in-enters a phy ta t s1 whole),
    s2-IsPaged s pid a t s1 x small phy ta whole flag' odd',
    λ b h.
        page_of-eq (s2 s pid a t s1 x small phy ta whole flag' odd') pid b x.paged.has_dir
        ∙ look_after s pid a t s1 x small phy ta whole flag' odd' (get_pde_index b)
            (get_pte_index b) (omega arith) (omega arith)
        ∙ ap₂ (λ c l. if c then some phy else l) (same_page a b small h)
            (sym (page_of-eq s pid b g.has_dir)),
    took,
  )

  none-Ends :
      pte_exist s (frame (s.cr3 pid)) a ≡ false
      → (memman_kalloc_4k s.man).0 ≡ minus_one
      → lin_mapping_phy s a phy pid da ta ≡ fault
  unfolding lin_mapping_phy
  none-Ends e n =
      ap (λ m. m >>= λ r. ok (map_in a phy ta r)) (find_none s pid a da g small flag odd e n)

  -- The block that the manager gives for a table is no page.
  bad-Ends :
      pte_exist s (frame (s.cr3 pid)) a ≡ false
      → Block s.man (memman_kalloc_4k s.man)
      → is_bad (memman_kalloc_4k s.man).0 ≡ true
      → (s' : Mmu) × (lin_mapping_phy s a phy pid da ta ≡ ok (negsuc 0, s'))
        × IsPaged s' pid
        × ((b : ℕ) → b < 2 ^ 32 → page_of s' pid b ≡ page_of s pid b)
        × (s'.man ≡ (memman_kalloc_4k s.man).1)
  unfolding lin_mapping_phy
  bad-Ends e n b = (
    wasted s pid a da g small flag odd,
    ap (λ m. m >>= λ r. ok (map_in a phy ta r)) (find_bad s pid a da g small flag odd e n b)
        ∙ ap ok (map_in_bad a phy ta (wasted s pid a da g small flag odd)),
    wasted-IsPaged s pid a da g small flag odd n,
    λ b h.
        page_of-eq (wasted s pid a da g small flag odd) pid b g.has_dir
        ∙ wasted-look s pid a da g small flag odd n (get_pde_index b) (get_pte_index b)
            (omega arith) (omega arith)
        ∙ sym (page_of-eq s pid b g.has_dir),
    refl,
  )

-- For a process whose directory and tables are pages of their own, with no byte that is free in a
-- well-formed memory manager: mapping a whole page `phy` at an address, with flags below 4096 that have
-- the present bit, where a block that the manager gives for a missing table is a page if it begins at a
-- multiple of 1024, which is all that the code tests. Either it is a fault, and then the address has no
-- table and no block is left for one. Or it returns -1, and then the address has no table and the block
-- given for one does not begin at a multiple of 1024; the block is lost to the manager, and every address has
-- the page it had, or none as before. Or it returns 0, and then the address, with the rest of its 4096
-- bytes, has the page `phy`, every other address has the page it had, or none as before, and the manager
-- has given one block at most. Behind -1 and 0 the directory and the tables are again pages of their own
-- without a free byte, and the manager is well formed.
pub lin_mapping_phy_lem :
    (s : Mmu) (pid a phy pde_attribute pte_attribute : ℕ)
    → IsPaged s pid
    → a < 2 ^ 32
    → phy % 4096 ≡ 0
    → pde_attribute < 4096
    → is_odd pde_attribute ≡ true
    → pte_attribute < 4096
    → is_odd pte_attribute ≡ true
    → (pte_exist s (frame (s.cr3 pid)) a ≡ false
        → (memman_kalloc_4k s.man).0 % 1024 ≡ 0
        → (memman_kalloc_4k s.man).0 % 4096 ≡ 0)
    → ((pte_exist s (frame (s.cr3 pid)) a ≡ false)
        × ((memman_kalloc_4k s.man).0 ≡ minus_one)
        × (lin_mapping_phy s a phy pid pde_attribute pte_attribute ≡ fault))
      ⊎ ((pte_exist s (frame (s.cr3 pid)) a ≡ false)
          × ((memman_kalloc_4k s.man).0 ≢ minus_one)
          × ((memman_kalloc_4k s.man).0 % 1024 ≢ 0)
          × ((s' : Mmu) × (lin_mapping_phy s a phy pid pde_attribute pte_attribute
                ≡ ok (negsuc 0, s'))
              × IsPaged s' pid
              × ((b : ℕ) → b < 2 ^ 32 → page_of s' pid b ≡ page_of s pid b)
              × (s'.man ≡ (memman_kalloc_4k s.man).1)))
      ⊎ ((s' : Mmu) × (lin_mapping_phy s a phy pid pde_attribute pte_attribute ≡ ok (pos 0, s'))
          × IsPaged s' pid
          × ((b : ℕ)
              → b < 2 ^ 32
              → page_of s' pid b ≡ (if b / 4096 == a / 4096 then some phy else page_of s pid b))
          × ((s'.man ≡ s.man) ⊎ (s'.man ≡ (memman_kalloc_4k s.man).1)))
lin_mapping_phy_lem s pid a phy da ta g small whole flag odd flag' odd' good =
    elim (Bool-cases (pte_exist s (frame (s.cr3 pid)) a)) [
      | inl e ↦ inr (
          inr (
            Found-Ends s pid a phy da ta g small whole flag odd flag' odd'
              (frame (s.word (slot (frame (s.cr3 pid)) (get_pde_index a)))) s
              (Found-old s pid a da g small flag odd e) (inl refl)
              (find_old s pid a da g small flag odd e)))
      | inr e ↦ elim (kalloc-Block s.man g.free_list) [
        | inl n ↦ inl (e, n, none-Ends s pid a phy da ta g small whole flag odd flag' odd' e n)
        | inr n ↦ elim (Bool-cases (is_bad (memman_kalloc_4k s.man).0)) [
          | inl b ↦ inr (
              inl (
                e,
                ground (arith, n.below),
                ground (arith, b),
                bad-Ends s pid a phy da ta g small whole flag odd flag' odd' e n b,
              ))
          | inr b ↦
              let page = Block-Page s.man (memman_kalloc_4k s.man) n (good e (ground (arith, b))) in
              inr (
                inr (
                  Found-Ends s pid a phy da ta g small whole flag odd flag' odd'
                    (memman_kalloc_4k s.man).0 (made s pid a da g small flag odd)
                    (Found-new s pid a da g small flag odd e page) (inr refl)
                    (find_new s pid a da g small flag odd e page)))
        ]
      ]
    ]
