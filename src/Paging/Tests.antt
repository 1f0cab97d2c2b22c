-- ===== src/Paging/Tests.antt =====
-- The theorems on kernel/pagetbl.c at a process with an empty directory.
use exp_memfs.Base.{
  ltb, leb, ◌==◌, if◌then◌else◌, minus_one, ok, panic, fault, pos, negsuc, ℕ, ◌-◌, ◌*◌, ◌/◌, ◌%◌,
  ◌^◌, ◌<◌, ◌≡◌, refl, ◌≢◌, ◌⊎◌, false, ◌&&◌, none, some, [], ◌∷◌, arith,
}
use exp_memfs.Memman.{Memman, memman_kalloc_4k}
use exp_memfs.Paging.{Mmu, pte_exist, lin_mapping_phy}
use exp_memfs.Paging.Alloc.{Aligned}
use exp_memfs.Paging.Map.{IsPaged, page_of}
use exp_memfs.Paging.Mapping.{lin_mapping_phy_lem}
use exp_memfs.Paging.Init.{given, init_page_pte, init_page_pte_lem}
use exp_memfs.Paging.Fault.{Faults, faults, faults_stop}

abbrev pages : Memman
pages = record {
  maxfrees = 1;
  lostsize = 0;
  losts = 0;
  free = record { addr = 0x410000; size = 0x4000 } ∷ [];
}

abbrev empty : Mmu
empty = record { man = pages; word = λ x. 0; cr3 = λ pid. 0x400000 }

empty-IsPaged : IsPaged empty 0
empty-IsPaged = record {
  has_dir = refl;
  tables = record {
    dir = omega arith;
    small = λ i h o. ground arith;
    not_dir = λ i h o. ground arith;
    apart = λ i j h m o p e. ground arith;
  };
  free_list = omega arith;
  dir_used = λ x l. ground arith;
  tables_used = λ i h o x l. ground arith;
}

lin_mapping_phy_lem_example :
    ((pte_exist empty 0x400000 0x8048000 ≡ false)
      × ((memman_kalloc_4k pages).0 ≡ minus_one)
      × (lin_mapping_phy empty 0x8048000 0x1000000 0 7 7 ≡ fault))
    ⊎ ((pte_exist empty 0x400000 0x8048000 ≡ false)
        × ((memman_kalloc_4k pages).0 ≢ minus_one)
        × ((memman_kalloc_4k pages).0 % 1024 ≢ 0)
        × ((s' : Mmu) × (lin_mapping_phy empty 0x8048000 0x1000000 0 7 7 ≡ ok (negsuc 0, s'))
            × IsPaged s' 0
            × ((b : ℕ) → b < 2 ^ 32 → page_of s' 0 b ≡ page_of empty 0 b)
            × (s'.man ≡ (memman_kalloc_4k pages).1)))
    ⊎ ((s' : Mmu) × (lin_mapping_phy empty 0x8048000 0x1000000 0 7 7 ≡ ok (pos 0, s'))
        × IsPaged s' 0
        × ((b : ℕ)
            → b < 2 ^ 32
            → page_of s' 0 b
              ≡ (if b / 4096 == 0x8048000 / 4096 then some 0x1000000 else page_of empty 0 b))
        × ((s'.man ≡ pages) ⊎ (s'.man ≡ (memman_kalloc_4k pages).1)))
unfolding memman_kalloc_4k exp_memfs.Memman.alloc_from
lin_mapping_phy_lem_example =
    lin_mapping_phy_lem empty 0 0x8048000 0x1000000 7 7 empty-IsPaged (omega arith) refl
      (omega arith) refl (omega arith) refl (λ e h. refl)

-- A process whose accesses to one address keep failing.
faults_stop_example :
    ((s : Faults) × (faults 0 0x8048000 5 (record { mmu = empty; cr2_save = 0; cr2_count = 0 })
        ≡ ok s)
      × (s.cr2_count ≡ 4))
    × (faults 0 0x8048000 6 (record { mmu = empty; cr2_save = 0; cr2_count = 0 }) ≡ panic)
faults_stop_example =
    faults_stop 0 0x8048000 (record { mmu = empty; cr2_save = 0; cr2_count = 0 }) refl

-- A first process of the kernel.
init_page_pte_lem_example :
    ((init_page_pte empty 1 ≡ fault)
      × ((k : ℕ) × ((memman_kalloc_4k (given k pages)).0 ≡ minus_one)))
    ⊎ ((s' : Mmu) × (init_page_pte empty 1 ≡ ok (pos 0, s'))
        × IsPaged s' 1
        × Aligned s'.man.free
        × ((b : ℕ)
            → b < 2 ^ 32
            → page_of s' 1 b ≡ (
                if leb 0xC0000000 b && ltb b 0xC8000000
                then some ((b - 0xC0000000) / 4096 * 4096)
                else none)))
init_page_pte_lem_example = init_page_pte_lem empty 1 (omega arith) (omega arith)
