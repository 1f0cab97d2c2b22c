-- ===== src/Paging.antt =====
-- Page tables, kernel/pagetbl.c. The tables stand in the words of the memory, by their linear
-- addresses; physical page `p` is seen from `K_PHY2LIN(p)` on. The caches of the processor are left
-- out. A page that the allocator could not give has the address -1, and `memset` on it is a fault:
-- the code tests the address only behind it.
pub mod Flags
pub mod Space
pub mod Write
pub mod Alloc
pub mod Map
pub mod Correct
pub mod Wasted
pub mod Mapping
pub mod Fault
pub mod Init
mod Tests
use exp_memfs.Base.{
  ltb, leb, ◌==◌, if◌then◌else◌, ltb→lt, lt→ltb, leb→le, ==_iff, Bool-cases, Option-cases, length,
  get_or, set, take, drop, replicate, erase_at, insert_at, length-append, length-set,
  get_or-set_self, get_or-set_ne, length-insert_at, take-append-drop, length-take, length-drop,
  u32_mod, add32, sub32, minus_one, sub_ℕ, ◌>>=◌, ◌>>◌, assert, Outcome, ok, panic, fault, no_fuel,
  ℤ, pos, negsuc, ℕ, zero, suc, ◌+◌, ◌-◌, ◌*◌, ◌/◌, ◌%◌, ◌^◌, ◌≤◌, ◌<◌, ◌≡◌, refl, sym, ap, ◌∙◌,
  ◌≢◌, ◌↔◌, ◌⊎◌, inl, inr, Bool, true, false, not, ◌&&◌, ◌||◌, Option, none, some, List, [], ◌∷◌,
  ◌++◌, map, arith,
}
use Prim.Native.Nat.{bit_or}
use exp_memfs.Memman.{Memman, memman_alloc_4k, memman_kalloc_4k}
use exp_memfs.Ramfs.{k_phy2lin}

-- The memory manager, the words of the memory, and the `cr3` of each process.
pub record Mmu : Type 0 where
  pub man : Memman
  pub word : ℕ → ℕ
  pub cr3 : ℕ → ℕ

-- PG_P, and num_4K
abbrev pub pg_p : ℕ
pg_p = 1

abbrev pub page_size : ℕ
page_size = 0x1000

-- `x & 0xFFFFF000`
abbrev pub frame : ℕ → ℕ
frame x = x / 4096 * 4096

abbrev pub get_pde_index : ℕ → ℕ
get_pde_index a = a / 2 ^ 22

abbrev pub get_pte_index : ℕ → ℕ
get_pte_index a = a % 2 ^ 22 / 2 ^ 12

-- `(u32 *)K_PHY2LIN(p) + i`
abbrev pub slot : ℕ → ℕ → ℕ
slot p i = add32 (k_phy2lin p) (4 * i)

abbrev pub get_pde_phy_addr : Mmu → ℕ → ℕ
get_pde_phy_addr s pid = if s.cr3 pid == 0 then minus_one else frame (s.cr3 pid)

abbrev pub get_pte_phy_addr : Mmu → ℕ → ℕ → ℕ
get_pte_phy_addr s pid a = frame (s.word (slot (get_pde_phy_addr s pid) (get_pde_index a)))

abbrev pub get_page_phy_addr : Mmu → ℕ → ℕ → ℕ
get_page_phy_addr s pid a = frame (s.word (slot (get_pte_phy_addr s pid a) (get_pte_index a)))

-- The lowest bit of a word.
abbrev pub is_odd : ℕ → Bool
is_odd w = w % 2 == 1

abbrev pub pte_exist : Mmu → ℕ → ℕ → Bool
pte_exist s pd a = is_odd (s.word (slot pd (get_pde_index a)))

abbrev pub phy_exist : Mmu → ℕ → ℕ → Bool
phy_exist s tbl a = is_odd (s.word (slot tbl (get_pte_index a)))

abbrev pub write_word : Mmu → ℕ → ℕ → Mmu
write_word s x w = record s { word = λ y. if y == x then w else s.word y }

abbrev pub write_page_pde : Mmu → ℕ → ℕ → ℕ → ℕ → Mmu
write_page_pde s pd a tbl attribute =
    write_word s (slot pd (get_pde_index a)) (bit_or (frame tbl) attribute)

abbrev pub write_page_pte : Mmu → ℕ → ℕ → ℕ → ℕ → Mmu
write_page_pte s tbl a phy attribute =
    write_word s (slot tbl (get_pte_index a)) (bit_or (frame phy) attribute)

-- The words of physical page `p` become 0.
abbrev pub clear_page : Mmu → ℕ → Mmu
clear_page s p = record s {
  word = λ x. if leb (k_phy2lin p) x && ltb x (k_phy2lin p + page_size) then 0 else s.word x;
}

-- `do_kmalloc_4k` and the `memset` behind it.
abbrev pub cleared : Mmu → ℕ × Memman → Outcome (ℕ × Mmu)
cleared s (p, man1) =
    if p == minus_one then fault else ok (p, clear_page (record s { man = man1 }) p)

unfoldable pub new_page : Mmu → Outcome (ℕ × Mmu)
unfolding memman_kalloc_4k
new_page s = cleared s (memman_kalloc_4k s.man)

-- `(p & 0x3FF) != 0`
abbrev pub is_bad : ℕ → Bool
is_bad p = not (p % 0x400 == 0)

-- A table for address `a` that is made and entered in the directory; `none` if its address is bad.
abbrev pub enter_table : ℕ → ℕ → ℕ → ℕ × Mmu → Outcome (Option ℕ × Mmu)
enter_table pd a pde_attribute (tbl, s) =
    ok (if is_bad tbl then (none, s) else (some tbl, write_page_pde s pd a tbl pde_attribute))

-- The first part of `lin_mapping_phy`: the table for address `a`.
unfoldable pub find_table : Mmu → ℕ → ℕ → ℕ → Outcome (Option ℕ × Mmu)
unfolding new_page
find_table s pid a pde_attribute = elim (pte_exist s (get_pde_phy_addr s pid) a) [
  | true ↦ ok (some (get_pte_phy_addr s pid a), s)
  | false ↦ new_page s >>= enter_table (get_pde_phy_addr s pid) a pde_attribute
]

abbrev pub with_man : Mmu → ℕ × Memman → ℕ × Mmu
with_man s (p, man1) = (p, record s { man = man1 })

-- A page for address `a`, of the kernel's or of the user's memory.
unfoldable pub page_for : Mmu → ℕ → ℕ × Mmu
unfolding memman_kalloc_4k memman_alloc_4k
page_for s a =
    with_man s (if leb (k_phy2lin 0) a then memman_kalloc_4k s.man else memman_alloc_4k s.man)

-- The page is entered in the table, unless its address is bad.
abbrev pub enter_page : ℕ → ℕ → ℕ → ℕ × Mmu → ℤ × Mmu
enter_page tbl a pte_attribute (phy, s) =
    if is_bad phy then (negsuc 0, s) else (pos 0, write_page_pte s tbl a phy pte_attribute)

-- The second part of `lin_mapping_phy`: the page that is asked for, or, for -1, one where there is
-- none yet.
unfoldable pub map_in : ℕ → ℕ → ℕ → Option ℕ × Mmu → ℤ × Mmu
unfolding page_for
map_in a phy pte_attribute (none, s) = (negsuc 0, s)
map_in a phy pte_attribute (some tbl, s) =
    if phy == minus_one
    then (if phy_exist s tbl a then (pos 0, s) else enter_page tbl a pte_attribute (page_for s a))
    else enter_page tbl a pte_attribute (phy, s)

unfoldable pub lin_mapping_phy : Mmu → ℕ → ℕ → ℕ → ℕ → ℕ → Outcome (ℤ × Mmu)
unfolding find_table map_in
lin_mapping_phy s a phy pid pde_attribute pte_attribute =
    find_table s pid a pde_attribute >>= λ r. ok (map_in a phy pte_attribute r)
