-- ===== src/Memman/Region.antt =====
-- The four allocators of kernel/memman.c, told apart by the region that each one serves.
use exp_memfs.Base.{ℕ, ◌<◌, ◌≡◌, refl, arith}
use exp_memfs.Memman.{
  Memman, alloc_from, settle, memman_alloc, memman_kalloc, memman_alloc_4k, memman_kalloc_4k, wall,
  uwall, kwall, memend, memstart,
}

-- 8M to 16M, 6M to 8M, 16M to 32M in pages, 4M to 6M in pages.
pub data Region : Type 0 where
  user kernel user_page kernel_page : Region

abbrev pub low : Region → ℕ
low user = wall
low kernel = kwall
low user_page = uwall
low kernel_page = memstart

abbrev pub high : Region → ℕ
high user = uwall
high kernel = wall
high user_page = memend
high kernel_page = kwall

-- The bytes that a call takes: the page allocators take no size.
abbrev pub amount : Region → ℕ → ℕ
amount user n = n
amount kernel n = n
amount user_page n = 0x1000
amount kernel_page n = 0x1000

abbrev pub request : Region → Memman → ℕ → ℕ × Memman
request user m n = memman_alloc m n
request kernel m n = memman_kalloc m n
request user_page m n = memman_alloc_4k m
request kernel_page m n = memman_kalloc_4k m

pub request-eq-settle :
    (g : Region) (m : Memman) (n : ℕ)
    → request g m n ≡ settle m (alloc_from (low g) (high g) (amount g n) m.free)
unfolding memman_alloc memman_kalloc memman_alloc_4k memman_kalloc_4k
request-eq-settle user m n = refl
request-eq-settle kernel m n = refl
request-eq-settle user_page m n = refl
request-eq-settle kernel_page m n = refl

pub amount_pos : (g : Region) (n : ℕ) → 0 < n → 0 < amount g n
amount_pos user n h = h
amount_pos kernel n h = h
amount_pos user_page n h = omega arith
amount_pos kernel_page n h = omega arith
