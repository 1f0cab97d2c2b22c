-- ===== src/Memman/Tests.antt =====
-- Runs of the memory manager on small free lists, and its theorems at them.
use exp_memfs.Base.{ℕ, ◌≡◌, refl, List, [], ◌∷◌, arith}
use exp_memfs.Memman.{
  FreeInfo, Memman, memman_alloc, memman_free, memman_total, init, wall, uwall, kwall, alloc_from,
  place, position, joins_prev, joins_next, grow_prev, seed, part, part_man, memman_init,
}
use exp_memfs.Memman.Region.{user}
use exp_memfs.Memman.Alloc.{Serves, allocators_serve}
use exp_memfs.Memman.Free.{IsValid, Frees, memman_free_lem}
use exp_memfs.Memman.RoundTrip.{free_undoes_alloc}
use exp_memfs.Memman.Total.{memman_total-eq-bytes}
use exp_memfs.Memman.Walls.{Walled, init_lem}

abbrev low_block : FreeInfo
low_block = record { addr = 0x800000; size = 0x3000 }

abbrev high_block : FreeInfo
high_block = record { addr = 0x1000000; size = 0x2000 }

abbrev two_blocks : Memman
two_blocks = record { maxfrees = 2; lostsize = 0; losts = 0; free = low_block ∷ high_block ∷ [] }

two_blocks-IsValid : IsValid two_blocks
two_blocks-IsValid = record { list = omega arith; room = omega arith; mark = omega arith }

-- Memory from 4M to 32M.
abbrev one_run : List ℕ
one_run = 0x2000000 ∷ []

one_run-init :
    (init one_run).free
    ≡ record { addr = 0x400000; size = 0x1FF000 }
      ∷ record { addr = 0x600000; size = 0x1FF000 }
      ∷ record { addr = 0x800000; size = 0x7FF000 }
      ∷ record { addr = 0x1000000; size = 0x1000000 }
      ∷ []
unfolding init part_man part seed memman_free place position joins_prev joins_next grow_prev
    memman_init
one_run-init = refl

allocators_serve_example : Serves wall uwall 0x100 two_blocks (memman_alloc two_blocks 0x100)
allocators_serve_example = allocators_serve user two_blocks 0x100 (omega arith)

memman_free_lem_example : Frees 0x900000 0x1000 two_blocks (memman_free two_blocks 0x900000 0x1000)
memman_free_lem_example =
    memman_free_lem two_blocks 0x900000 0x1000 two_blocks-IsValid (omega arith) (omega arith)
      (omega arith)

memman_alloc-two_blocks : (memman_alloc two_blocks 0x3000).0 ≡ 0x800000
unfolding memman_alloc alloc_from
memman_alloc-two_blocks = refl

free_undoes_alloc_example :
    memman_free (memman_alloc two_blocks 0x3000).1 (memman_alloc two_blocks 0x3000).0 0x3000
    ≡ (0, two_blocks)
free_undoes_alloc_example =
    free_undoes_alloc user two_blocks 0x3000 two_blocks-IsValid (omega arith)
      (omega (arith, memman_alloc-two_blocks))

memman_total-eq-bytes_example : memman_total two_blocks ≡ 0x5000
memman_total-eq-bytes_example = memman_total-eq-bytes two_blocks two_blocks-IsValid

init_lem_example :
    IsValid (init one_run)
    × Walled kwall (init one_run).free
    × Walled wall (init one_run).free
    × Walled uwall (init one_run).free
init_lem_example = init_lem one_run (ground arith) (omega arith)
