-- ===== src/Orange/Tests.antt =====
-- The orange file system at a table of two places.
use exp_memfs.Base.{
  get_or, replicate, ok, panic, ℕ, zero, suc, ◌<◌, ◌≡◌, refl, sym, ◌⊎◌, List, [], ◌∷◌, arith,
}
use mathlib.Core.Bool.{true≢false}
use exp_memfs.Orange.{Inode, no_inode, OrangeFs, get_inode, sync_inode, new_inode, fresh}
use exp_memfs.Orange.Table.{Missing, Full, Unique, Got, get_inode_lem}
use exp_memfs.Orange.Inodes.{on_disk, sync_inode_lem}
use exp_memfs.Orange.Imap.{MapDisk, alloc_imap_bit, free_imap_bit, write_map}
use exp_memfs.Orange.Smap.{alloc_smap_bit}
use exp_memfs.Orange.ImapAlloc.{
  IsBytes, NoBit, TakesBit, alloc_imap_bit_lem, free_undoes_alloc_imap,
}
use exp_memfs.Orange.Fresh.{Made, new_inode-get_inode}

abbrev inode_5 : Inode
inode_5 = record (fresh 3 5 900) { i_size = 70; i_cnt = 2 }

-- Inode 5 of device 3 is open twice.
abbrev small : OrangeFs
small = record {
  inode_table = inode_5 ∷ no_inode ∷ [];
  super_block = λ dev. record { nr_imap_sects = 1; nr_smap_sects = 10; n_1st_sect = 270 };
  sect = λ dev nr x. 0;
}

get_inode_lem_example : Got small 3 6 (get_inode small 3 6)
get_inode_lem_example = get_inode_lem small 3 6 (λ e. absurd (omega (arith, e)))

sync_inode_lem_example : on_disk (sync_inode small 0) 3 5 ≡ record inode_5 { i_cnt = 1 }
sync_inode_lem_example =
    sync_inode_lem small 0 3 5 (λ e. absurd (omega (arith, e))) (λ e. absurd (omega (arith, e)))

small-Unique : Unique small
small-Unique dev num zero zero w v = refl
small-Unique dev num zero (suc zero) w v = absurd (true≢false (sym v))
small-Unique dev num zero (suc (suc j)) w v = absurd (true≢false (sym v))
small-Unique dev num (suc zero) j w v = absurd (true≢false (sym w))
small-Unique dev num (suc (suc i)) j w v = absurd (true≢false (sym w))

new_inode-get_inode_example :
    Made small 3 6 1000
    ⊎ (Missing 3 6 small.inode_table × Full small.inode_table × (new_inode small 3 6 1000 ≡ panic))
new_inode-get_inode_example =
    new_inode-get_inode small 3 6 1000 (λ e. absurd (omega (arith, e))) small-Unique

-- A map whose first 9 bits are taken.
abbrev map_disk : MapDisk
map_disk = record {
  super_block = λ dev. record { nr_imap_sects = 1; nr_smap_sects = 10; n_1st_sect = 270 };
  sect = λ dev nr. 0xFF ∷ 1 ∷ replicate 510 0;
}

map_disk-IsBytes : IsBytes (map_disk.sect 3 2)
map_disk-IsBytes zero = omega arith
map_disk-IsBytes (suc zero) = omega arith
map_disk-IsBytes (suc (suc j)) = zeros 510 j
  where
    zeros : (n j : ℕ) → get_or (replicate n 0) j 0 < 256
    zeros zero j = omega arith
    zeros (suc n) zero = omega arith
    zeros (suc n) (suc j) = zeros n j

alloc_imap_bit_lem_example :
    (NoBit (map_disk.sect 3 2) × (alloc_imap_bit map_disk 3 ≡ ok (0, map_disk)))
    ⊎ ((nr : ℕ) × (bytes : List ℕ) × TakesBit (map_disk.sect 3 2) bytes nr
        × (alloc_imap_bit map_disk 3 ≡ ok (nr, write_map map_disk 3 2 bytes)))
alloc_imap_bit_lem_example =
    alloc_imap_bit_lem map_disk 3 (λ e. absurd (omega (arith, e))) map_disk-IsBytes

number_9 : alloc_imap_bit map_disk 3 ≡ ok (9, write_map map_disk 3 2 (0xFF ∷ 3 ∷ replicate 510 0))
unfolding alloc_imap_bit
number_9 = refl

bit_9_free : ¬ NoBit (map_disk.sect 3 2)
bit_9_free h = absurd (omega (arith, h 9 (omega arith)))

free_undoes_alloc_imap_example :
    (nr : ℕ) × (s' : MapDisk) × (alloc_imap_bit map_disk 3 ≡ ok (nr, s'))
    × ((d n : ℕ) → (free_imap_bit s' 3 nr).sect d n ≡ map_disk.sect d n)
free_undoes_alloc_imap_example =
    free_undoes_alloc_imap map_disk 3 (λ e. absurd (omega (arith, e))) map_disk-IsBytes refl
      bit_9_free

-- Three sectors behind the 15 that are taken, over the end of a byte.
abbrev sector_map : List ℕ → MapDisk
sector_map bytes = record {
  super_block = λ dev. record { nr_imap_sects = 1; nr_smap_sects = 1; n_1st_sect = 270 };
  sect = λ dev nr. bytes;
}

sector_284 : (alloc_smap_bit (sector_map (0xFF ∷ 0x7F ∷ 0 ∷ 0 ∷ [])) 3 3).0 ≡ 284
unfolding alloc_smap_bit
sector_284 = refl

sector_284_map :
    (alloc_smap_bit (sector_map (0xFF ∷ 0x7F ∷ 0 ∷ 0 ∷ [])) 3 3).1.sect 3 3
    ≡ 0xFF ∷ 0xFF ∷ 3 ∷ 0 ∷ []
unfolding alloc_smap_bit
sector_284_map = refl
