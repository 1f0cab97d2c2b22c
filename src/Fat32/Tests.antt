-- ===== src/Fat32/Tests.antt =====
-- The file allocation table of a small disk.
use exp_memfs.Base.{
  ltb, ◌==◌, if◌then◌else◌, replicate, minus_one, ok, ℕ, ◌+◌, ◌*◌, ◌^◌, ◌<◌, ◌≡◌, refl, ◌≢◌, inl,
  some, List, [], ◌∷◌, arith,
}
use exp_memfs.Fat32.{
  disk_position, Geometry, Sector, Vdisk, fat_sector, fat_place, write_sector, write_fat,
  clear_fats, get_next_cluster, put_dword, fat_end,
}
use exp_memfs.Fat32.Table.{entry, IsUsual}
use exp_memfs.Fat32.Chain.{Clusters, link_of, Outside, write_fat_lem}
use exp_memfs.Fat32.Clear.{AllFree, IsChain, clear_fats-write_fat}
use exp_memfs.Fat32.Cache.{done, also, writes, makes, get_next_cluster_lem}
use exp_memfs.Fat32.Find.{find_clusters}
use exp_memfs.Fat32.Dir.{find_space_in_dir}
use exp_memfs.Fat32.Files.{FatFile, get_file_offset}
use exp_memfs.Fat32.Step.{IsWide, sector_in}
use exp_memfs.Fat32.Walk.{get_file_offset_lem}
use exp_memfs.Fat32.Format.{init_fs_fat, init_fs_fat_lem}
use exp_memfs.Fat32.Free.{free_clusters, answer, find_clusters_lem}

abbrev small : Geometry
small = record {
  bytes_per_sector = 512;
  sectors_per_cluster = 8;
  reserved_sector = 32;
  sectors_per_fat = 2;
}

small-IsUsual : IsUsual small
small-IsUsual = record { size = refl; front = λ e. absurd (omega (arith, e)) }

abbrev junk : Sector
junk x = 77

-- A disk of zeros that has just been mounted.
abbrev blank : Vdisk
blank = record { sect = λ i x. 0; fat_buf = λ x. 0; global_sector = minus_one }

-- Cluster 3 is followed by cluster 4, the last one.
abbrev linked : Vdisk
linked = record blank {
  sect = λ i. if i == 32 then put_dword (put_dword (λ x. 0) 12 4) 16 fat_end else (λ x. 0);
}

two-Clusters : Clusters (3 ∷ 4 ∷ [])
two-Clusters =
    (λ e. absurd (omega (arith, e)), omega arith, (λ e. absurd (omega (arith, e)), omega arith, tt))

write_fat_lem_example :
    ((e : ℕ)
      → e < 2 ^ 30
      → entry small (write_fat small blank junk (3 ∷ 4 ∷ [])).sect e
        ≡ link_of (3 ∷ 4 ∷ []) e (entry small blank.sect e))
    × ((j : ℕ)
        → Outside small j (3 ∷ 4 ∷ [])
        → (write_fat small blank junk (3 ∷ 4 ∷ [])).sect j ≡ blank.sect j)
    × ((j : ℕ)
        → (write_fat small blank junk []).sect j
          ≡ (if disk_position j == disk_position 0 then junk else blank.sect j))
write_fat_lem_example =
    write_fat_lem small blank junk 3 (4 ∷ []) small-IsUsual two-Clusters (refl, (refl, tt))

linked-IsChain : IsChain small linked.sect (3 ∷ 4 ∷ [])
unfolding entry fat_sector fat_place
linked-IsChain = (refl, (refl, tt))

-- A file of these clusters, open for reading and writing.
abbrev middle : FatFile
middle = record { start = 3; off = 5000; size = 8000; flag = 2 }

small-IsWide : IsWide small
small-IsWide = record { usual = small-IsUsual; eight = refl; low = omega arith }

get_file_offset_lem_example :
    ((get_file_offset small linked middle).0 ≡ sector_in small (3 ∷ 4 ∷ []) 9)
    × ((get_file_offset small linked middle).1.disk.sect ≡ linked.sect)
get_file_offset_lem_example =
    get_file_offset_lem small linked middle (4 ∷ []) small-IsWide (inl refl) refl
      (omega arith, omega arith, (omega arith, omega arith, tt)) linked-IsChain (omega arith)

blank-AllFree : AllFree small blank.sect (3 ∷ 4 ∷ [])
unfolding entry
blank-AllFree = (refl, (refl, tt))

clear_fats-write_fat_example :
    (s : Vdisk) × (clear_fats 2 small (write_fat small blank junk (3 ∷ 4 ∷ [])) junk 3 ≡ ok s)
    × ((e : ℕ) → e < 2 ^ 30 → entry small s.sect e ≡ entry small blank.sect e)
    × ((j : ℕ) → Outside small j (3 ∷ 4 ∷ []) → s.sect j ≡ blank.sect j)
clear_fats-write_fat_example =
    clear_fats-write_fat small blank junk junk 3 (4 ∷ []) small-IsUsual two-Clusters
      (refl, (refl, tt)) blank-AllFree

-- A write of another sector, and then of a chain.
abbrev used : Vdisk
used = write_fat small (write_sector blank junk 500) junk (3 ∷ 4 ∷ [])

far : fat_sector small 3 ≢ minus_one
unfolding fat_sector
far e = absurd (omega (arith, e))

get_next_cluster_lem_example :
    ((get_next_cluster small used 3).0 ≡ entry small used.sect 3)
    × ((get_next_cluster small used 3).1.sect ≡ used.sect)
get_next_cluster_lem_example =
    get_next_cluster_lem small blank used 3 small-IsUsual refl
      (also (also done (writes junk 500 (omega arith, omega arith))) (makes junk 3 (4 ∷ []))) far

find_clusters_lem_example :
    find_clusters small linked.sect 2
    ≡ ok (answer 2 (free_clusters (entry small linked.sect) (126 + 128 * 2) 2 2))
find_clusters_lem_example = find_clusters_lem small linked.sect 2 small-IsUsual (omega arith)

-- "a.txt"
abbrev a_txt : List ℕ
a_txt = b'a' ∷ b'.' ∷ b't' ∷ b'x' ∷ b't' ∷ []

-- A name of 30 bytes asks for two records, and is given the second one although it is in use.
abbrev in_use : ℕ → Sector
in_use i x = if ltb x 32 then 0 else 65

taken_space : find_space_in_dir 2 small in_use 2 (replicate 30 b'a') ≡ ok (some (36, 32))
unfolding find_space_in_dir
taken_space = refl

init_fs_fat_lem_example :
    IsUsual (init_fs_fat 20000 [] junk blank.sect []).0
    × ((init_fs_fat 20000 [] junk blank.sect []).0.sectors_per_cluster ≡ 8)
    × ((init_fs_fat 20000 [] junk blank.sect []).0.reserved_sector ≡ 32)
    × (entry
          (init_fs_fat 20000 [] junk blank.sect []).0
          (init_fs_fat 20000 [] junk blank.sect []).1.0
          2
        ≡ fat_end)
    × (entry
          (init_fs_fat 20000 [] junk blank.sect []).0
          (init_fs_fat 20000 [] junk blank.sect []).1.0
          3
        ≡ 0)
init_fs_fat_lem_example =
    init_fs_fat_lem 20000 [] junk blank.sect [] 3 refl (omega arith) (omega arith)
