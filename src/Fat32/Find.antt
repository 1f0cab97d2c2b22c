-- ===== src/Fat32/Find.antt =====
-- Free clusters, kernel/base.c: `FindClusterForFile`, `ClearClusters`, `AllotClustersForEmptyFile`,
-- `NeedMoreCluster` and `AddCluster`.
use exp_memfs.Base.{
  ltb, leb, ◌==◌, if◌then◌else◌, length, get_or, take, ◌>>=◌, Outcome, ok, panic, fault, no_fuel, ℕ,
  zero, suc, ◌+◌, ◌-◌, ◌*◌, ◌/◌, ◌%◌, ◌^◌, Bool, ◌&&◌, Option, none, some, List, [], ◌∷◌, ◌++◌,
}
use exp_memfs.Fat32.{
  Geometry, Sector, Vdisk, fat_end, get_dword, write_sector, get_next_cluster, write_fat,
}

-- FindClusterForFile: the inner loop, for `rounds` entries from place `i` on, which are those of the
-- clusters from `c` on. `need` clusters are missing.
unfoldable pub take_free : ℕ → Sector → ℕ → ℕ → ℕ → List ℕ
take_free zero b i c need = []
take_free (suc rounds) b i c need =
    let more = take_free rounds b (i + 4) (c + 1) need in
    let fewer = take_free rounds b (i + 4) (c + 1) (need - 1) in
    if get_dword b i == 0 then (if leb need 1 then c ∷ [] else c ∷ fewer) else more

-- `index>=totalClusters` behind a cluster that was found
abbrev pub is_enough : ℕ → List ℕ → Bool
is_enough need found = ltb 0 (length found) && leb need (length found)

abbrev pub found_more : List ℕ → Outcome (Option (List ℕ)) → Outcome (Option (List ℕ))
found_more found (ok (some rest)) = ok (some (found ++ rest))
found_more found (ok none) = ok none
found_more found panic = panic
found_more found fault = fault
found_more found no_fuel = no_fuel

abbrev pub rounds_from : Geometry → ℕ → ℕ
rounds_from g off = (g.bytes_per_sector + 3 - off) / 4

-- The outer loop, from sector `cur` on.
unfoldable pub find_loop : ℕ → Geometry → (ℕ → Sector) → ℕ → ℕ → ℕ → ℕ → Outcome (Option (List ℕ))
unfolding take_free
find_loop zero g d cur off c need = no_fuel
find_loop (suc fuel) g d cur off c need =
    let found = take_free (rounds_from g off) (d cur) off c need in
    let rest = find_loop fuel g d (cur + 1) 0 (c + rounds_from g off) (need - length found) in
    if is_enough need found
    then ok (some found)
    else if leb ((g.reserved_sector + g.sectors_per_fat) * g.bytes_per_sector % 2 ^ 32)
        (cur * g.bytes_per_sector % 2 ^ 32)
    then ok none
    else found_more found rest

-- The search of `FindClusterForFile`; `none` is INSUFFICIENTSPACE.
unfoldable pub find_clusters : Geometry → (ℕ → Sector) → ℕ → Outcome (Option (List ℕ))
unfolding find_loop
find_clusters g d need = find_loop (suc g.sectors_per_fat) g d g.reserved_sector 8 2 need

abbrev pub zeros : Sector
zeros x = 0

abbrev pub cluster_sector : Geometry → ℕ → ℕ
cluster_sector g c = g.reserved_sector + 2 * g.sectors_per_fat + (c - 2) * g.sectors_per_cluster

abbrev pub clear_sectors : ℕ → Vdisk → ℕ → Vdisk
clear_sectors zero s i = s
clear_sectors (suc n) s i = clear_sectors n (write_sector s zeros i) (i + 1)

unfoldable pub clear_clusters : Geometry → Vdisk → ℕ → Vdisk
unfolding write_sector
clear_clusters g s c = clear_sectors 8 s (cluster_sector g c)

abbrev pub clear_each : Geometry → Vdisk → List ℕ → Vdisk
clear_each g s [] = s
clear_each g s (c ∷ cs) = clear_each g (clear_clusters g s c) cs

-- `FindClusterForFile`
unfoldable pub find_cluster_for_file : Geometry → Vdisk → ℕ → Outcome (Option (List ℕ) × Vdisk)
unfolding find_clusters clear_clusters
find_cluster_for_file g s need = find_clusters g s.sect need >>= λ r.
    ok (r, elim r [ none ↦ s | some cs ↦ clear_each g s (take need cs) ])

-- How many clusters `size` bytes take.
abbrev pub clusters_of : Geometry → ℕ → ℕ
clusters_of g size =
    let bytes = g.sectors_per_cluster * g.bytes_per_sector in
    if size % bytes == 0 then size / bytes else size / bytes + 1

abbrev pub allot : Geometry → Sector → ℕ → List ℕ → Option (List ℕ) × Vdisk → ℕ × Vdisk
allot g buf n junk (some cs, s) = (get_or cs 0 0, write_fat g s buf (take n cs))
allot g buf n junk (none, s) = (get_or junk 0 0, write_fat g s buf (take n junk))

-- `AllotClustersForEmptyFile`: the start of the file, and the disk. The test `!FindClusterForFile(…)`
-- is never true, so without space the array is used with what stands in it, here `junk`.
unfoldable pub allot_clusters_for_empty_file :
    Geometry → Vdisk → ℕ → Sector → List ℕ → Outcome (ℕ × Vdisk)
unfolding find_cluster_for_file write_fat
allot_clusters_for_empty_file g s size buf junk =
    find_cluster_for_file g s (clusters_of g size) >>= λ r.
    ok (allot g buf (clusters_of g size) junk r)

-- `NeedMoreCluster`, for a file disk_position and a size; `none` is FALSE.
unfoldable pub need_more_cluster : Geometry → ℕ → ℕ → Option ℕ
need_more_cluster g off size =
    let bytes = g.sectors_per_cluster * g.bytes_per_sector in
    let free = clusters_of g off * bytes - off in
    if off == 0 then none else if ltb free size then some (clusters_of g (size - free)) else none

-- The walk of `AddCluster` to the end of the chain.
unfoldable pub last_cluster : ℕ → Geometry → Vdisk → ℕ → Outcome (ℕ × Vdisk)
unfolding get_next_cluster
last_cluster zero g s c = no_fuel
last_cluster (suc fuel) g s c =
    let more = last_cluster fuel g (get_next_cluster g s c).1 (get_next_cluster g s c).0 in
    if (get_next_cluster g s c).0 == fat_end then ok (c, (get_next_cluster g s c).1) else more

abbrev pub join : Geometry → Sector → List ℕ → ℕ × Vdisk → Option Vdisk
join g buf cs (c, s) = some (write_fat g s buf (c ∷ cs))

-- `AddCluster`; `none` is INSUFFICIENTSPACE.
unfoldable pub add_cluster : ℕ → Geometry → Vdisk → Sector → ℕ → ℕ → Outcome (Option Vdisk)
unfolding find_cluster_for_file last_cluster write_fat
add_cluster fuel g s buf start num = find_cluster_for_file g s num >>= λ (r, s'). elim r [
  | none ↦ ok none
  | some cs ↦ last_cluster fuel g s' start >>= λ l. ok (join g buf (take num cs) l)
]
