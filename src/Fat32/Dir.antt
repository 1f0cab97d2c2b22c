-- ===== src/Fat32/Dir.antt =====
-- The records of a directory, kernel/base.c: `ReadRecord`, `FindSpaceInDir`, `WriteRecord`,
-- `ClearRecord` and `FindClusterForDir`. The loops over sectors and over records are one loop here, from record to
-- record; behind the last of the 8 sectors it starts again, as the source does.
use exp_memfs.Base.{
  ltb, leb, ◌==◌, if◌then◌else◌, length, ◌>>=◌, Outcome, ok, no_fuel, pos, negsuc, ℕ, zero, suc,
  ◌+◌, ◌-◌, ◌*◌, ◌/◌, ◌%◌, ◌^◌, ◌⊎◌, inl, inr, Bool, false, ◌&&◌, ◌||◌, Option, none, some, List,
}
use exp_memfs.Str.{strcmp}
use exp_memfs.Fat32.{Geometry, Sector, Vdisk, get_dword, write_sector}
use exp_memfs.Fat32.Find.{cluster_sector, clear_clusters}
use exp_memfs.Fat32.Name.{put_byte, get_name_from_record, clean}

-- The bytes from `off` on.
abbrev pub record_at : Sector → ℕ → Sector
record_at b off x = b (off + x)

-- A record, and its place.
pub record Hit : Type 0 where
  pub rec : Sector
  pub sector : ℕ
  pub off : ℕ

abbrev pub same_text : List ℕ → List ℕ → Bool
same_text p q = elim (strcmp p q) [ pos n ↦ n == 0 | negsuc n ↦ false ]

-- The sector behind `cur`, among the 8 from `first` on.
abbrev pub next_sector : ℕ → ℕ → ℕ
next_sector first cur = if ltb (cur + 1) (first + 8) then cur + 1 else first

-- `ReadRecord`, from the record at `off` of sector `cur` on; `none` is WRONGPATH.
unfoldable pub record_loop : ℕ → Geometry → (ℕ → Sector) → ℕ → ℕ → ℕ → List ℕ → Outcome (Option Hit)
unfolding strcmp get_name_from_record
record_loop zero g d first cur off name = no_fuel
record_loop (suc fuel) g d first cur off name =
    let r = record_at (d cur) off in
    let next = record_loop fuel g d first cur (off + 32) name in
    let sector = record_loop fuel g d first (next_sector first cur) 0 name in
    if leb g.bytes_per_sector off
    then sector
    else if r 0 == 0
    then ok none
    else (get_name_from_record r clean >>= λ full.
        if same_text full name
        then ok (some (record { rec = r; sector = cur; off = off }))
        else next)

unfoldable pub read_record : ℕ → Geometry → (ℕ → Sector) → ℕ → List ℕ → Outcome (Option Hit)
unfolding record_loop
read_record fuel g d parent name =
    record_loop fuel g d (cluster_sector g parent) (cluster_sector g parent) 0 name

abbrev pub is_unused : Sector → Bool
is_unused r = r 0 == 0 || r 0 == 0xE5

-- The inner loop of `FindSpaceInDir`: the offset of the record that makes the count full, or the offset
-- behind one that is not free.
unfoldable pub free_run : ℕ → ℕ → Sector → ℕ → ℕ → ℕ → Outcome (ℕ ⊎ ℕ)
free_run zero size b off num records = no_fuel
free_run (suc fuel) size b off num records =
    let rest =
      free_run fuel size b (if leb size (off + 32) then 0 else off + 32) (num + 1) records in
    if num + 1 == records
    then ok (inl off)
    else if is_unused (record_at b off)
    then rest
    else ok (inr (off + 32))

-- `FindSpaceInDir`, from the record at `off` of sector `cur` on: the place, or `none` for NAMEEXIST.
-- `fullname` is what the buffer for names holds.
unfoldable pub space_loop :
    ℕ → Geometry → (ℕ → Sector) → ℕ → ℕ → ℕ → List ℕ → List ℕ → ℕ → Outcome (Option (ℕ × ℕ))
unfolding strcmp get_name_from_record free_run
space_loop zero g d first cur off fullname name records = no_fuel
space_loop (suc fuel) g d first cur off fullname name records =
    let r = record_at (d cur) off in
    let sector = space_loop fuel g d first (next_sector first cur) 0 fullname name records in
    let next = space_loop fuel g d first cur (off + 32) fullname name records in
    if leb g.bytes_per_sector off
    then sector
    else if is_unused r
    then (free_run (suc fuel) g.bytes_per_sector (d cur) off 0 records >>= λ run. elim run [
      | inl o ↦ ok (some (cur, o))
      | inr o ↦ space_loop fuel g d first cur (o + 32) fullname name records
    ])
    else if r 11 == 0x08
    then next
    else (get_name_from_record r fullname >>= λ full.
        if same_text name full
        then ok none
        else space_loop fuel g d first cur (off + 32) full name records)

-- How many records the name asks for.
abbrev pub records_num : List ℕ → ℕ
records_num name = if length name % 29 == 0 then length name / 29 else length name / 29 + 1

unfoldable pub find_space_in_dir :
    ℕ → Geometry → (ℕ → Sector) → ℕ → List ℕ → Outcome (Option (ℕ × ℕ))
unfolding space_loop
find_space_in_dir fuel g d parent name =
    space_loop fuel g d (cluster_sector g parent) (cluster_sector g parent) 0 clean name
      (records_num name)

abbrev pub put_record : Sector → ℕ → Sector → Sector
put_record b off r x = if leb off x && ltb x (off + 32) then r (x - off) else b x

unfoldable pub write_record : Vdisk → Sector → ℕ → ℕ → Vdisk
unfolding write_sector
write_record s r sector off = write_sector s (put_record (s.sect sector) off r) sector

abbrev pub record_cluster : Sector → ℕ
record_cluster r = (r 20 + 2 ^ 8 * r 21) * 2 ^ 16 + (r 26 + 2 ^ 8 * r 27)

-- `ClearRecord`: the start of the file that had the record.
unfoldable pub clear_record : ℕ → Geometry → Vdisk → ℕ → List ℕ → Outcome (Option (ℕ × Vdisk))
unfolding read_record write_record
clear_record fuel g s parent name = read_record fuel g s.sect parent name >>= λ h. ok (elim h [
  | none ↦ none
  | some hit ↦
      some (record_cluster hit.rec, write_record s (put_byte hit.rec 0 0xE5) hit.sector hit.off)
])

-- The loop over a sector of `FindClusterForDir`: a free cluster, or the number behind the last one.
abbrev pub free_in_sector : ℕ → Sector → ℕ → ℕ → ℕ ⊎ ℕ
free_in_sector zero b off c = inr c
free_in_sector (suc n) b off c =
    let rest = free_in_sector n b (off + 4) (c + 1) in if get_dword b off == 0 then inl c else rest

abbrev pub free_in_fat : ℕ → Geometry → (ℕ → Sector) → ℕ → ℕ → ℕ → Option ℕ
free_in_fat zero g d cur off c = none
free_in_fat (suc n) g d cur off c =
    elim (free_in_sector ((g.bytes_per_sector + 3 - off) / 4) (d cur) off c) [
      | inl c' ↦ some c'
      | inr c' ↦ free_in_fat n g d (cur + 1) 0 c'
    ]

-- `FindClusterForDir`; `none` is INSUFFICIENTSPACE.
unfoldable pub find_cluster_for_dir : Geometry → Vdisk → Option (ℕ × Vdisk)
unfolding clear_clusters
find_cluster_for_dir g s = elim (free_in_fat g.sectors_per_fat g s.sect g.reserved_sector 8 2) [
  | none ↦ none
  | some c ↦ some (c, clear_clusters g s c)
]
