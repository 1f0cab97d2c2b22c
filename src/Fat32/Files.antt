-- ===== src/Fat32/Files.antt =====
-- The content of files: `GetNextSector` and `GetFileOffset` of kernel/base.c, and `ReadFile` and
-- `WriteFile` of kernel/fat32.c. `next` is what the variable for the next sector holds, which
-- `GetNextSector` does not always set.
use exp_memfs.Base.{
  ltb, leb, ◌==◌, if◌then◌else◌, length, get_or, take, drop, add32, sub32, ◌>>=◌, Outcome, ok,
  no_fuel, ℕ, zero, suc, ◌+◌, ◌-◌, ◌*◌, ◌/◌, ◌%◌, Bool, true, false, not, ◌&&◌, ◌||◌, Option, none,
  some, List, [], ◌++◌,
}
use exp_memfs.Fat32.{Geometry, Sector, Vdisk, fat_end, write_sector, get_next_cluster}
use exp_memfs.Fat32.Find.{
  cluster_sector, allot_clusters_for_empty_file, need_more_cluster, add_cluster,
}
use exp_memfs.Fat32.Name.{bytes_at}
use exp_memfs.Fat32.Ops.{State, done, insufficient_space, access_denied}

-- An open file, without its name and path.
pub record FatFile : Type 0 where
  pub start : ℕ
  pub off : ℕ
  pub size : ℕ
  pub flag : ℕ

-- R
abbrev pub read_only : ℕ
read_only = 5

abbrev pub sectors_used : Geometry → ℕ → ℕ
sectors_used g size =
    let temp = size % (g.sectors_per_cluster * g.bytes_per_sector) in
    if temp == 0
    then g.sectors_per_cluster
    else if temp % g.bytes_per_sector == 0
    then temp / g.bytes_per_sector
    else temp / g.bytes_per_sector + 1

-- Whether the sector that is returned in front of the last cluster is the last one.
abbrev pub last_behind : Geometry → FatFile → Bool → Bool
last_behind g f is_last =
    let temp = f.size % (g.sectors_per_cluster * g.bytes_per_sector) in
    if f.flag == read_only && not (temp == 0) then temp / g.bytes_per_sector + 1 == 1 else is_last

-- The next sector, whether it is the last one, and the disk.
pub record NextSector : Type 0 where
  pub next : ℕ
  pub is_last : Bool
  pub disk : Vdisk

-- In the last cluster of the file, `c`.
abbrev pub in_last : Geometry → Vdisk → FatFile → ℕ → ℕ → ℕ → Bool → NextSector
in_last g s f c o next is_last =
    let last = if f.flag == read_only then sectors_used g f.size else g.sectors_per_cluster in
    if ltb o (last - 1)
    then record { next = cluster_sector g c + o + 1; is_last = o == last - 2; disk = s }
    else record { next = next; is_last = is_last; disk = s }

-- In front of the last cluster: `n` follows `c`.
unfoldable pub in_front : Geometry → Vdisk → FatFile → ℕ → ℕ → ℕ → Bool → NextSector
unfolding get_next_cluster
in_front g s f c n o is_last =
    let c' = if ltb o (g.sectors_per_cluster - 1) then c else n in
    let after = get_next_cluster g s c' in
    record {
      next =
          if ltb o (g.sectors_per_cluster - 1)
          then cluster_sector g c + o + 1
          else cluster_sector g n;
      is_last = if after.0 == fat_end then last_behind g f is_last else is_last;
      disk = after.1;
    }

-- At sector `o` of cluster `c`.
unfoldable pub next_at : Geometry → Vdisk → FatFile → ℕ → ℕ → ℕ → Bool → NextSector
unfolding get_next_cluster in_front
next_at g s f c o next is_last =
    let after = get_next_cluster g s c in
    if after.0 == fat_end
    then in_last g after.1 f c o next is_last
    else in_front g after.1 f c after.0 o is_last

unfoldable pub get_next_sector : Geometry → Vdisk → FatFile → ℕ → ℕ → Bool → NextSector
unfolding next_at
get_next_sector g s f cur next is_last =
    let temp = cur - g.reserved_sector - 2 * g.sectors_per_fat in
    next_at g s f (temp / g.sectors_per_cluster + 2) (temp % g.sectors_per_cluster) next is_last

-- The loop of `GetFileOffset`, for `n` sectors in front of the one that is wanted.
unfoldable pub offset_loop : ℕ → Geometry → FatFile → ℕ → NextSector → ℕ × NextSector
unfolding get_next_sector
offset_loop zero g f cur l = (cur, l)
offset_loop (suc n) g f cur l =
    let l' = get_next_sector g l.disk f cur l.next l.is_last in offset_loop n g f l'.next l'

-- `GetFileOffset`: the sector of the file's position, with whether it is the last one, and the disk. The
-- callers' variable for the next sector is another one, still 0.
unfoldable pub get_file_offset : Geometry → Vdisk → FatFile → ℕ × NextSector
unfolding offset_loop
get_file_offset g s f =
    let total =
      if f.size % g.bytes_per_sector == 0
      then f.size / g.bytes_per_sector
      else f.size / g.bytes_per_sector + 1 in
    let (cur, l) =
      offset_loop (f.off / g.bytes_per_sector) g f (cluster_sector g f.start)
        (record { next = 0; is_last = false; disk = s }) in
    (cur, record { next = 0; is_last = if total == 1 then true else l.is_last; disk = l.disk })

abbrev pub move_on : FatFile → ℕ → FatFile
move_on f n = record f { off = add32 f.off n }

abbrev pub put_first : List ℕ → List ℕ × (FatFile × Vdisk) → Outcome (List ℕ × (FatFile × Vdisk))
put_first bytes (more, fs) = ok (bytes ++ more, fs)

-- What is left of the sector in `ReadFile`.
abbrev pub left_in_sector : Geometry → FatFile → Bool → ℕ → ℕ
left_in_sector g f is_last o =
    if is_last
    then sub32
        (if f.size % g.bytes_per_sector == 0
          then g.bytes_per_sector
          else f.size % g.bytes_per_sector)
        o
    else g.bytes_per_sector - o

-- The loop of `ReadFile`; `want` bytes are missing.
unfoldable pub read_sectors :
    ℕ → Geometry → FatFile → ℕ → NextSector → ℕ → ℕ → Outcome (List ℕ × (FatFile × Vdisk))
unfolding get_next_sector
read_sectors zero g f cur l o want = no_fuel
read_sectors (suc fuel) g f cur l o want =
    let free = left_in_sector g f l.is_last o in
    let n = if ltb free want then free else want in
    let bytes = bytes_at (l.disk.sect cur) o n in
    let f' = move_on f n in
    let l' = get_next_sector g l.disk f' cur l.next l.is_last in
    let rest = read_sectors fuel g f' l'.next l' 0 (want - n) in
    if l.is_last || leb want free then ok (bytes, (f', l.disk)) else rest >>= put_first bytes

-- Whether the mode of the file allows reading: R, RW or RW|C.
abbrev pub may_read : ℕ → Bool
may_read flag = flag == 5 || flag == 2 || flag == 3

-- W, RW or RW|C
abbrev pub may_write : ℕ → Bool
may_write flag = flag == 6 || flag == 2 || flag == 3

-- `ReadFile`: the bytes, or `none` for ACCESSDENIED.
unfoldable pub read_file :
    ℕ → Geometry → Vdisk → FatFile → ℕ → Outcome (Option (List ℕ) × (FatFile × Vdisk))
unfolding get_file_offset read_sectors
read_file fuel g s f len =
    let at = get_file_offset g s f in
    if not (may_read f.flag)
    then ok (none, (f, s))
    else if leb f.size f.off
    then ok (some [], (f, s))
    else (read_sectors fuel g f at.0 at.1 (f.off % g.bytes_per_sector) len >>= λ (bytes, fs).
        ok (some bytes, fs))

abbrev pub put_bytes : Sector → ℕ → List ℕ → Sector
put_bytes b o bytes x = if leb o x && ltb x (o + length bytes) then get_or bytes (x - o) 0 else b x

-- The loop of `WriteFile`, and the sector behind it.
unfoldable pub write_sectors :
    ℕ → Geometry → FatFile → ℕ → NextSector → ℕ → List ℕ → Outcome (FatFile × Vdisk)
unfolding write_sector get_next_sector
write_sectors zero g f cur l o bytes = no_fuel
write_sectors (suc fuel) g f cur l o bytes =
    let free = g.bytes_per_sector - o in
    let filled = write_sector l.disk (put_bytes (l.disk.sect cur) o (take free bytes)) cur in
    let f' = move_on f free in
    let l' = get_next_sector g filled f' cur l.next l.is_last in
    let rest = write_sectors fuel g f' l'.next l' 0 (drop free bytes) in
    if ltb free (length bytes)
    then rest
    else ok
        (move_on f (length bytes), write_sector l.disk (put_bytes (l.disk.sect cur) o bytes) cur)

-- The clusters that `WriteFile` takes for `len` bytes; `none` is INSUFFICIENTSPACE.
unfoldable pub take_clusters :
    ℕ → Geometry → Vdisk → FatFile → ℕ → Sector → List ℕ → Outcome (Option (FatFile × Vdisk))
unfolding allot_clusters_for_empty_file need_more_cluster add_cluster
take_clusters fuel g s f len buf junk =
    if f.start == 0
    then (allot_clusters_for_empty_file g s len buf junk >>= λ (c, s').
        ok (some (record f { start = c }, s')))
    else elim (need_more_cluster g f.off len) [
      | none ↦ ok (some (f, s))
      | some n ↦ add_cluster fuel g s buf f.start n >>= λ r.
          ok (elim r [ none ↦ none | some s' ↦ some (f, s') ])
    ]

-- `WriteFile`. `buf` and `junk` are what the buffers for a sector and for cluster numbers hold.
unfoldable pub write_file :
    ℕ → Geometry → Vdisk → FatFile → List ℕ → Sector → List ℕ → Outcome (State × (FatFile × Vdisk))
unfolding take_clusters get_file_offset write_sectors
write_file fuel g s f bytes buf junk =
    if not (may_write f.flag)
    then ok (access_denied, (f, s))
    else (take_clusters fuel g s f (length bytes) buf junk >>= λ r. elim r [
      | none ↦ ok (insufficient_space, (f, s))
      | some (f', s') ↦
          write_sectors fuel g f' (get_file_offset g s' f').0 (get_file_offset g s' f').1
            (f'.off % g.bytes_per_sector) bytes
          >>= λ fs. ok (done, fs)
    ])
