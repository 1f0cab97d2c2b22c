-- ===== src/Fat32.antt =====
-- The FAT32 file system, kernel/base.c: the sectors of the disk, the file allocation table, and what is
-- loaded from the boot record. A sector is the function from an offset to its byte. The buffers that
-- `sys_kmalloc` gives are left out: a buffer is a sector. `ReadSector` and `WriteSector` move 512 bytes:
-- a disk with sectors of another size is not the one that the table describes. The children have the
-- search for free clusters, the records of directories, paths, and files.
pub mod Table
pub mod Chain
pub mod Clear
pub mod Cache
pub mod Find
pub mod Free
pub mod Name
pub mod NameTrip
pub mod Dir
pub mod Place
pub mod Path
pub mod Ops
pub mod Files
pub mod Open
pub mod Format
pub mod Step
pub mod Walk
pub mod Reading
pub mod Created
mod Tests
use exp_memfs.Base.{
  ltb, leb, ◌==◌, if◌then◌else◌, ltb→lt, lt→ltb, leb→le, ==_iff, Bool-cases, Option-cases, length,
  get_or, set, take, drop, replicate, erase_at, insert_at, length-append, length-set,
  get_or-set_self, get_or-set_ne, length-insert_at, take-append-drop, length-take, length-drop, mem,
  Distinct, u32_mod, add32, sub32, minus_one, sub_ℕ, ◌>>=◌, ◌>>◌, assert, Outcome, ok, panic, fault,
  no_fuel, ℤ, pos, negsuc, ℕ, zero, suc, ◌+◌, ◌-◌, ◌*◌, ◌/◌, ◌%◌, ◌^◌, ◌≤◌, ◌<◌, ◌≡◌, refl, sym, ap,
  ◌∙◌, ◌≢◌, ◌↔◌, ◌⊎◌, inl, inr, Bool, true, false, not, ◌&&◌, ◌||◌, Option, none, some, List, [],
  ◌∷◌, ◌++◌, map, arith,
}

-- What is loaded from the boot record of the disk.
pub record Geometry : Type 0 where
  pub bytes_per_sector : ℕ
  pub sectors_per_cluster : ℕ
  pub reserved_sector : ℕ
  pub sectors_per_fat : ℕ

abbrev pub Sector : Type 0
Sector = ℕ → ℕ

-- The disk, `FATBuf` and `globalSectorIndex`.
pub record Vdisk : Type 0 where
  pub sect : ℕ → Sector
  pub fat_buf : Sector
  pub global_sector : ℕ

-- FAT_END
abbrev pub fat_end : ℕ
fat_end = 0x0FFFFFFF

abbrev pub get_dword : Sector → ℕ → ℕ
get_dword b o = b o + 2 ^ 8 * b (o + 1) + 2 ^ 16 * b (o + 2) + 2 ^ 24 * b (o + 3)

abbrev pub put_dword : Sector → ℕ → ℕ → Sector
put_dword b o v x =
    if x == o
    then v % 256
    else if x == o + 1
    then v / 2 ^ 8 % 256
    else if x == o + 2
    then v / 2 ^ 16 % 256
    else if x == o + 3
    then v / 2 ^ 24 % 256
    else b x

-- `(sect_nr) * SECTOR_SIZE`, in 32 bits. The driver takes it as an `int`, which from 2 ^ 31 on is
-- negative and gives a place of its own: two sectors are one place of the disk if they agree here.
abbrev pub disk_position : ℕ → ℕ
disk_position i = i * 512 % 2 ^ 32

-- What is read behind a write of sector `i`.
abbrev pub put_sector : (ℕ → Sector) → ℕ → Sector → ℕ → Sector
put_sector d i buf j = if disk_position j == disk_position i then buf else d j

-- `FATBuf`, once 512 bytes are copied to it.
abbrev pub copy_512 : Sector → Sector → Sector
copy_512 fat_buf buf x = if ltb x 512 then buf x else fat_buf x

unfoldable pub write_sector : Vdisk → Sector → ℕ → Vdisk
write_sector s buf i = record {
  sect = put_sector s.sect i buf;
  fat_buf = if i == s.global_sector then copy_512 s.fat_buf buf else s.fat_buf;
  global_sector = s.global_sector;
}

-- `8+(cluster-2)*sizeof(DWORD)`
abbrev pub fat_offset : ℕ → ℕ
fat_offset c = (8 + (c + 2 ^ 32 - 2) * 4) % 2 ^ 32

-- The sector of the table with the entry of cluster `c`, and the place of the entry there.
unfoldable pub fat_sector : Geometry → ℕ → ℕ
fat_sector g c = g.reserved_sector + fat_offset c / g.bytes_per_sector

unfoldable pub fat_place : Geometry → ℕ → ℕ
fat_place g c = fat_offset c % g.bytes_per_sector

unfoldable pub get_next_cluster : Geometry → Vdisk → ℕ → ℕ × Vdisk
unfolding fat_sector fat_place
get_next_cluster g s c =
    let i = fat_sector g c in
    let s' =
      if i == s.global_sector
      then s
      else record s { fat_buf = copy_512 s.fat_buf (s.sect i); global_sector = i } in
    (get_dword s'.fat_buf (fat_place g c), s')

-- A buffer with the content of sector `pre` of the disk; 0 for none yet.
pub record Buffered : Type 0 where
  pub disk : Vdisk
  pub buf : Sector
  pub pre : ℕ

-- Sector `i` comes into the buffer, and the one before it goes to the disk.
unfoldable pub switch : Buffered → ℕ → Buffered
unfolding write_sector
switch b i =
    let s = if b.pre == 0 then b.disk else write_sector b.disk b.buf b.pre in
    if i == b.pre then b else record { disk = s; buf = s.sect i; pre = i }

unfoldable pub put_entry : Geometry → Buffered → ℕ → ℕ → Buffered
unfolding fat_sector fat_place switch
put_entry g b c v =
    let b' = switch b (fat_sector g c) in record b' { buf = put_dword b'.buf (fat_place g c) v }

-- The loop of `WriteFAT`: every entry is the next cluster, and the last one the end mark.
unfoldable pub put_chain : Geometry → Buffered → List ℕ → Buffered
unfolding put_entry
put_chain g b [] = b
put_chain g b (c ∷ []) = put_entry g b c fat_end
put_chain g b (c ∷ d ∷ cs) = put_chain g (put_entry g b c d) (d ∷ cs)

abbrev pub flush : Buffered → Vdisk
flush b = write_sector b.disk b.buf b.pre

-- `WriteFAT`, with what the new buffer holds.
unfoldable pub write_fat : Geometry → Vdisk → Sector → List ℕ → Vdisk
unfolding put_chain
write_fat g s buf clusters = flush (put_chain g (record { disk = s; buf = buf; pre = 0 }) clusters)

-- The loop of `ClearFATs`.
unfoldable pub clear_loop : ℕ → Geometry → Buffered → ℕ → Outcome Vdisk
unfolding put_entry
clear_loop zero g b c = no_fuel
clear_loop (suc fuel) g b c =
    let next = get_dword (switch b (fat_sector g c)).buf (fat_place g c) in
    let b' = put_entry g b c 0 in
    let more = clear_loop fuel g b' next in if next == fat_end then ok (flush b') else more

unfoldable pub clear_fats : ℕ → Geometry → Vdisk → Sector → ℕ → Outcome Vdisk
unfolding clear_loop
clear_fats fuel g s buf start =
    if start == 0 then ok s else clear_loop fuel g (record { disk = s; buf = buf; pre = 0 }) start

-- What `load_disk` loads from the boot record.
unfoldable pub load_disk : Sector → Geometry
load_disk buf = record {
  bytes_per_sector = buf 11 + 2 ^ 8 * buf 12;
  sectors_per_cluster = buf 13;
  reserved_sector = buf 14 + 2 ^ 8 * buf 15;
  sectors_per_fat = get_dword buf 36;
}
