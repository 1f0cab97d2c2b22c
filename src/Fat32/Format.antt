-- ===== src/Fat32/Format.antt =====
-- The formatting of a disk, kernel/fat32.c: `mkfs_fat` and `init_fs_fat`.
use exp_memfs.Base.{
  ◌==◌, if◌then◌else◌, replicate, ℕ, zero, suc, ◌+◌, ◌-◌, ◌*◌, ◌/◌, ◌%◌, ◌^◌, ◌≤◌, ◌<◌, ◌≡◌, refl,
  ap, ◌∙◌, false, List, [], ◌∷◌, ◌++◌, map, arith,
}
use exp_memfs.Fat32.{disk_position, Geometry, Sector, fat_end, get_dword, put_sector, load_disk}
use mathlib.Core.Path.{ap₂}
use exp_memfs.Fat32.Table.{entry, IsUsual}
use exp_memfs.Fat32.Free.{entry-eq}
use exp_memfs.Fat32.Find.{zeros}
use exp_memfs.Fat32.Name.{create_record}
use exp_memfs.Fat32.Dir.{put_record}
use exp_memfs.Fat32.Files.{put_bytes}
use exp_memfs.Fat32.Open.{OpenFat}
use exp_memfs.Fat32.Table.{entry, IsUsual}
use exp_memfs.Fat32.Free.{entry-eq}

-- The low `n` bytes of a number.
abbrev pub bytes_of : ℕ → ℕ → List ℕ
bytes_of zero v = []
bytes_of (suc n) v = v % 256 ∷ bytes_of n (v / 256)

unfoldable pub fat_sectors : ℕ → ℕ
fat_sectors total = (total * 512 + 2 ^ 32 - 8192) % 2 ^ 32 / 525312 + 1

-- The boot record, over what the buffer held.
unfoldable pub boot_record : ℕ → ℕ → Sector → Sector
boot_record total per_fat buf =
    let b1 =
      put_bytes (put_bytes buf 0 (bytes_of 3 0x009058eb)) 3
        (bytes_of 4 0x4f44534d ++ bytes_of 4 0x302e3553) in
    let b2 = put_bytes (put_bytes b1 11 (bytes_of 2 512)) 13 (bytes_of 1 8) in
    let b3 = put_bytes (put_bytes b2 14 (bytes_of 2 32)) 16 (bytes_of 1 2) in
    let b4 = put_bytes (put_bytes b3 21 (bytes_of 1 0xF8)) 32 (bytes_of 4 total) in
    let b5 = put_bytes (put_bytes b4 36 (bytes_of 4 per_fat)) 44 (bytes_of 4 2) in
    let b6 = put_bytes b5 71 (b'N' ∷ b'O' ∷ b' ' ∷ b'N' ∷ b'A' ∷ b'M' ∷ b'E' ∷ replicate 4 b' ') in
    let b7 = put_bytes b6 82 (b'F' ∷ b'A' ∷ b'T' ∷ b'3' ∷ b'2' ∷ replicate 3 b' ') in
    put_bytes b7 510 (bytes_of 2 0xaa55)

-- The first sector of the table: the media descriptor, and the end mark of the root directory.
unfoldable pub first_fat : Sector
first_fat =
    put_bytes (put_bytes zeros 0 (bytes_of 4 0x0ffffff8 ++ bytes_of 4 0xffffffff)) 8
      (bytes_of 4 fat_end)

-- `mkfs_fat` of a disk of `total` sectors. The label "MZY" has no NUL: `behind` is the text behind it.
unfoldable pub mkfs_fat : ℕ → Sector → List ℕ → Sector → (ℕ → Sector) → ℕ → Sector
unfolding fat_sectors boot_record first_fat create_record
mkfs_fat total buf behind junk d =
    let d1 = put_sector d 1 (boot_record total (fat_sectors total) buf) in
    let label = create_record (b'M' ∷ b'Z' ∷ b'Y' ∷ behind) 0x08 0 0 junk in
    put_sector (put_sector d1 32 first_fat) (32 + 2 * fat_sectors total) (put_record zeros 0 label)

abbrev pub unflag : OpenFat → OpenFat
unflag f = record f { file = record f.file { flag = 0 } }

-- `init_fs_fat`: a disk whose number of sectors is 0 is formatted. What is loaded, the disk, and the
-- table of open files.
unfoldable pub init_fs_fat :
    ℕ → List ℕ → Sector → (ℕ → Sector) → List OpenFat → Geometry × ((ℕ → Sector) × List OpenFat)
unfolding mkfs_fat load_disk
init_fs_fat total behind junk d files =
    let d' = if get_dword (d 1) 32 == 0 then mkfs_fat total (d 1) behind junk d else d in
    (load_disk (d' 1), (d', map unflag files))

abbrev formatted : ℕ → List ℕ → Sector → (ℕ → Sector) → ℕ → Sector
formatted total behind junk d = mkfs_fat total (d 1) behind junk d

few : (total : ℕ) → (1 ≤ fat_sectors total) × (fat_sectors total < 8200)
unfolding fat_sectors
few total = (omega arith, omega arith)

at_1 :
    (total : ℕ) (behind : List ℕ) (junk : Sector) (d : ℕ → Sector)
    → formatted total behind junk d 1 ≡ boot_record total (fat_sectors total) (d 1)
unfolding mkfs_fat
at_1 total behind junk d = rw apart refl
  where
    apart : (disk_position 1 == disk_position (32 + 2 * fat_sectors total)) ≡ false
    apart = ground (arith, few total)

at_32 :
    (total : ℕ) (behind : List ℕ) (junk : Sector) (d : ℕ → Sector)
    → formatted total behind junk d 32 ≡ first_fat
unfolding mkfs_fat
at_32 total behind junk d = rw apart refl
  where
    apart : (disk_position 32 == disk_position (32 + 2 * fat_sectors total)) ≡ false
    apart = ground (arith, few total)

load-boot_record :
    (total per_fat : ℕ) (buf : Sector)
    → per_fat < 2 ^ 32
    → load_disk (boot_record total per_fat buf) ≡ record {
      bytes_per_sector = 512;
      sectors_per_cluster = 8;
      reserved_sector = 32;
      sectors_per_fat = per_fat;
    }
unfolding load_disk boot_record
load-boot_record total per_fat buf h =
    ap
      (λ n. record {
        bytes_per_sector = 512;
        sectors_per_cluster = 8;
        reserved_sector = 32;
        sectors_per_fat = n;
      })
      back
  where
    back :
        per_fat % 256
          + 2 ^ 8 * (per_fat / 256 % 256)
          + 2 ^ 16 * (per_fat / 256 / 256 % 256)
          + 2 ^ 24 * (per_fat / 256 / 256 / 256 % 256)
        ≡ per_fat
    back = omega (arith, h)

first_fat-zero : (c : ℕ) → 3 ≤ c → get_dword first_fat (c * 4) ≡ 0
unfolding first_fat
first_fat-zero c h = ground (arith, h)

init_fs_fat-eq :
    (total : ℕ) (behind : List ℕ) (junk : Sector) (d : ℕ → Sector) (files : List OpenFat)
    → get_dword (d 1) 32 ≡ 0
    → init_fs_fat total behind junk d files ≡ (
      record {
        bytes_per_sector = 512;
        sectors_per_cluster = 8;
        reserved_sector = 32;
        sectors_per_fat = fat_sectors total;
      },
      (formatted total behind junk d, map unflag files),
    )
unfolding init_fs_fat fat_sectors
init_fs_fat-eq total behind junk d files h = rw h (
    ap (λ b. (load_disk b, (formatted total behind junk d, map unflag files)))
      (at_1 total behind junk d)
    ∙ ap (λ g. (g, (formatted total behind junk d, map unflag files)))
        (load-boot_record total (fat_sectors total) (d 1) (omega arith)))

entry-formatted :
    (total : ℕ) (behind : List ℕ) (junk : Sector) (d : ℕ → Sector) (g : Geometry) (c : ℕ)
    → IsUsual g
    → g.reserved_sector ≡ 32
    → c < 128
    → entry g (formatted total behind junk d) c ≡ get_dword first_fat (c * 4)
entry-formatted total behind junk d g c u r h =
    entry-eq g (formatted total behind junk d) c u (omega (arith, h))
    ∙ ap₂ (λ i o. get_dword (formatted total behind junk d i) o) (omega (arith, r, h))
        (omega (arith, h))
    ∙ ap (λ b. get_dword b (c * 4)) (at_32 total behind junk d)

-- A disk whose number of sectors reads as 0 is formatted by `init_fs_fat`, and what is loaded then is
-- usual: sectors of 512 bytes, 8 to a cluster, behind 32 reserved ones. The root directory, cluster 2,
-- is a chain of its own, and the other clusters with an entry in the first sector of the table are free.
pub init_fs_fat_lem :
    (total : ℕ) (behind : List ℕ) (junk : Sector) (d : ℕ → Sector) (files : List OpenFat) (c : ℕ)
    → get_dword (d 1) 32 ≡ 0
    → 3 ≤ c
    → c < 128
    → IsUsual (init_fs_fat total behind junk d files).0
      × ((init_fs_fat total behind junk d files).0.sectors_per_cluster ≡ 8)
      × ((init_fs_fat total behind junk d files).0.reserved_sector ≡ 32)
      × (entry
            (init_fs_fat total behind junk d files).0
            (init_fs_fat total behind junk d files).1.0
            2
          ≡ fat_end)
      × (entry
            (init_fs_fat total behind junk d files).0
            (init_fs_fat total behind junk d files).1.0
            c
          ≡ 0)
unfolding first_fat
init_fs_fat_lem total behind junk d files c z l h =
    rw (init_fs_fat-eq total behind junk d files z) (
      usual,
      refl,
      refl,
      entry-formatted total behind junk d geometry 2 usual refl (omega arith),
      entry-formatted total behind junk d geometry c usual refl h ∙ first_fat-zero c l,
    )
  where
    geometry : Geometry
    geometry = record {
      bytes_per_sector = 512;
      sectors_per_cluster = 8;
      reserved_sector = 32;
      sectors_per_fat = fat_sectors total;
    }

    usual : IsUsual geometry
    usual = record { size = refl; front = λ e. absurd (omega (arith, e)) }
