-- ===== src/Fat32/Open.antt =====
-- `OpenFile` and `CloseFile` of kernel/fat32.c, on the tables of descriptors and of open files.
use exp_memfs.Base.{
  leb, ◌==◌, if◌then◌else◌, get_or, set, drop, ◌>>=◌, Outcome, ok, fault, ℕ, ◌+◌, ◌/◌, ◌%◌, ◌^◌,
  Option, none, some, List, [], ◌∷◌,
}
use exp_memfs.Fat32.{
  Geometry, Sector, Vdisk, fat_end, get_dword, put_dword, get_next_cluster, write_fat, clear_fats,
}
use exp_memfs.Fat32.Name.{put_word, create_record}
use exp_memfs.Fat32.Dir.{Hit, read_record, find_space_in_dir, write_record, record_cluster}
use exp_memfs.Fat32.Path.{get_name_from_path, get_parent_from_path, to_full_path, path_to_cluster}
use exp_memfs.Fat32.Files.{FatFile, read_only, get_file_offset}

-- A place of `f_desc_table`: its flag, and the place of its file in `f_desc_table_fat`.
pub record FatDesc : Type 0 where
  pub flag : ℕ
  pub fd_file : ℕ

-- A place of `f_desc_table_fat`.
pub record OpenFat : Type 0 where
  pub parent : List ℕ
  pub name : List ℕ
  pub file : FatFile

-- The descriptors of the process, which name places of `f_desc_table`, and the two tables.
pub record FatTables : Type 0 where
  pub filp : List (Option ℕ)
  pub descs : List FatDesc
  pub files : List OpenFat

abbrev pub unused_filp : List (Option ℕ) → ℕ → Option ℕ
unused_filp [] i = none
unused_filp (none ∷ ps) i = some i
unused_filp (some p ∷ ps) i = unused_filp ps (i + 1)

abbrev pub unused_desc : List FatDesc → ℕ → Option ℕ
unused_desc [] i = none
unused_desc (d ∷ ds) i = let rest = unused_desc ds (i + 1) in if d.flag == 0 then some i else rest

abbrev pub unused_file : List OpenFat → ℕ → Option ℕ
unused_file [] i = none
unused_file (f ∷ fs) i =
    let rest = unused_file fs (i + 1) in if f.file.flag == 0 then some i else rest

-- The rest of `OpenFile`, for the record of the file. With `f_desc_table_fat` full the place behind the
-- table is written to.
unfoldable pub open_record :
    FatTables → List ℕ → List ℕ → Sector → ℕ → Outcome (Option ℕ × FatTables)
open_record t parent name r mode = elim (unused_filp (drop 3 t.filp) 3) [
  | none ↦ ok (none, t)
  | some fd ↦ elim (unused_desc t.descs 0) [
    | none ↦ ok (none, t)
    | some i ↦ elim (unused_file t.files 0) [
      | none ↦ fault
      | some k ↦ ok (
        some fd,
        record {
          filp = set t.filp fd (some i);
          descs = set t.descs i (record { flag = 1; fd_file = k });
          files = set t.files k (record {
            parent = parent;
            name = name;
            file = record { start = record_cluster r; off = 0; size = get_dword r 28; flag = mode };
          });
        },
      )
    ]
  ]
]

-- What `mode & O_CREAT` and the search for space say: the disk to go on with, or `none` to give up.
unfoldable pub created : Vdisk → List ℕ → ℕ → Sector → Option (ℕ × ℕ) → Option Vdisk
unfolding create_record write_record
created s name mode junk none = some s
created s name mode junk (some (c, o)) =
    if mode % 2 == 1 then some (write_record s (create_record name 0x20 0 0 junk) c o) else none

-- `OpenFile`: the descriptor, or `none` for -1.
unfoldable pub open_file :
    ℕ
    → Geometry
    → Vdisk
    → FatTables
    → List ℕ
    → List ℕ
    → ℕ
    → Sector
    → Outcome (Option ℕ × (FatTables × Vdisk))
unfolding to_full_path get_parent_from_path get_name_from_path path_to_cluster find_space_in_dir
    created read_record open_record
open_file fuel g s t cur filename mode junk =
    get_parent_from_path (to_full_path cur filename) >>= λ parent.
    path_to_cluster fuel g s.sect cur parent >>= λ c. elim c [
      | none ↦ ok (none, (t, s))
      | some n ↦
          find_space_in_dir fuel g s.sect n (get_name_from_path (to_full_path cur filename))
          >>= λ p. elim (created s (get_name_from_path (to_full_path cur filename)) mode junk p) [
            | none ↦ ok (none, (t, s))
            | some s' ↦
                read_record fuel g s'.sect n (get_name_from_path (to_full_path cur filename))
                >>= λ h. elim h [
                  | none ↦ ok (none, (t, s'))
                  | some hit ↦
                      open_record t parent (get_name_from_path (to_full_path cur filename)) hit.rec
                        mode
                      >>= λ (fd, t'). ok (fd, (t', s'))
                ]
          ]
    ]

abbrev pub no_file : OpenFat
no_file = record {
  parent = [];
  name = [];
  file = record { start = 0; off = 0; size = 0; flag = 0 };
}

-- The clusters behind the position, in `CloseFile`: those behind cluster 0, since `curClusterIndex` is
-- not set.
unfoldable pub cut_clusters : ℕ → Geometry → Vdisk → FatFile → Sector → Outcome Vdisk
unfolding get_file_offset get_next_cluster write_fat clear_fats
cut_clusters fuel g s f buf =
    let at = (get_file_offset g s f).1 in
    let after = get_next_cluster g at.disk 0 in
    if leb f.size f.off
    then ok s
    else if at.is_last
    then ok at.disk
    else if after.0 == fat_end
    then ok after.1
    else clear_fats fuel g (write_fat g after.1 buf (0 ∷ [])) buf after.0

abbrev pub hit_or : Sector → Option Hit → Hit
hit_or junk none = record { rec = junk; sector = 0; off = 0 }
hit_or junk (some hit) = hit

-- The record of the file with its start and its new length. Where the name is not found, what stands in
-- the record and place 0 of sector 0 are used.
unfoldable pub put_length : Vdisk → FatFile → Sector → Option Hit → Vdisk
unfolding write_record
put_length s f junk h =
    write_record s
      (put_dword
        (put_word (put_word (hit_or junk h).rec 20 (f.start / 2 ^ 16)) 26 (f.start % 2 ^ 16)) 28
        f.off)
      (hit_or junk h).sector (hit_or junk h).off

-- The file that a descriptor of the process names, and its place.
abbrev pub file_of : FatTables → ℕ → ℕ × OpenFat
file_of t i = (
  (get_or t.descs i (record { flag = 0; fd_file = 0 })).fd_file,
  get_or t.files (get_or t.descs i (record { flag = 0; fd_file = 0 })).fd_file no_file,
)

-- The flag of place `i` is cleared.
abbrev pub clear_flag : List OpenFat → ℕ → List OpenFat
clear_flag fs i =
    set fs i
      (record (get_or fs i no_file) { file = record (get_or fs i no_file).file { flag = 0 } })

abbrev pub clear_desc : FatTables → ℕ → ℕ → FatTables
clear_desc t fd i = record {
  filp = set t.filp fd none;
  descs = set t.descs i (record { flag = 0; fd_file = (file_of t i).0 });
  files = clear_flag t.files fd;
}

-- `CloseFile`. `f_desc_table_fat` is cleared at the number of the descriptor.
unfoldable pub close_file :
    ℕ → Geometry → Vdisk → FatTables → List ℕ → ℕ → Sector → Outcome (FatTables × Vdisk)
unfolding cut_clusters path_to_cluster read_record put_length
close_file fuel g s t cur fd junk = elim (get_or t.filp fd none) [
  | none ↦ fault
  | some i ↦
      let t' = clear_desc t fd i in
      let f = get_or t'.files (file_of t i).0 no_file in
      if f.file.flag == read_only
      then ok (t', s)
      else (cut_clusters fuel g s f.file junk >>= λ s'.
          path_to_cluster fuel g s'.sect cur f.parent >>= λ c.
          read_record fuel g s'.sect (elim c [ none ↦ 0 | some n ↦ n ]) f.name >>= λ h.
          ok (t', put_length s' f.file junk h))
]
