-- ===== src/Fat32/Ops.antt =====
-- Files and directories by path, kernel/fat32.c: `CreateFile`, `DeleteFile`, `IsFile`, `CreateDir`,
-- `OpenDir`, `DeleteDir` and, of kernel/base.c, `DeleteAllRecord`. `cur` is `cur_path`, `junk` what a new
-- record or buffer holds.
use exp_memfs.Base.{
  leb, ◌==◌, if◌then◌else◌, length, ◌>>=◌, Outcome, ok, no_fuel, ℕ, zero, suc, ◌+◌, ◌-◌, ◌*◌, ◌/◌,
  ◌%◌, Bool, true, false, not, ◌||◌, Option, none, some, List, [], ◌∷◌, ◌++◌,
}
use exp_memfs.Fat32.{
  Geometry, Sector, Vdisk, fat_end, write_sector, get_next_cluster, write_fat, clear_fats,
}
use exp_memfs.Fat32.Find.{cluster_sector}
use exp_memfs.Fat32.Name.{put_byte, create_record}
use exp_memfs.Fat32.Dir.{
  same_text, record_at, read_record, find_space_in_dir, write_record, record_cluster, clear_record,
  find_cluster_for_dir,
}
use exp_memfs.Str.{strcmp}
use exp_memfs.Fat32.Path.{
  is_full_path, make_full_path, change_current_path, get_name_from_path, get_parent_from_path,
  to_full_path, path_to_cluster,
}

-- What a call returns: OK, INSUFFICIENTSPACE, WRONGPATH, NAMEEXIST or ACCESSDENIED.
pub data State : Type 0 where
  done insufficient_space wrong_path name_exist access_denied : State

-- The cluster of the directory of a path, and the record of its last name; `none` is WRONGPATH.
abbrev pub with_parent :
    {A : Type 0} → ℕ → Geometry → Vdisk → List ℕ → List ℕ → A → (ℕ → Outcome A) → Outcome A
with_parent fuel g s cur path failed f = get_parent_from_path (to_full_path cur path) >>= λ parent.
    path_to_cluster fuel g s.sect cur parent >>= λ c. elim c [ none ↦ ok failed | some n ↦ f n ]

-- `IsFile`: whether it is a file, or a directory; `none` is WRONGPATH.
unfoldable pub is_file : ℕ → Geometry → Vdisk → List ℕ → List ℕ → Outcome (Option Bool)
unfolding to_full_path get_parent_from_path get_name_from_path path_to_cluster read_record
is_file fuel g s cur path = with_parent fuel g s cur path none λ n.
    read_record fuel g s.sect n (get_name_from_path (to_full_path cur path)) >>= λ h.
    ok (elim h [ none ↦ none | some hit ↦ some (not (hit.rec 11 == 0x10)) ])

-- `CreateFile`. The name is that of the path as it was given.
unfoldable pub create_file :
    ℕ → Geometry → Vdisk → List ℕ → List ℕ → Sector → Outcome (State × Vdisk)
unfolding to_full_path get_parent_from_path get_name_from_path path_to_cluster find_space_in_dir
    create_record write_record
create_file fuel g s cur filename junk =
    with_parent fuel g s cur filename (wrong_path, s)
      λ n.
        let name = get_name_from_path filename in
        find_space_in_dir fuel g s.sect n name >>= λ p. elim p [
          | none ↦ ok (name_exist, s)
          | some (c, o) ↦ ok (done, write_record s (create_record name 0x20 0 0 junk) c o)
        ]

unfoldable pub delete_file :
    ℕ → Geometry → Vdisk → List ℕ → List ℕ → Sector → Outcome (State × Vdisk)
unfolding is_file to_full_path get_parent_from_path get_name_from_path path_to_cluster clear_record
    clear_fats
delete_file fuel g s cur filename junk = is_file fuel g s cur (to_full_path cur filename) >>= λ tag.
    elim tag [
      | none ↦ ok (wrong_path, s)
      | some false ↦ ok (wrong_path, s)
      | some true ↦
          with_parent fuel g s cur filename (wrong_path, s)
            λ n. clear_record fuel g s n (get_name_from_path (to_full_path cur filename)) >>= λ r.
              elim r [
                | none ↦ ok (wrong_path, s)
                | some (start, s') ↦ clear_fats fuel g s' junk start >>= λ t. ok (done, t)
              ]
    ]

-- `CreateDir`.
unfoldable pub create_dir :
    ℕ → Geometry → Vdisk → List ℕ → List ℕ → Sector → Outcome (State × Vdisk)
unfolding to_full_path get_parent_from_path get_name_from_path path_to_cluster find_space_in_dir
    find_cluster_for_dir create_record write_record write_fat
create_dir fuel g s cur dirname junk =
    with_parent fuel g s cur dirname (wrong_path, s)
      λ n.
        let name = get_name_from_path (to_full_path cur dirname) in
        find_space_in_dir fuel g s.sect n name >>= λ p. elim p [
          | none ↦ ok (name_exist, s)
          | some (c, o) ↦ elim (find_cluster_for_dir g s) [
            | none ↦ ok (insufficient_space, s)
            | some (start, s1) ↦
                let own = create_record name 0x10 start 0 junk in
                let s2 = write_fat g (write_record s1 own c o) junk (start ∷ []) in
                let dot = create_record (b'.' ∷ []) 0x10 start 0 own in
                let s3 = write_record s2 dot (cluster_sector g start) 0 in
                let dots = create_record (b'.' ∷ b'.' ∷ []) 0x10 n 0 dot in
                ok (done, write_record s3 dots (cluster_sector g start) 32)
          ]
        ]

-- The last part of `OpenDir`: `full` becomes the current path if `name` is a directory in `parent`.
unfoldable pub enter :
    ℕ → Geometry → Vdisk → List ℕ → List ℕ → List ℕ → List ℕ → Outcome (State × List ℕ)
unfolding path_to_cluster read_record
enter fuel g s cur full parent name = path_to_cluster fuel g s.sect cur parent >>= λ c. elim c [
  | none ↦ ok (wrong_path, cur)
  | some n ↦ read_record fuel g s.sect n name >>= λ h. ok (elim h [
    | none ↦ (wrong_path, cur)
    | some hit ↦ if hit.rec 11 == 0x10 then (done, full) else (wrong_path, cur)
  ])
]

-- `OpenDir`, with the new `cur_path`.
unfoldable pub open_dir : ℕ → Geometry → Vdisk → List ℕ → List ℕ → Outcome (State × List ℕ)
unfolding strcmp change_current_path is_full_path make_full_path get_parent_from_path
    get_name_from_path enter
open_dir fuel g s cur dirname =
    if same_text dirname (b'.' ∷ [])
    then ok (done, cur)
    else if same_text dirname (b'.' ∷ b'.' ∷ []) || same_text dirname (b'\\' ∷ [])
    then ok (done, change_current_path cur dirname)
    else if is_full_path cur dirname
    then (get_parent_from_path dirname >>= λ parent.
        if length parent == 0
        then ok (done, dirname ++ b'\\' ∷ [])
        else enter fuel g s cur dirname parent (get_name_from_path dirname))
    else enter fuel g s cur (make_full_path cur dirname) cur dirname

-- Position_Of_RootDir and the clusters in front of `c`.
abbrev pub position_of : Geometry → ℕ → ℕ
position_of g c =
    (g.reserved_sector + 2 * g.sectors_per_fat) * g.bytes_per_sector
    + (c - 2) * g.sectors_per_cluster * g.bytes_per_sector

abbrev pub first_position : Geometry → ℕ → ℕ
first_position g start = if start == 2 then position_of g start + 32 else position_of g start + 64

-- The place of the next round, behind the record at `off`: `none` at the end of the chain.
abbrev pub step_on : Geometry → Vdisk → ℕ → ℕ → ℕ → Option (ℕ × ℕ) × Vdisk
step_on g s last off c =
    let (next, s') = get_next_cluster g s c in
    if leb last (off / g.bytes_per_sector)
    then (if next == fat_end then none else some (position_of g next, next), s')
    else (some (off + 32, c), s)

-- The loop of `DeleteAllRecord`: `buf` holds sector `pre`, 0 for none yet.
unfoldable pub delete_loop : ℕ → Geometry → Vdisk → ℕ → Sector → ℕ → ℕ → ℕ → Sector → Outcome Vdisk
unfolding write_sector get_next_cluster clear_fats
delete_loop zero g s last buf off c pre junk = no_fuel
delete_loop (suc fuel) g s last buf off c pre junk =
    let cs = off / g.bytes_per_sector in
    let o = off % g.bytes_per_sector in
    let s1 = if cs == pre || pre == 0 then s else write_sector s buf pre in
    let buf1 = if cs == pre then buf else s1.sect cs in
    let r = record_at buf1 o in
    let start = record_cluster r in
    let inner =
      (if r 11 == 0x10
        then (delete_loop fuel g s1 (cluster_sector g start + g.sectors_per_cluster) junk
              (first_position g start) start 0 junk
            >>= λ t. clear_fats fuel g t junk start)
        else clear_fats fuel g s1 junk start) in
    if r 0 == 0
    then ok (write_sector s1 buf1 cs)
    else ((if r 0 == 0xE5 then ok s1 else inner) >>= λ s2.
        let buf2 = put_byte buf1 o 0xE5 in
        let (next, s3) = step_on g s2 last off c in
        elim next [
          | none ↦ ok (write_sector s3 buf2 cs)
          | some (off', c') ↦ delete_loop fuel g s3 last buf2 off' c' cs junk
        ])

unfoldable pub delete_all_record : ℕ → Geometry → Vdisk → ℕ → Sector → Outcome Vdisk
unfolding delete_loop clear_fats
delete_all_record fuel g s start junk =
    delete_loop fuel g s (cluster_sector g start + g.sectors_per_cluster) junk
      (first_position g start) start 0 junk
    >>= λ t. clear_fats fuel g t junk start

unfoldable pub delete_dir :
    ℕ → Geometry → Vdisk → List ℕ → List ℕ → Sector → Outcome (State × Vdisk)
unfolding is_file to_full_path get_parent_from_path get_name_from_path path_to_cluster clear_record
    delete_all_record
delete_dir fuel g s cur dirname junk = is_file fuel g s cur (to_full_path cur dirname) >>= λ tag.
    elim tag [
      | none ↦ ok (wrong_path, s)
      | some true ↦ ok (wrong_path, s)
      | some false ↦
          with_parent fuel g s cur dirname (wrong_path, s)
            λ n. clear_record fuel g s n (get_name_from_path (to_full_path cur dirname)) >>= λ r.
              elim r [
                | none ↦ ok (wrong_path, s)
                | some (start, s') ↦ delete_all_record fuel g s' start junk >>= λ t. ok (done, t)
              ]
    ]
