-- ===== src/Fat32/Name.antt =====
-- The names of files in directory records: `FormatFileNameAndExt`, `FormatDirNameAndExt` and
-- `TimeToBytes` of kernel/assist.c, and `CreateRecord` and `GetNameFromRecord` of kernel/base.c. A name
-- is its text, without the NUL; a record is the function from an offset to its byte.
use exp_memfs.Base.{
  leb, ◌==◌, if◌then◌else◌, length, take, drop, replicate, Outcome, ok, fault, ℕ, zero, suc, ◌+◌,
  ◌-◌, ◌*◌, ◌/◌, ◌%◌, ◌^◌, Bool, true, ◌&&◌, ◌||◌, List, [], ◌∷◌, ◌++◌, map,
}
use exp_memfs.Fat32.{Sector, put_dword}

abbrev pub upper : ℕ → ℕ
upper c = if leb b'a' c && leb c b'z' then c - 32 else c

abbrev pub lower : ℕ → ℕ
lower c = if leb b'A' c && leb c b'Z' then c + 32 else c

-- FormatFileNameAndExt: the `k` places of the name that are left.
abbrev pub base_of : ℕ → List ℕ → List ℕ
base_of zero s = []
base_of (suc k) [] = b' ' ∷ base_of k []
base_of (suc k) (c ∷ s) = if c == b'.' then b' ' ∷ base_of k [] else upper c ∷ base_of k s

-- What the loop over the name leaves of it.
abbrev pub rest_of : ℕ → List ℕ → List ℕ
rest_of zero s = s
rest_of (suc k) [] = []
rest_of (suc k) (c ∷ s) = if c == b'.' then c ∷ s else rest_of k s

abbrev pub pad : ℕ → List ℕ → List ℕ
pad zero s = s
pad (suc k) [] = b' ' ∷ pad k []
pad (suc k) (c ∷ s) = c ∷ pad k s

-- The extension, without the first byte of the rest; nothing is written where there is no rest.
abbrev pub ext_of : List ℕ → List ℕ
ext_of [] = []
ext_of (c ∷ s) = pad 3 (map upper s)

unfoldable pub format_file_name_and_ext : List ℕ → List ℕ × List ℕ
format_file_name_and_ext filename = (base_of 8 filename, ext_of (rest_of 8 filename))

unfoldable pub format_dir_name_and_ext : List ℕ → List ℕ × List ℕ
format_dir_name_and_ext dirname = (pad 8 (map upper (take 8 dirname)), pad 3 [])

-- `TimeToBytes`: the date and the time.
unfoldable pub time_to_bytes : ℕ × ℕ
time_to_bytes = ((2018 - 1980) * 512 + 12 * 32 + 27, 14 * 2048 + 30 * 32 + 24 / 2)

abbrev pub put_byte : Sector → ℕ → ℕ → Sector
put_byte r o v x = if x == o then v else r x

abbrev pub put_word : Sector → ℕ → ℕ → Sector
put_word r o v = put_byte (put_byte r o (v % 256)) (o + 1) (v / 256 % 256)

-- `strcpy` of a text to offset `o`.
abbrev pub put_text : Sector → ℕ → List ℕ → Sector
put_text r o [] = put_byte r o 0
put_text r o (c ∷ s) = put_text (put_byte r o c) (o + 1) s

abbrev pub is_dir_type : ℕ → Bool
is_dir_type type = type == 0x08 || type == 0x10

-- `CreateRecord`, over what the record held.
unfoldable pub create_record : List ℕ → ℕ → ℕ → ℕ → Sector → Sector
unfolding format_file_name_and_ext format_dir_name_and_ext time_to_bytes
create_record filename type start size r =
    let (name, ext) =
      if is_dir_type type
      then format_dir_name_and_ext filename
      else format_file_name_and_ext filename in
    let r1 = put_byte r 12 (if is_dir_type type then 0x08 else 0x18) in
    let r2 = put_byte (put_text (put_text r1 0 name) 8 ext) 11 type in
    let r3 = put_word (put_word (put_byte r2 13 0) 14 time_to_bytes.1) 16 time_to_bytes.0 in
    let r4 = put_word (put_word r3 18 time_to_bytes.0) 20 (start / 2 ^ 16) in
    let r5 = put_word (put_word r4 22 time_to_bytes.1) 24 time_to_bytes.0 in
    put_dword (put_word r5 26 (start % 2 ^ 16)) 28 size

abbrev pub bytes_at : Sector → ℕ → ℕ → List ℕ
bytes_at r o zero = []
bytes_at r o (suc n) = r o ∷ bytes_at r (o + 1) n

-- The name of a record, up to a blank.
abbrev pub lower_base : List ℕ → List ℕ
lower_base [] = []
lower_base (c ∷ s) = if c == b' ' then [] else lower c ∷ lower_base s

abbrev pub all_blank : List ℕ → Bool
all_blank [] = true
all_blank (c ∷ s) = c == b' ' && all_blank s

-- The blanks at the end become NUL bytes.
abbrev pub cut_blanks : List ℕ → List ℕ
cut_blanks [] = []
cut_blanks (c ∷ s) = if all_blank (c ∷ s) then 0 ∷ cut_blanks s else c ∷ cut_blanks s

-- The point and the extension; a point in front of blanks only becomes a NUL byte.
abbrev pub point_ext : List ℕ → List ℕ
point_ext ext = (if all_blank ext then 0 else b'.') ∷ cut_blanks ext

abbrev pub put_name : List ℕ → List ℕ → List ℕ → Outcome (List ℕ)
put_name [] ext fullname = if all_blank ext then fault else ok (point_ext ext ++ drop 4 fullname)
put_name (c ∷ base) ext fullname =
    ok ((c ∷ base) ++ point_ext ext ++ drop (length base + 5) fullname)

-- `GetNameFromRecord`, over what the buffer held. For a record of blanks only the loop over the blanks
-- runs on below the buffer.
unfoldable pub get_name_from_record : Sector → List ℕ → Outcome (List ℕ)
get_name_from_record r fullname =
    put_name (lower_base (bytes_at r 0 8)) (map lower (bytes_at r 8 3)) fullname

-- A buffer of zeros for a name.
abbrev pub clean : List ℕ
clean = replicate 256 0
