-- ===== src/Fat32/Path.antt =====
-- Paths, kernel/assist.c, and `PathToCluster` of kernel/base.c. A path is the text of its buffer, and the
-- buffers that are filled are cleared ones. `cur` is `cur_path`.
use exp_memfs.Base.{
  leb, ◌==◌, if◌then◌else◌, length, get_or, ◌>>=◌, Outcome, ok, fault, ℕ, Bool, ◌&&◌, Option, none,
  some, List, [], ◌∷◌, ◌++◌,
}
use exp_memfs.Str.{strcmp}
use exp_memfs.Fat32.{Geometry, Sector}
use exp_memfs.Fat32.Dir.{read_record, same_text, record_cluster}

-- The bytes in front of the last backslash, and those behind it.
unfoldable pub split_last : List ℕ → Option (List ℕ × List ℕ)
split_last [] = none
split_last (c ∷ s) = elim (split_last s) [
  | some (a, b) ↦ some (c ∷ a, b)
  | none ↦ if c == b'\\' then some ([], s) else none
]

unfoldable pub get_name_from_path : List ℕ → List ℕ
unfolding split_last
get_name_from_path path = elim (split_last path) [ none ↦ path | some (a, b) ↦ b ]

-- Without a backslash the loop runs on below the buffer.
unfoldable pub get_parent_from_path : List ℕ → Outcome (List ℕ)
unfolding split_last
get_parent_from_path path = elim (split_last path) [ none ↦ fault | some (a, b) ↦ ok a ]

abbrev pub last_or : ℕ → List ℕ → ℕ
last_or d [] = d
last_or d (c ∷ s) = last_or c s

-- A backslash behind the path, unless there is one.
abbrev pub with_slash : List ℕ → List ℕ
with_slash path = if last_or 0 path == b'\\' then path else path ++ b'\\' ∷ []

unfoldable pub make_full_path : List ℕ → List ℕ → List ℕ
make_full_path parent name = with_slash parent ++ name

abbrev pub cut_end : List ℕ → List ℕ
cut_end [] = []
cut_end (c ∷ []) = if c == b'\\' then [] else c ∷ []
cut_end (c ∷ d ∷ s) = c ∷ cut_end (d ∷ s)

-- Whether the path begins with the drive.
unfoldable pub is_full_path : List ℕ → List ℕ → Bool
is_full_path cur path = get_or cur 0 0 == get_or path 0 0 && get_or cur 1 0 == get_or path 1 0

unfoldable pub to_full_path : List ℕ → List ℕ → List ℕ
unfolding is_full_path make_full_path
to_full_path cur path = cut_end (if is_full_path cur path then path else make_full_path cur path)

-- The bytes up to the last colon.
abbrev pub to_colon : List ℕ → List ℕ
to_colon [] = []
to_colon (c ∷ s) = elim (to_colon s) [ d ∷ t ↦ c ∷ d ∷ t | [] ↦ if c == b':' then c ∷ [] else [] ]

-- The path up to its last backslash.
unfoldable pub go_up : List ℕ → List ℕ
unfolding split_last
go_up cur = elim (split_last cur) [ none ↦ [] | some (a, b) ↦ a ]

-- `ChangeCurrentPath`: the new `cur_path`.
unfoldable pub change_current_path : List ℕ → List ℕ → List ℕ
unfolding strcmp go_up
change_current_path cur addpath =
    if same_text addpath (b'.' ∷ b'.' ∷ [])
    then (if leb (length (go_up cur)) 2 then go_up cur ++ b'\\' ∷ [] else go_up cur)
    else if same_text addpath (b'\\' ∷ [])
    then to_colon cur ++ b'\\' ∷ []
    else with_slash cur ++ addpath

-- The loop of `PathToCluster`, with the name so far; `none` is WRONGPATH.
unfoldable pub walk_path : ℕ → Geometry → (ℕ → Sector) → List ℕ → ℕ → List ℕ → Outcome (Option ℕ)
unfolding read_record
walk_path fuel g d [] parent name = ok (some parent)
walk_path fuel g d (c ∷ []) parent name = read_record fuel g d parent (name ++ c ∷ []) >>= λ h.
    ok (elim h [ none ↦ none | some hit ↦ some (record_cluster hit.rec) ])
walk_path fuel g d (c ∷ e ∷ s) parent name =
    let more = walk_path fuel g d (e ∷ s) parent (name ++ c ∷ []) in
    if c == b'\\'
    then (read_record fuel g d parent name >>= λ h. elim h [
      | none ↦ ok none
      | some hit ↦ walk_path fuel g d (e ∷ s) (record_cluster hit.rec) []
    ])
    else more

-- The path behind its first backslash.
abbrev pub behind_slash : List ℕ → Option (List ℕ)
behind_slash [] = none
behind_slash (c ∷ s) = if c == b'\\' then some s else behind_slash s

unfoldable pub path_to_cluster : ℕ → Geometry → (ℕ → Sector) → List ℕ → List ℕ → Outcome (Option ℕ)
unfolding to_full_path walk_path
path_to_cluster fuel g d cur path = elim (behind_slash (to_full_path cur path)) [
  | none ↦ ok (some 2)
  | some s ↦ walk_path fuel g d s 2 []
]
