-- ===== src/Vfs/Path.antt =====
-- The paths of kernel/vfs.c: `process_relative_path` and `get_index`.
-- A `char pathname[MAX_PATH]` is a list of MAX_PATH bytes. A read or write outside it is a fault, but
-- for the read of `path[-1]`, whose byte is the argument `before`.
use exp_memfs.Base.{
  ltb, leb, ◌==◌, if◌then◌else◌, length, get_or, set, take, drop, replicate, ◌>>=◌, Outcome, ok,
  fault, ℤ, pos, negsuc, ℕ, zero, suc, ◌+◌, ◌-◌, Bool, false, not, ◌&&◌, ◌||◌, Option, none, some,
  List, [], ◌∷◌, ◌++◌,
}
use exp_memfs.Str.Compare.{text}
use exp_memfs.Str.{strlen, strcmp, strncmp, strcpy}

-- The C string of a text, in a buffer of `n` bytes.
abbrev pub buffer : ℕ → List ℕ → List ℕ
buffer n t = t ++ replicate (n - length t) 0

abbrev pub is_zero : ℤ → Bool
is_zero (pos n) = n == 0
is_zero (negsuc n) = false

abbrev pub slash : List ℕ
slash = b'/' ∷ []

abbrev pub slash_dot : List ℕ
slash_dot = b'/' ∷ b'.' ∷ []

abbrev pub slash_dot_dot : List ℕ
slash_dot_dot = b'/' ∷ b'.' ∷ b'.' ∷ []

-- The loop that makes room: the bytes in front of index `i` move `k + 1` places up, from the last.
unfoldable pub move_up : List ℕ → ℕ → ℕ → List ℕ
move_up path k zero = path
move_up path k (suc i) = move_up (set path (i + k + 1) (get_or path i 0)) k i

-- `memcpy` to the start of the buffer.
unfoldable pub write_front : List ℕ → List ℕ → List ℕ
write_front path [] = path
write_front [] (c ∷ t) = []
write_front (d ∷ path) (c ∷ t) = c ∷ write_front path t

-- `path[0 ..]` becomes "<cwd>/<path>", for the lengths of both.
unfoldable pub prefix_cwd : List ℕ → List ℕ → ℕ → ℕ → List ℕ
unfolding move_up write_front
prefix_cwd cwd path path_len cwd_len =
    set (set (write_front (move_up path cwd_len path_len) (take cwd_len cwd)) cwd_len b'/')
      (path_len + cwd_len + 1) 0

-- The variables of the loop over the components. `dir_stack[top]` is where the last one begins.
pub record Walk : Type 0 where
  pub path : List ℕ
  pub offs : ℕ
  pub top : ℕ
  pub dir_stack : List ℕ

-- The component from `dir_stack[top]` up to `i` is dropped if it is "." or "..".
unfoldable pub drop_dots : Walk → ℕ → Walk
drop_dots w i =
    let start = get_or w.dir_stack w.top 0 in
    let prev = if ltb 1 w.top then w.top - 1 else w.top in
    if w.top == 0
    then w
    else if is_zero (strncmp (drop start w.path) slash_dot (i - start))
    then record w { offs = w.offs + (i - start) }
    else if is_zero (strncmp (drop start w.path) slash_dot_dot (i - start))
    then record w { top = prev; offs = w.offs + (i - get_or w.dir_stack prev 0) }
    else w

abbrev pub push_dir : Walk → ℕ → Walk
push_dir w i = record w { top = w.top + 1; dir_stack = set w.dir_stack (w.top + 1) i }

-- `path[i - 1]`
abbrev pub byte_before : ℕ → List ℕ → ℕ → ℕ
byte_before before path zero = before
byte_before before path (suc i) = get_or path i 0

-- The test that a component ends at `i`.
abbrev pub ends_component : ℕ → List ℕ → ℕ → ℕ → Bool
ends_component before path n i =
    (get_or path i 0 == b'/' || i == n) && not (byte_before before path i == b'/')

-- `path[i - offs] = path[i]`
abbrev pub move_byte : Walk → ℕ → Outcome Walk
move_byte w i =
    if ltb i w.offs
    then fault
    else ok (record w { path = set w.path (i - w.offs) (get_or w.path i 0) })

-- One round of the loop.
unfoldable pub walk_step : ℕ → ℕ → Walk → ℕ → Outcome Walk
unfolding drop_dots
walk_step before n w i =
    move_byte (if ends_component before w.path n i then push_dir (drop_dots w i) i else w) i

-- The rounds from `i` on, `k` of them.
unfoldable pub walk_from : ℕ → ℕ → Walk → ℕ → ℕ → Outcome Walk
unfolding walk_step
walk_from before n w i zero = ok w
walk_from before n w i (suc k) = walk_step before n w i >>= λ w'. walk_from before n w' (i + 1) k

abbrev pub new_walk : List ℕ → Walk
new_walk path = record { path = path; offs = 0; top = 0; dir_stack = replicate 128 0 }

-- `process_relative_path`, for the working directory `cwd` and the buffer `path`.
unfoldable pub process_relative_path : ℕ → List ℕ → List ℕ → Outcome (List ℕ)
unfolding prefix_cwd walk_from strcpy strcmp strlen
process_relative_path before cwd path =
    let path_len = strlen path in
    let cwd_len = if is_zero (strcmp cwd slash) then 0 else strlen cwd in
    let n = path_len + cwd_len + 1 in
    if get_or path 0 0 == b'/'
    then ok path
    else if leb (length path) n
    then fault
    else (walk_from before n (new_walk (prefix_cwd cwd path path_len cwd_len)) 0 (n + 1) >>= λ w.
        ok (if is_zero (strcmp w.path []) then strcpy w.path slash else w.path))

-- The names of `vfs_table`.
abbrev pub fs_names : List (List ℕ)
fs_names =
    (b'd' ∷ b'e' ∷ b'v' ∷ b'_' ∷ b't' ∷ b't' ∷ b'y' ∷ b'0' ∷ [])
    ∷ (b'd' ∷ b'e' ∷ b'v' ∷ b'_' ∷ b't' ∷ b't' ∷ b'y' ∷ b'1' ∷ [])
    ∷ (b'd' ∷ b'e' ∷ b'v' ∷ b'_' ∷ b't' ∷ b't' ∷ b'y' ∷ b'2' ∷ [])
    ∷ (b'f' ∷ b'a' ∷ b't' ∷ b'0' ∷ [])
    ∷ (b'o' ∷ b'r' ∷ b'a' ∷ b'n' ∷ b'g' ∷ b'e' ∷ [])
    ∷ (b'r' ∷ b'a' ∷ b'm' ∷ [])
    ∷ []

-- The first name that equals `name`, counted from `i` on.
unfoldable pub find_fs : List ℕ → List (List ℕ) → ℕ → Option ℕ
find_fs name [] i = none
find_fs name (f ∷ fs) i =
    let rest = find_fs name fs (i + 1) in if is_zero (strcmp name f) then some i else rest

-- The bytes in front of the first '/', and what lies behind it; `none` if there is no '/'.
unfoldable pub cut_slash : List ℕ → List ℕ × Option (List ℕ)
cut_slash [] = ([], none)
cut_slash (c ∷ p) = let (n, r) = cut_slash p in if c == b'/' then ([], some p) else (c ∷ n, r)

-- DEV_NAME_LEN
abbrev pub dev_name_len : ℕ
dev_name_len = 15

-- The name of the file system in a path that begins with '/', and what is left of the path. The name
-- is copied to an array of DEV_NAME_LEN bytes, with its NUL; without a second '/' the copy runs over
-- the whole path, and the path only loses its '/'.
unfoldable pub cut_fs : List ℕ → Outcome (Option ℕ × List ℕ)
unfolding find_fs cut_slash
cut_fs path =
    let (name, rest) = cut_slash (drop 1 path) in
    let copied : ℕ = elim rest [ none ↦ length path | some _ ↦ length name ] in
    if leb dev_name_len copied
    then fault
    else ok (find_fs name fs_names 0, elim rest [ none ↦ drop 1 path | some r ↦ r ])

-- `get_index`: the index, and the text that is left in the buffer.
unfoldable pub get_index : ℕ → List ℕ → List ℕ → Outcome (Option ℕ × List ℕ)
unfolding process_relative_path cut_fs
get_index before cwd path = process_relative_path before cwd path >>= λ p. cut_fs (text p)
