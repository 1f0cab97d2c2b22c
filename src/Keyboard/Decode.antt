-- ===== src/Keyboard/Decode.antt =====
-- `keyboard_read` of kernel/keyboard.c: what the bytes of the keyboard mean. The input is the list of
-- the bytes that the buffer gives in turn; `none` where it ends within a sequence, and the code waits.
-- The lights of the keyboard are left out. The flags are bits that no key has, and are added.
use exp_memfs.Base.{
  ltb, leb, ◌==◌, if◌then◌else◌, get_or, ℕ, zero, suc, ◌+◌, ◌-◌, ◌*◌, ◌%◌, Bool, true, false, not,
  ◌&&◌, ◌||◌, Option, none, some, List, [], ◌∷◌, ◌++◌,
}
use exp_memfs.Keyboard.Keymap.{keymap}

-- The static variables on the modifier and lock keys.
pub record Keys : Type 0 where
  pub shift_l : Bool
  pub shift_r : Bool
  pub ctrl_l : Bool
  pub ctrl_r : Bool
  pub alt_l : Bool
  pub alt_r : Bool
  pub caps_lock : Bool
  pub num_lock : Bool
  pub scroll_lock : Bool

-- The variables of `init_kb`.
abbrev pub init_keys : Keys
init_keys = record {
  shift_l = false;
  shift_r = false;
  ctrl_l = false;
  ctrl_r = false;
  alt_l = false;
  alt_r = false;
  caps_lock = false;
  num_lock = true;
  scroll_lock = false;
}

-- The variables of a call that outlive a round of its loop; `make` has no value at first.
pub record Call : Type 0 where
  pub key : ℕ
  pub make : Bool
  pub keys : Keys

abbrev pub pausebreak : ℕ
pausebreak = 0x11E

abbrev pub printscreen : ℕ
printscreen = 0x11D

-- What the first bytes of a round come to: the scan code, `code_with_E0`, and the variables.
pub record Scan : Type 0 where
  pub scan_code : ℕ
  pub code_with_e0 : Bool
  pub call : Call
  pub rest : List ℕ

abbrev pub plain : ℕ → Call → List ℕ → Option Scan
plain code c rest = some (record { scan_code = code; code_with_e0 = false; call = c; rest = rest })

-- The bytes behind 0xE1: the first one that differs ends the comparison.
pub pause : List ℕ → Call → List ℕ → Option Scan
pause [] c rest = plain 0xE1 (record c { key = pausebreak }) rest
pause (e ∷ es) c [] = none
pause (e ∷ es) c (b ∷ rest) =
    let more = pause es c rest in if b == e then more else plain 0xE1 c rest

-- The second half of a sequence for PrintScreen, which ends in `end`.
pub print_end : ℕ → Bool → Call → List ℕ → Option Scan
print_end end make c [] = none
print_end end make c (b ∷ rest) = some (record {
  scan_code = b;
  code_with_e0 = true;
  call = if b == end then record c { key = printscreen; make = make } else c;
  rest = rest;
})

pub print_half : ℕ → Bool → Call → List ℕ → Option Scan
print_half end make c [] = none
print_half end make c (b ∷ rest) = if b == 0xE0 then print_end end make c rest else plain b c rest

-- The bytes behind 0xE0.
pub extended : Call → List ℕ → Option Scan
extended c [] = none
extended c (b ∷ rest) =
    if b == 0x2A
    then print_half 0x37 true c rest
    else if b == 0xB7
    then print_half 0xAA false c rest
    else some (record { scan_code = b; code_with_e0 = true; call = c; rest = rest })

-- The parsing of a scan code, which begins with `b`.
unfoldable pub scan : Call → ℕ → List ℕ → Option Scan
unfolding pause extended
scan c b rest =
    if b == 0xE1
    then pause (0x1D ∷ 0x45 ∷ 0xE1 ∷ 0x9D ∷ 0xC5 ∷ []) c rest
    else if b == 0xE0
    then extended c rest
    else plain b c rest

-- `keymap[(scan_code & 0x7F) * MAP_COLS + column]`
unfoldable pub key_at : ℕ → ℕ → ℕ
key_at scan_code column = get_or keymap (scan_code % 128 * 3 + column) 0

abbrev pub is_lower : ℕ → Bool
is_lower k = leb b'a' k && leb k b'z'

abbrev pub flip : Bool → Bool → Bool
flip a b = if a then not b else b

unfoldable pub column_of : Keys → ℕ → Bool → ℕ
unfolding key_at
column_of k scan_code e0 =
    if e0
    then 2
    else if flip (k.caps_lock && is_lower (key_at scan_code 0)) (k.shift_l || k.shift_r)
    then 1
    else 0

-- The `switch` on modifier and lock keys. ALT_R sets `alt_l`.
unfoldable pub modify : Keys → ℕ → Bool → Keys
modify k key make =
    if key == 0x108
    then record k { shift_l = make }
    else if key == 0x109
    then record k { shift_r = make }
    else if key == 0x10A
    then record k { ctrl_l = make }
    else if key == 0x10B
    then record k { ctrl_r = make }
    else if key == 0x10C || key == 0x10D
    then record k { alt_l = make }
    else if key == 0x10E
    then record k { caps_lock = flip make k.caps_lock }
    else if key == 0x10F
    then record k { num_lock = flip make k.num_lock }
    else if key == 0x110
    then record k { scroll_lock = flip make k.scroll_lock }
    else k

-- The keys of the number pad without Numlock.
unfoldable pub pad_move : ℕ → ℕ
pad_move key =
    if key == 0x139
    then 0x121
    else if key == 0x133
    then 0x122
    else if key == 0x13B
    then 0x123
    else if key == 0x135
    then 0x124
    else if key == 0x132
    then 0x11F
    else if key == 0x13A
    then 0x125
    else if key == 0x134
    then 0x126
    else if key == 0x136
    then 0x127
    else if key == 0x138
    then 0x128
    else if key == 0x131
    then 0x120
    else key

-- The keys of the number pad, PAD_SLASH to PAD_9.
unfoldable pub pad_key : Bool → ℕ → ℕ
unfolding pad_move
pad_key num_lock key =
    if key == 0x12C
    then b'/'
    else if key == 0x12D
    then b'*'
    else if key == 0x12E
    then b'-'
    else if key == 0x12F
    then b'+'
    else if key == 0x130
    then 0x103
    else if num_lock
    then (if leb 0x132 key && leb key 0x13B
        then key - 0x132 + b'0'
        else if key == 0x131
        then b'.'
        else key)
    else pad_move key

abbrev pub is_pad : ℕ → Bool
is_pad key = leb 0x12C key && leb key 0x13B

abbrev pub flag : Bool → ℕ → ℕ
flag on f = if on then f else 0

-- The flags of the modifier keys.
unfoldable pub flags : Keys → ℕ
flags k =
    flag k.shift_l 0x200
    + flag k.shift_r 0x400
    + flag k.ctrl_l 0x800
    + flag k.ctrl_r 0x1000
    + flag k.alt_l 0x2000
    + flag k.alt_r 0x4000

-- The key for `in_process`.
unfoldable pub finish : Call → ℕ
unfolding pad_key flags
finish c =
    if is_pad c.key
    then pad_key c.keys.num_lock c.key + flags c.keys + 0x8000
    else c.key + flags c.keys

-- A scan code becomes a key, unless the variable `key` holds PAUSEBREAK or PRINTSCREEN.
unfoldable pub translate : Scan → Call
unfolding column_of modify
translate s =
    if s.call.key == pausebreak || s.call.key == printscreen
    then s.call
    else (let make = ltb (s.scan_code % 256) 128 in
        let key = key_at s.scan_code (column_of s.call.keys s.scan_code s.code_with_e0) in
        record { key = key; make = make; keys = modify s.call.keys key make })

-- The key that a round hands to `in_process`, if any, and the variables behind it.
unfoldable pub emit : Call → List ℕ × Call
unfolding finish
emit c = if c.make then (finish c ∷ [], record c { key = finish c }) else ([], c)

-- The keys of a round before those of the rounds behind it.
abbrev pub prepend : List ℕ → Option (List ℕ × Call) → Option (List ℕ × Call)
prepend out none = none
prepend out (some (more, c)) = some (out ++ more, c)

-- `keyboard_read`, for the bytes in the buffer: the keys handed to `in_process`, and the variables.
-- A round takes a byte at least.
unfoldable pub keyboard_read : ℕ → Call → List ℕ → Option (List ℕ × Call)
unfolding scan translate emit
keyboard_read zero c bytes = none
keyboard_read (suc fuel) c [] = some ([], c)
keyboard_read (suc fuel) c (b ∷ rest) = elim (scan c b rest) [
  | none ↦ none
  | some s ↦ prepend (emit (translate s)).0 (keyboard_read fuel (emit (translate s)).1 s.rest)
]
