-- ===== src/Keyboard.antt =====
-- The keyboard's buffer, kernel/keyboard.c: `kb_handler` puts the bytes of the keyboard in, and
-- `get_byte_from_kb_buf` takes them out. Pointers into the buffer are indices.
pub mod Queue
pub mod Keymap
pub mod Decode
pub mod Typing
pub mod Letters
mod Tests
use exp_memfs.Base.{
  ltb, leb, ◌==◌, if◌then◌else◌, ltb→lt, lt→ltb, leb→le, ==_iff, Bool-cases, Option-cases, length,
  get_or, set, take, drop, replicate, erase_at, insert_at, length-append, length-set,
  get_or-set_self, get_or-set_ne, length-insert_at, take-append-drop, length-take, length-drop,
  u32_mod, add32, sub32, minus_one, sub_ℕ, ◌>>=◌, ◌>>◌, assert, Outcome, ok, panic, fault, no_fuel,
  ℤ, pos, negsuc, ℕ, zero, suc, ◌+◌, ◌-◌, ◌*◌, ◌/◌, ◌%◌, ◌^◌, ◌≤◌, ◌<◌, ◌≡◌, refl, sym, ap, ◌∙◌,
  ◌≢◌, ◌↔◌, ◌⊎◌, inl, inr, Bool, true, false, not, ◌&&◌, ◌||◌, Option, none, some, List, [], ◌∷◌,
  ◌++◌, map, arith,
}
use exp_memfs.Window.{next}

-- KB_IN_BYTES
abbrev pub kb_in_bytes : ℕ
kb_in_bytes = 320

-- `struct kb_inbuf`
pub record KbInput : Type 0 where
  pub p_head : ℕ
  pub p_tail : ℕ
  pub count : ℕ
  pub buf : List ℕ

-- The part of `init_kb` for the buffer.
abbrev pub init_kb_in : List ℕ → KbInput
init_kb_in buf = record { p_head = 0; p_tail = 0; count = 0; buf = buf }

-- `kb_handler`, for the byte read from the keyboard.
unfoldable pub kb_handler : KbInput → ℕ → KbInput
kb_handler k scan_code =
    if ltb k.count kb_in_bytes
    then record {
      p_head = next kb_in_bytes k.p_head;
      p_tail = k.p_tail;
      count = k.count + 1;
      buf = set k.buf k.p_head scan_code;
    }
    else k

-- `get_byte_from_kb_buf`. `none`: it waits for a byte.
unfoldable pub get_byte_from_kb_buf : KbInput → Option (ℕ × KbInput)
get_byte_from_kb_buf k =
    if k.count == 0
    then none
    else some (
      get_or k.buf k.p_tail 0,
      record k { p_tail = next kb_in_bytes k.p_tail; count = k.count - 1 },
    )
