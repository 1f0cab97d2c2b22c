-- ===== src/Tty.antt =====
-- The terminals, kernel/tty.c. Pointers into `ibuf` are indices; one that would go in front of the
-- buffer is a fault. An `int` that may become negative is a `u32` of the same bits. The screen is left
-- out but for the characters that are given to `out_char`, and `current_line`.
pub mod Buffer
pub mod Serve
mod Tests
use exp_memfs.Base.{
  ltb, leb, ◌==◌, if◌then◌else◌, ltb→lt, lt→ltb, leb→le, ==_iff, Bool-cases, Option-cases, length,
  get_or, set, take, drop, replicate, erase_at, insert_at, length-append, length-set,
  get_or-set_self, get_or-set_ne, length-insert_at, take-append-drop, length-take, length-drop,
  u32_mod, add32, sub32, minus_one, sub_ℕ, ◌>>=◌, ◌>>◌, assert, Outcome, ok, panic, fault, no_fuel,
  ℤ, pos, negsuc, ℕ, zero, suc, ◌+◌, ◌-◌, ◌*◌, ◌/◌, ◌%◌, ◌^◌, ◌≤◌, ◌<◌, ◌≡◌, refl, sym, ap, ◌∙◌,
  ◌≢◌, ◌↔◌, ◌⊎◌, inl, inr, Bool, true, false, not, ◌&&◌, ◌||◌, Option, none, some, List, [], ◌∷◌,
  ◌++◌, map, arith,
}
use Prim.Native.Nat.{bit_or, bit_and}
use exp_memfs.Window.{next}

-- TTY_IN_BYTES
abbrev pub tty_in_bytes : ℕ
tty_in_bytes = 256

pub record Tty : Type 0 where
  pub ibuf : List ℕ
  pub ibuf_head : ℕ
  pub ibuf_tail : ℕ
  pub ibuf_read : ℕ
  pub ibuf_cnt : ℕ
  pub ibuf_read_cnt : ℕ
  pub status : ℕ
  pub current_line : ℕ

-- The part of `init_tty` for the buffer.
abbrev pub init_tty : List ℕ → Tty
init_tty ibuf = record {
  ibuf = ibuf;
  ibuf_head = 0;
  ibuf_tail = 0;
  ibuf_read = 0;
  ibuf_cnt = 0;
  ibuf_read_cnt = 0;
  status = 1;
  current_line = 0;
}

unfoldable pub put_key : Tty → ℕ → Tty
put_key t key =
    if ltb t.ibuf_cnt tty_in_bytes
    then record t {
      ibuf = set t.ibuf t.ibuf_head key;
      ibuf_head = next tty_in_bytes t.ibuf_head;
      ibuf_cnt = t.ibuf_cnt + 1;
      ibuf_read_cnt = add32 t.ibuf_read_cnt 1;
    }
    else t

-- Backspace, where it is the only key to be read: both pointers go back by one.
abbrev pub back_one : Tty → Outcome (Option ℕ × Tty)
back_one t =
    if t.ibuf_head == 0 || t.ibuf_tail == 0
    then fault
    else ok (
      none,
      record t {
        ibuf_read_cnt = sub32 t.ibuf_read_cnt 1;
        ibuf_head = t.ibuf_head - 1;
        ibuf_tail = t.ibuf_tail - 1;
      },
    )

-- Backspace, where there are other keys: it and the key before it go.
abbrev pub back_two : Tty → Outcome (Option ℕ × Tty)
back_two t =
    if t.ibuf_head == 0
    then ok (
      some b'\x08',
      record t { ibuf_read_cnt = sub32 t.ibuf_read_cnt 2; ibuf_head = 254; ibuf_tail = 254 },
    )
    else if ltb t.ibuf_head 2 || ltb t.ibuf_tail 2
    then fault
    else ok (
      some b'\x08',
      record t {
        ibuf_read_cnt = sub32 t.ibuf_read_cnt 2;
        ibuf_head = t.ibuf_head - 2;
        ibuf_tail = t.ibuf_tail - 2;
      },
    )

-- The buffer after a key was taken to be shown.
abbrev pub taken : Tty → Tty
taken t = record t { ibuf_tail = next tty_in_bytes t.ibuf_tail; ibuf_cnt = t.ibuf_cnt - 1 }

-- What is done with the character; the result is what goes to `out_char`.
abbrev pub show : ℕ → Tty → Outcome (Option ℕ × Tty)
show ch t =
    if ch == b'\x08'
    then (if t.ibuf_read_cnt == 1 then back_one t else back_two t)
    else ok (some ch, t)

unfoldable pub tty_dev_write : Tty → Outcome (Option ℕ × Tty)
tty_dev_write t =
    if t.ibuf_cnt == 0 then ok (none, t) else show (get_or t.ibuf t.ibuf_tail 0 % 256) (taken t)

-- The loop of `tty_read`: at most `len` characters.
unfoldable pub read_keys : ℕ → Tty → List ℕ × Tty
read_keys zero t = ([], t)
read_keys (suc len) t =
    let (more, t') = read_keys len (record t {
      ibuf_read = next tty_in_bytes t.ibuf_read;
      ibuf_read_cnt = sub32 t.ibuf_read_cnt 1;
    }) in
    if t.ibuf_read_cnt == 0 then ([], t) else (get_or t.ibuf t.ibuf_read 0 % 256 ∷ more, t')

-- `tty_read`. `none`: it waits until Enter clears the bit of `status`, and then runs its loop.
unfoldable pub tty_read : Tty → ℕ → Option (List ℕ) × Tty
unfolding read_keys
tty_read t len =
    let status = if t.ibuf_read_cnt == 0 then bit_or t.status 4 else t.status in
    let (out, t') = read_keys len (record t { status = status }) in
    if status / 4 % 2 == 1 then (none, record t { status = status }) else (some out, t')

-- `in_process`; the second result is the console that is selected, if any.
unfoldable pub in_process : Tty → ℕ → Tty × Option ℕ
unfolding put_key
in_process t key =
    if key / 256 % 2 == 0
    then (put_key t key, none)
    else if key % 512 == 0x103
    then (record (put_key t b'\n') { status = bit_and (put_key t b'\n').status 3 }, none)
    else if key % 512 == 0x104
    then (put_key t b'\x08', none)
    else if key % 512 == 0x125
    then (if ltb t.current_line 43 then record t { current_line = t.current_line + 1 } else t, none)
    else if key % 512 == 0x126
    then (if ltb 0 t.current_line then record t { current_line = t.current_line - 1 } else t, none)
    else if leb 0x111 (key % 512) && leb (key % 512) 0x11C
    then (t, some (key % 512 - 0x111))
    else (t, none)
