-- ===== src/Keyboard/Typing.antt =====
-- What `keyboard_read` of kernel/keyboard.c makes of letters, and of what follows PauseBreak.
use exp_memfs.Base.{
  ltb, leb, ◌==◌, if◌then◌else◌, Bool-cases, get_or, ℕ, zero, suc, ◌+◌, ◌*◌, ◌%◌, ◌≤◌, ◌<◌, ◌≡◌,
  refl, ap, ◌∙◌, ◌⊎◌, inl, inr, Bool, true, false, not, ◌&&◌, ◌||◌, List, [], ◌∷◌, arith,
}
use exp_memfs.Keyboard.Keymap.{keymap}
use exp_memfs.Keyboard.Decode.{
  key_at, is_lower, flags, modify, Keys, Call, scan, column_of, flag, flip, pausebreak, plain,
  printscreen, translate, emit, finish, is_pad,
}

-- Over a small range, every value is tried.
all_below : ℕ → (ℕ → Bool) → Bool
all_below zero p = true
all_below (suc n) p = p n && all_below n p

all_below-true : (n : ℕ) (p : ℕ → Bool) (x : ℕ) → all_below n p ≡ true → x < n → p x ≡ true
unfolding all_below
all_below-true zero p x h l = absurd (omega arith)
all_below-true (suc n) p x h l = ground (arith, all_below-true n p x)

-- A scan code of a letter.
abbrev pub is_letter : ℕ → Bool
is_letter c = ltb c 128 && is_lower (key_at c 0)

-- A letter's row of the table: the letter, and its capital.
abbrev row_right : ℕ → Bool
row_right c =
    not (is_lower (key_at c 0))
    || ((key_at c 1 + 32 == key_at c 0) && not (c == 0x60) && not (c == 0x61))

rows : all_below 128 row_right ≡ true
unfolding all_below key_at
rows = refl

pub letter_row :
    (c : ℕ)
    → is_letter c ≡ true
    → (key_at c 1 + 32 ≡ key_at c 0)
      × ((c == 0x60) ≡ false)
      × ((c == 0x61) ≡ false)
      × (leb b'a' (key_at c 0) ≡ true)
      × (leb (key_at c 0) b'z' ≡ true)
      × (ltb c 128 ≡ true)
letter_row c h = ground (arith, all_below-true 128 row_right c rows)

flag_case : (b : Bool) (f : ℕ) → (flag b f ≡ 0) ⊎ (flag b f ≡ f)
flag_case true f = inr refl
flag_case false f = inl refl

pub flags_gap : (k : Keys) → (flags k ≡ 0) ⊎ (0x200 ≤ flags k)
unfolding flags
flags_gap k = ground (
  arith,
  flag_case k.shift_l 0x200,
  flag_case k.shift_r 0x400,
  flag_case k.ctrl_l 0x800,
  flag_case k.ctrl_r 0x1000,
  flag_case k.alt_l 0x2000,
  flag_case k.alt_r 0x4000,
)

-- The variable `key` holds one of the two keys that are not looked up.
abbrev pub is_stuck : Call → Bool
is_stuck c = c.key == pausebreak || c.key == printscreen

abbrev pub capital : Keys → Bool
capital k = flip k.caps_lock (k.shift_l || k.shift_r)

-- The key that letter `c` gives: the capital with either shift or Caps Lock, not with both, and the
-- flags of the modifier keys.
abbrev pub typed : Keys → ℕ → ℕ
typed k c = key_at c (if capital k then 1 else 0) + flags k

unfoldable pub letter_key : Keys → ℕ → ℕ
letter_key k c = key_at c (if capital k then 1 else 0)

pub letter_key_bounds :
    (k : Keys) (c : ℕ) → is_letter c ≡ true → (64 < letter_key k c) × (letter_key k c < 123)
unfolding letter_key
letter_key_bounds k c h = elim (Bool-cases (capital k)) [
  | inl e ↦ rw e (ground (arith, letter_row c h))
  | inr e ↦ rw e (ground (arith, letter_row c h))
]

column_letter :
    (k : Keys) (c : ℕ)
    → is_lower (key_at c 0) ≡ true
    → column_of k c false ≡ (if capital k then 1 else 0)
unfolding column_of
column_letter k c h = ground (arith, h)

modify_letter : (k : Keys) (x : ℕ) (make : Bool) → x < 0x100 → modify k x make ≡ k
unfolding modify
modify_letter k x make h = ground (arith, h)

pub scan-plain :
    (d : Call) (b : ℕ) (rest : List ℕ)
    → (b == 0xE1) ≡ false
    → (b == 0xE0) ≡ false
    → scan d b rest ≡ plain b d rest
unfolding scan
scan-plain d b rest h m = rw (h, m) refl

pub key_at-release : (c x : ℕ) → c < 128 → key_at (c + 128) x ≡ key_at c x
unfolding key_at
key_at-release c x h = ap (λ i. get_or keymap (i * 3 + x) 0) (omega arith)

-- What a scan code of a letter is translated to, pressed or released.
pub translate_letter :
    (d : Call) (b c : ℕ) (make : Bool) (rest : List ℕ)
    → is_stuck d ≡ false
    → is_letter c ≡ true
    → (ltb (b % 256) 128 ≡ make)
    → ((x : ℕ) → key_at b x ≡ key_at c x)
    → translate (record { scan_code = b; code_with_e0 = false; call = d; rest = rest })
      ≡ record { key = letter_key d.keys c; make = make; keys = d.keys }
unfolding translate letter_key
translate_letter d b c make rest s h m e =
    rw (s, m, column_b, e (if capital d.keys then 1 else 0))
      (ap (λ k. record { key = letter_key d.keys c; make = make; keys = k })
        (modify_letter d.keys (letter_key d.keys c) make
          (omega (arith, letter_key_bounds d.keys c h))))
  where
    lower : is_lower (key_at b 0) ≡ true
    lower = ap is_lower (e 0) ∙ ground (arith, letter_row c h)

    column_b : column_of d.keys b false ≡ (if capital d.keys then 1 else 0)
    column_b = column_letter d.keys b lower

pub emit_press :
    (k : Keys) (c : ℕ)
    → is_letter c ≡ true
    → emit (record { key = letter_key k c; make = true; keys = k })
      ≡ (typed k c ∷ [], record { key = typed k c; make = true; keys = k })
unfolding emit finish letter_key
emit_press k c h = rw not_pad refl
  where
    not_pad : is_pad (letter_key k c) ≡ false
    not_pad = ground (arith, letter_key_bounds k c h)

pub typed-not_stuck :
    (k : Keys) (c : ℕ)
    → is_letter c ≡ true
    → is_stuck (record { key = typed k c; make = true; keys = k }) ≡ false
unfolding letter_key
typed-not_stuck k c h = ground (arith, letter_key_bounds k c h, flags_gap k)

pub letter-not_stuck :
    (k : Keys) (c : ℕ)
    → is_letter c ≡ true
    → is_stuck (record { key = letter_key k c; make = false; keys = k }) ≡ false
letter-not_stuck k c h = ground (arith, letter_key_bounds k c h)
