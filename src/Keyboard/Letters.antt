-- ===== src/Keyboard/Letters.antt =====
-- Letters that are pressed and released, and what follows PauseBreak, through `keyboard_read` of
-- kernel/keyboard.c.
use exp_memfs.Base.{
  ◌==◌, if◌then◌else◌, length, replicate, ℕ, zero, suc, ◌+◌, ◌<◌, ◌≡◌, refl, sym, ap, ◌∙◌, Bool,
  true, false, some, List, [], ◌∷◌, ◌++◌, map, arith,
}
use exp_memfs.Keyboard.Decode.{Keys, Call, flags, finish, translate, emit, keyboard_read, prepend}
use exp_memfs.Keyboard.Typing.{
  is_letter, letter_row, is_stuck, typed, letter_key, scan-plain, key_at-release, translate_letter,
  emit_press, typed-not_stuck, letter-not_stuck,
}

-- The bytes of keys that are pressed and released one after the other.
unfoldable pub press_release : List ℕ → List ℕ
press_release [] = []
press_release (c ∷ cs) = c ∷ (c + 128) ∷ press_release cs

abbrev pub AllLetters : List ℕ → Type 0
AllLetters [] = Unit {0}
AllLetters (c ∷ cs) = (is_letter c ≡ true) × AllLetters cs

read_round :
    (fuel : ℕ) (d : Call) (b : ℕ) (rest : List ℕ)
    → (b == 0xE1) ≡ false
    → (b == 0xE0) ≡ false
    → keyboard_read (suc fuel) d (b ∷ rest)
      ≡ prepend
          (emit
            (translate (record { scan_code = b; code_with_e0 = false; call = d; rest = rest }))).0
          (keyboard_read fuel
            (emit
              (translate (record { scan_code = b; code_with_e0 = false; call = d; rest = rest }))).1
            rest)
unfolding keyboard_read
read_round fuel d b rest h m = rw (keyboard_read, scan-plain d b rest h m)

-- The variables after letter `c` was released.
abbrev released : Keys → ℕ → Call
released k c = record { key = letter_key k c; make = false; keys = k }

read_press :
    (fuel : ℕ) (d : Call) (c : ℕ) (rest : List ℕ)
    → is_stuck d ≡ false
    → is_letter c ≡ true
    → keyboard_read (suc fuel) d (c ∷ rest)
      ≡ prepend
          (typed d.keys c ∷ [])
          (keyboard_read fuel (record { key = typed d.keys c; make = true; keys = d.keys }) rest)
read_press fuel d c rest s h =
    read_round fuel d c rest (ground (arith, letter_row c h)) (ground (arith, letter_row c h))
    ∙ ap (λ r. prepend r.0 (keyboard_read fuel r.1 rest))
        (ap emit (translate_letter d c c true rest s h (ground (arith, letter_row c h)) (λ x. refl))
          ∙ emit_press d.keys c h)

read_release :
    (fuel : ℕ) (d : Call) (c : ℕ) (rest : List ℕ)
    → is_stuck d ≡ false
    → is_letter c ≡ true
    → keyboard_read (suc fuel) d ((c + 128) ∷ rest)
      ≡ prepend [] (keyboard_read fuel (released d.keys c) rest)
unfolding emit
read_release fuel d c rest s h =
    read_round fuel d (c + 128) rest (ground (arith, letter_row c h))
      (ground (arith, letter_row c h))
    ∙ ap (λ r. prepend (emit r).0 (keyboard_read fuel (emit r).1 rest))
        (translate_letter d (c + 128) c false rest s h (ground (arith, letter_row c h))
          (λ x. key_at-release c x (ground (arith, letter_row c h))))

-- Letters that are pressed and released one after the other, in a call whose variable `key` does not
-- hold PauseBreak or PrintScreen, are handed on in their order, each as the key that its row of the
-- table and the modifier and lock keys give, which stay as they were; as many rounds as there are
-- bytes, and one, are enough.
pub letters_typed :
    (cs : List ℕ) (d : Call) (fuel : ℕ)
    → AllLetters cs
    → is_stuck d ≡ false
    → length (press_release cs) < fuel
    → (d' : Call) × (keyboard_read fuel d (press_release cs) ≡ some (map (typed d.keys) cs, d'))
      × (d'.keys ≡ d.keys)
unfolding press_release
letters_typed cs d zero a s l = absurd (omega arith)
letters_typed [] d (suc fuel) a s l = (d, unfold keyboard_read in refl, refl)
letters_typed (c ∷ cs) d (suc zero) a s l = absurd (omega arith)
letters_typed (c ∷ cs) d (suc (suc fuel)) a s l =
    let (d', e, k) =
      letters_typed cs (released d.keys c) fuel a.1 (letter-not_stuck d.keys c a.0) (omega arith) in
    (
      d',
      read_press (suc fuel) d c ((c + 128) ∷ press_release cs) s a.0
          ∙ ap (prepend (typed d.keys c ∷ [])) (
              read_release fuel (record { key = typed d.keys c; make = true; keys = d.keys }) c
                (press_release cs) (typed-not_stuck d.keys c a.0) a.0
              ∙ ap (prepend []) e),
      k,
    )

-- No byte of an extended sequence.
abbrev pub AllPlain : List ℕ → Type 0
AllPlain [] = Unit {0}
AllPlain (b ∷ bs) = ((b == 0xE1) ≡ false) × ((b == 0xE0) ≡ false) × AllPlain bs

if_pair :
    (b : Bool) (x : List ℕ) (d : Call)
    → ◌≡◌ {A = List ℕ × Call} (if b then (x, d) else ([], d)) (if b then x else [], d)
if_pair true x d = refl
if_pair false x d = refl

if_prepend :
    (b : Bool) (x y : List ℕ) (d : Call)
    → prepend (if b then x else []) (some (if b then y else [], d))
      ≡ some (if b then x ++ y else [], d)
if_prepend true x y d = refl
if_prepend false x y d = refl

if_nil : (b : Bool) → ◌≡◌ {A = List ℕ} (if b then [] else []) []
if_nil true = refl
if_nil false = refl

finish_stuck : (d : Call) → is_stuck d ≡ true → flags d.keys ≡ 0 → finish d ≡ d.key
unfolding finish
finish_stuck d s f = ground (arith, s, f)

emit_stuck :
    (d : Call)
    → is_stuck d ≡ true
    → flags d.keys ≡ 0
    → emit d ≡ (if d.make then d.key ∷ [] else [], d)
unfolding emit
emit_stuck d s f =
    ap (λ k. if d.make then (k ∷ [], record d { key = k }) else ([], d)) (finish_stuck d s f)
    ∙ if_pair d.make (d.key ∷ []) d

translate_stuck :
    (d : Call) (b : ℕ) (rest : List ℕ)
    → is_stuck d ≡ true
    → translate (record { scan_code = b; code_with_e0 = false; call = d; rest = rest }) ≡ d
unfolding translate
translate_stuck d b rest s = rw s refl

-- A call whose variable `key` holds PauseBreak or PrintScreen, with no modifier key held, decodes
-- none of the plain bytes that follow in the buffer: it hands the same key on again for each of them
-- if `make` is set, and nothing if not, and no byte changes a modifier or lock key.
pub stuck_swallows :
    (bytes : List ℕ) (d : Call) (fuel : ℕ)
    → AllPlain bytes
    → is_stuck d ≡ true
    → flags d.keys ≡ 0
    → length bytes < fuel
    → keyboard_read fuel d bytes ≡ some (if d.make then replicate (length bytes) d.key else [], d)
stuck_swallows bytes d zero a s f l = absurd (omega arith)
stuck_swallows [] d (suc fuel) a s f l =
    unfold keyboard_read in ap (λ x. some (x, d)) (sym (if_nil d.make))
stuck_swallows (b ∷ bytes) d (suc fuel) a s f l =
    read_round fuel d b bytes a.0 a.1
    ∙ ap (λ r. prepend r.0 (keyboard_read fuel r.1 bytes))
        (ap emit (translate_stuck d b bytes s) ∙ emit_stuck d s f)
    ∙ ap (prepend (if d.make then d.key ∷ [] else []))
        (stuck_swallows bytes d fuel a.2 s f (omega arith))
    ∙ if_prepend d.make (d.key ∷ []) (replicate (length bytes) d.key) d
