-- ===== src/Keyboard/Tests.antt =====
-- The keyboard's buffer at a small run.
use exp_memfs.Base.{replicate, ℕ, ◌≡◌, refl, true, false, some, List, [], ◌∷◌, map, arith}
use exp_memfs.Keyboard.{init_kb_in, kb_in_bytes}
use exp_memfs.Keyboard.Decode.{Call, init_keys, keyboard_read, pausebreak, key_at, flags}
use exp_memfs.Keyboard.Typing.{typed}
use exp_memfs.Keyboard.Letters.{press_release, letters_typed, stuck_swallows}
use exp_memfs.Keyboard.Queue.{IsRing, arrives, reads, run, serve, waiting, run-eq-serve}

abbrev fresh_buf : List ℕ
fresh_buf = replicate kb_in_bytes 0

fresh-IsRing : IsRing (init_kb_in fresh_buf)
unfolding exp_memfs.Window.steps
fresh-IsRing = record { long = refl; few = omega arith; tail = omega arith; head = refl }

-- Two bytes arrive, and the third of three reads waits.
run-eq-serve_example :
    run (arrives 0x1E ∷ arrives 0x9E ∷ reads ∷ reads ∷ reads ∷ []) (init_kb_in fresh_buf)
    ≡ serve
        (arrives 0x1E ∷ arrives 0x9E ∷ reads ∷ reads ∷ reads ∷ [])
        (waiting (init_kb_in fresh_buf))
run-eq-serve_example =
    run-eq-serve (arrives 0x1E ∷ arrives 0x9E ∷ reads ∷ reads ∷ reads ∷ []) (init_kb_in fresh_buf)
      fresh-IsRing

both_served : serve (arrives 0x1E ∷ arrives 0x9E ∷ reads ∷ reads ∷ reads ∷ []) [] ≡ 0x1E ∷ 0x9E ∷ []
unfolding serve
both_served = refl

-- Three letters with Caps Lock.
abbrev with_caps : Call
with_caps = record { key = 0; make = false; keys = record init_keys { caps_lock = true } }

letters_typed_example :
    (d' : Call) × (keyboard_read 7 with_caps (press_release (0x1E ∷ 0x30 ∷ 0x2E ∷ []))
      ≡ some (map (typed with_caps.keys) (0x1E ∷ 0x30 ∷ 0x2E ∷ []), d'))
    × (d'.keys ≡ with_caps.keys)
unfolding key_at
letters_typed_example =
    letters_typed (0x1E ∷ 0x30 ∷ 0x2E ∷ []) with_caps 7 (refl, (refl, (refl, tt))) refl
      (unfold press_release in omega arith)

typed_abc : map (typed with_caps.keys) (0x1E ∷ 0x30 ∷ 0x2E ∷ []) ≡ b'A' ∷ b'B' ∷ b'C' ∷ []
unfolding key_at flags
typed_abc = refl

-- PauseBreak, and a letter that comes to nothing but PauseBreak again.
abbrev after_pause : Call
after_pause = record { key = pausebreak; make = true; keys = init_keys }

stuck_swallows_example :
    keyboard_read 3 after_pause (0x1E ∷ 0x9E ∷ [])
    ≡ some (pausebreak ∷ pausebreak ∷ [], after_pause)
unfolding flags
stuck_swallows_example =
    stuck_swallows (0x1E ∷ 0x9E ∷ []) after_pause 3 (refl, refl, (refl, refl, tt)) refl refl
      (omega arith)
