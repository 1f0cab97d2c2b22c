-- ===== src/Window.antt =====
-- Arrays that a pointer runs round, as in kernel/keyboard.c and kernel/tty.c: the pointer is an
-- index, and goes back to the start behind the last byte.
use exp_memfs.Base.{
  ltb, ◌==◌, if◌then◌else◌, length, get_or, set, get_or-set_self, get_or-set_ne, ℕ, zero, suc, ◌+◌,
  ◌-◌, ◌≤◌, ◌<◌, ◌≡◌, refl, ap, ◌≢◌, List, [], ◌∷◌, ◌++◌, arith,
}
use mathlib.Core.Path.{ap₂}

abbrev pub next : ℕ → ℕ → ℕ
next cap h = if h + 1 == cap then 0 else h + 1

-- `n` places on from `h`.
unfoldable pub steps : ℕ → ℕ → ℕ → ℕ
steps cap h zero = h
steps cap h (suc n) = steps cap (next cap h) n

-- What stands in the `n` places from `h` on.
unfoldable pub window : List ℕ → ℕ → ℕ → ℕ → List ℕ
window buf cap h zero = []
window buf cap h (suc n) = get_or buf h 0 ∷ window buf cap (next cap h) n

pub length-window : (buf : List ℕ) (cap h n : ℕ) → length (window buf cap h n) ≡ n
unfolding window
length-window buf cap h zero = refl
length-window buf cap h (suc n) = ap suc (length-window buf cap (next cap h) n)

pub steps-eq :
    (cap h n : ℕ)
    → h < cap
    → n ≤ cap
    → steps cap h n ≡ (if ltb (h + n) cap then h + n else h + n - cap)
unfolding steps
steps-eq cap h zero l m = ground arith
steps-eq cap h (suc n) l m = ground (arith, steps-eq cap (next cap h) n)

pub steps_below : (cap h n : ℕ) → h < cap → n ≤ cap → steps cap h n < cap
steps_below cap h n l m = ground (arith, steps-eq cap h n l m)

-- The place behind the window is the next one of the place before it.
pub steps-suc : (cap h n : ℕ) → h < cap → n < cap → steps cap h (suc n) ≡ next cap (steps cap h n)
steps-suc cap h n l m = ground (arith, steps-eq cap h (suc n) l m, steps-eq cap h n l (omega arith))

steps_ne : (cap h n : ℕ) → h < cap → suc n < cap → steps cap (next cap h) n ≢ h
unfolding steps
steps_ne cap h n l m = ground (arith, steps-eq cap h (suc n) l (omega arith))

-- Writing behind a window makes it longer.
pub window-set :
    (buf : List ℕ) (cap h n x : ℕ)
    → cap ≤ length buf
    → h < cap
    → n < cap
    → window (set buf (steps cap h n) x) cap h (suc n) ≡ window buf cap h n ++ (x ∷ [])
unfolding window steps
window-set buf cap h zero x s l m = ap (λ b. b ∷ []) (get_or-set_self buf h x 0 (omega arith))
window-set buf cap h (suc n) x s l m =
    ap₂ ◌∷◌ (get_or-set_ne buf x 0 (steps_ne cap h n l m))
      (window-set buf cap (next cap h) n x s (ground arith) (omega arith))
