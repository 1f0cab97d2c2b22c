-- ===== src/Base/Word.antt =====
-- 32-bit unsigned arithmetic: every operation wraps modulo 2 ^ 32.
use Prim.Native.Nat.{ℕ, ◌+◌, ◌-◌, ◌%◌, ◌^◌}

abbrev pub u32_mod : ℕ
u32_mod = 2 ^ 32

abbrev pub add32 : ℕ → ℕ → ℕ
add32 a b = (a + b) % 2 ^ 32

abbrev pub sub32 : ℕ → ℕ → ℕ
sub32 a b = (a + 2 ^ 32 - b) % 2 ^ 32

-- `-1` returned as a `u32`, and `MAX_UNSIGNED_INT`.
abbrev pub minus_one : ℕ
minus_one = 2 ^ 32 - 1
