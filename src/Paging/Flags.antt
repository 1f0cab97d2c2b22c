-- ===== src/Paging/Flags.antt =====
-- `|` with flags below a power of two: what kernel/pagetbl.c puts into an entry.
use exp_memfs.Base.{ℕ, zero, suc, ◌+◌, ◌*◌, ◌/◌, ◌%◌, ◌≤◌, ◌<◌, ◌≡◌, refl, ◌∙◌, arith}
use Prim.Native.Nat.{bit_or, bit_or-bitwise, max, digits}

-- The last `k` binary digits of `a` are 0, and `r` has no others.
abbrev LowClear : ℕ → ℕ → ℕ → Type 0
LowClear zero a r = r ≡ 0
LowClear (suc k) a r = (a % 2 ≡ 0) × LowClear k (a / 2) (r / 2)

abbrev or_digits : ℕ → ℕ → ℕ → ℕ
or_digits n a b = digits (λ b. b) max n a b

or_digits_zero : (n a : ℕ) → a ≤ n → or_digits n a 0 ≡ a
or_digits_zero zero a h = omega arith
or_digits_zero (suc n) zero h = refl
or_digits_zero (suc n) (suc a) h = omega (arith, or_digits_zero n (suc a / 2) (omega arith))

or_digits-add : (k n a r : ℕ) → a ≤ n → LowClear k a r → or_digits n a r ≡ a + r
or_digits-add zero n a r h c = rw c (omega (arith, or_digits_zero n a h))
or_digits-add (suc k) zero a r h c = omega arith
or_digits-add (suc k) (suc n) zero r h c = omega arith
or_digits-add (suc k) (suc n) (suc a) r h c =
    omega (arith, c.0, or_digits-add k n (suc a / 2) (r / 2) (omega arith) c.1)

frame-LowClear : (k r : ℕ) → r < 4096 → LowClear 12 (k * 4096) r
frame-LowClear k r h = omega arith

-- Flags below 4096 are added to the address of a page.
pub or_flags : (x r : ℕ) → r < 4096 → bit_or (x / 4096 * 4096) r ≡ x / 4096 * 4096 + r
or_flags x r h =
    bit_or-bitwise (x / 4096 * 4096) r
    ∙ or_digits-add 12 (x / 4096 * 4096) (x / 4096 * 4096) r (omega arith)
        (frame-LowClear (x / 4096) r h)
