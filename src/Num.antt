-- ===== src/Num.antt =====
-- Printing of numbers: `num2str` of kernel/ramfs.c and `itoa` of lib/klib.c. A text is the list of
-- its bytes without the NUL. `num2str` is called for sizes, which are not negative; `itoa` reads the
-- 32 bits of its argument.
use exp_memfs.Base.{
  ltb, ◌==◌, if◌then◌else◌, length, get_or, set, ◌>>=◌, Outcome, ok, no_fuel, ℕ, zero, suc, ◌+◌,
  ◌-◌, ◌*◌, ◌/◌, ◌%◌, ◌^◌, ◌≡◌, refl, Bool, false, ◌||◌, List, [], ◌∷◌, ◌++◌,
}

-- The loop of `num2str` over the digits, behind the digits `buf`.
unfoldable pub digit_loop : ℕ → ℕ → List ℕ → Outcome (List ℕ)
digit_loop zero num buf = no_fuel
digit_loop (suc fuel) num buf =
    let rest = digit_loop fuel (num / 10) (buf ++ (num % 10 + b'0') ∷ []) in
    if num == 0 then ok buf else rest

-- `buf[i++] = '0'` if there is no digit.
abbrev pub or_zero : List ℕ → List ℕ
or_zero [] = b'0' ∷ []
or_zero (c ∷ buf) = c ∷ buf

abbrev pub swap : List ℕ → ℕ → ℕ → List ℕ
swap buf i j = set (set buf i (get_or buf j 0)) j (get_or buf i 0)

-- The loop that turns the digits round, `k` rounds from `j` on, for `i` digits.
unfoldable pub swap_loop : ℕ → ℕ → ℕ → List ℕ → List ℕ
swap_loop i j zero buf = buf
swap_loop i j (suc k) buf = swap_loop i (j + 1) k (swap buf j (i - j - 1))

-- `num2str`, for the text; its length is the value returned. A number has fewer digits than its
-- successor.
unfoldable pub num2str : ℕ → Outcome (List ℕ)
unfolding digit_loop swap_loop
num2str num = digit_loop (suc num) num [] >>= λ buf.
    let digits = or_zero buf in ok (swap_loop (length digits) 0 (length digits / 2) digits)

-- The character of a hexadecimal digit.
abbrev pub hex_digit : ℕ → ℕ
hex_digit ch = let c = ch + b'0' in if ltb b'9' c then c + 7 else c

-- The loop of `itoa`, for the digits from number `k - 1` down to 0; `flag` tells that one was written.
unfoldable pub hex_loop : ℕ → Bool → ℕ → List ℕ
hex_loop zero flag num = []
hex_loop (suc k) flag num =
    let ch = num / 2 ^ (4 * k) % 16 in
    let shown = flag || ltb 0 ch in
    let rest = hex_loop k shown num in if shown then hex_digit ch ∷ rest else rest

unfoldable pub itoa : ℕ → List ℕ
unfolding hex_loop
itoa num = b'0' ∷ b'x' ∷ (if num == 0 then b'0' ∷ [] else hex_loop 8 false num)

prints_5000 : num2str 5000 ≡ ok (b'5' ∷ b'0' ∷ b'0' ∷ b'0' ∷ [])
unfolding num2str
prints_5000 = refl

prints_b800 : itoa 0xB800 ≡ b'0' ∷ b'x' ∷ b'B' ∷ b'8' ∷ b'0' ∷ b'0' ∷ []
unfolding itoa
prints_b800 = refl
