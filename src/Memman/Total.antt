-- ===== src/Memman/Total.antt =====
-- `memman_total` of kernel/memman.c.
use exp_memfs.Base.{add32, ℕ, ◌+◌, ◌^◌, ◌≤◌, ◌<◌, ◌≡◌, List, [], ◌∷◌, arith}
use exp_memfs.Memman.{FreeInfo, Memman, total_from, memman_total}
use exp_memfs.Memman.View.{Gapped, bytes}
use exp_memfs.Memman.Free.{IsValid}

bytes-le : (k : ℕ) (xs : List FreeInfo) → k ≤ 2 ^ 32 → Gapped k xs → k + bytes xs ≤ 2 ^ 32
bytes-le k [] h g = omega arith
bytes-le k (e ∷ es) h g = omega (arith, bytes-le (e.addr + e.size + 1) es (omega arith) g.3)

bytes-lt : (xs : List FreeInfo) → Gapped 0 xs → bytes xs < 2 ^ 32
bytes-lt [] g = omega arith
bytes-lt (e ∷ es) g = omega (arith, bytes-le (e.addr + e.size + 1) es (omega arith) g.3)

total_from-eq :
    (t : ℕ) (xs : List FreeInfo) → t + bytes xs < 2 ^ 32 → total_from t xs ≡ t + bytes xs
unfolding total_from
total_from-eq t [] h = omega arith
total_from-eq t (e ∷ es) h = omega (arith, total_from-eq (add32 t e.size) es (omega arith))

-- In a valid manager the 32-bit sum of the block sizes does not wrap: `memman_total` is the number
-- of free bytes.
pub memman_total-eq-bytes : (m : Memman) → IsValid m → memman_total m ≡ bytes m.free
unfolding memman_total
memman_total-eq-bytes m v =
    omega (arith, total_from-eq 0 m.free (omega (arith, bytes-lt m.free v.list)))
