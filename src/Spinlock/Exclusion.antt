-- ===== src/Spinlock/Exclusion.antt =====
-- Mutual exclusion by the spin locks of kernel/spinlock.c, over any order of the processors' steps.
use exp_memfs.Base.{ℕ, ◌+◌, ◌≤◌, ◌≡◌, refl, true, false, arith}
use exp_memfs.Spinlock.{Spinlock, initlock, acquire_round, release}

-- The lock, and how many processors stand between `acquire` and `release`.
pub data Runs : Spinlock → ℕ → Type 0 where
  start : Runs initlock 0
  spins :
      (l : Spinlock) (n : ℕ) → Runs l n → (acquire_round l).0 ≡ false → Runs (acquire_round l).1 n
  enters :
      (l : Spinlock) (n : ℕ)
      → Runs l n
      → (acquire_round l).0 ≡ true
      → Runs (acquire_round l).1 (n + 1)
  leaves : (l : Spinlock) (n : ℕ) → Runs l (n + 1) → Runs (release l) n

-- In every state that rounds of `acquire` and calls of `release` by a holder lead to from a fresh
-- lock, in any order, `locked` is the number of holders, and there is one at most.
pub exclusion : (l : Spinlock) (n : ℕ) → Runs l n → (l.locked ≡ n) × (n ≤ 1)
unfolding acquire_round release initlock
exclusion _ _ start = (refl, omega arith)
exclusion _ _ (spins l n r h) = let ih = exclusion l n r in ground (arith, ih, h)
exclusion _ _ (enters l n r h) = let ih = exclusion l n r in ground (arith, ih, h)
exclusion _ _ (leaves l n r) = let ih = exclusion l (n + 1) r in ground (arith, ih)
