-- ===== src/Spinlock.antt =====
-- The spin locks of kernel/spinlock.c, for processors that take turns. `cmpxchg` is one step of the
-- machine.
pub mod Exclusion
mod Tests
use exp_memfs.Base.{
  ltb, leb, ◌==◌, if◌then◌else◌, ltb→lt, lt→ltb, leb→le, ==_iff, Bool-cases, Option-cases, length,
  get_or, set, take, drop, replicate, erase_at, insert_at, length-append, length-set,
  get_or-set_self, get_or-set_ne, length-insert_at, take-append-drop, length-take, length-drop,
  u32_mod, add32, sub32, minus_one, sub_ℕ, ◌>>=◌, ◌>>◌, assert, Outcome, ok, panic, fault, no_fuel,
  ℤ, pos, negsuc, ℕ, zero, suc, ◌+◌, ◌-◌, ◌*◌, ◌/◌, ◌%◌, ◌^◌, ◌≤◌, ◌<◌, ◌≡◌, refl, sym, ap, ◌∙◌,
  ◌≢◌, ◌↔◌, ◌⊎◌, inl, inr, Bool, true, false, not, ◌&&◌, ◌||◌, Option, none, some, List, [], ◌∷◌,
  ◌++◌, map, arith,
}

-- `struct spinlock`, with the name left out.
pub record Spinlock : Type 0 where
  pub locked : ℕ
  pub cpu : ℕ

unfoldable pub initlock : Spinlock
initlock = record { locked = 0; cpu = 0xffffffff }

-- The value that was there, and the word after the exchange.
abbrev pub cmpxchg : ℕ → ℕ → ℕ → ℕ × ℕ
cmpxchg oldval newval word = (word, if word == oldval then newval else word)

-- One round of `acquire`: whether the loop ends, and the lock.
unfoldable pub acquire_round : Spinlock → Bool × Spinlock
acquire_round lock =
    let (result, word) = cmpxchg 0 1 lock.locked in
    (not (result == 1), record lock { locked = word })

unfoldable pub release : Spinlock → Spinlock
release lock = record lock { locked = 0 }
