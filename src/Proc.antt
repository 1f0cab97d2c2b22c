-- ===== src/Proc.antt =====
-- The process table of kernel/proc.c and the clock tick of kernel/clock.c. A process is its index in
-- `proc_table`, a channel the address of its field. The switch of the context (`sched`) is left out.
pub mod Choose
mod Tests
use exp_memfs.Base.{
  ltb, leb, ◌==◌, if◌then◌else◌, ltb→lt, lt→ltb, leb→le, ==_iff, Bool-cases, Option-cases, length,
  get_or, set, take, drop, replicate, erase_at, insert_at, length-append, length-set,
  get_or-set_self, get_or-set_ne, length-insert_at, take-append-drop, length-take, length-drop,
  u32_mod, add32, sub32, minus_one, sub_ℕ, ◌>>=◌, ◌>>◌, assert, Outcome, ok, panic, fault, no_fuel,
  ℤ, pos, negsuc, ℕ, zero, suc, ◌+◌, ◌-◌, ◌*◌, ◌/◌, ◌%◌, ◌^◌, ◌≤◌, ◌<◌, ◌≡◌, refl, sym, ap, ◌∙◌,
  ◌≢◌, ◌↔◌, ◌⊎◌, inl, inr, Bool, true, false, not, ◌&&◌, ◌||◌, Option, none, some, List, [], ◌∷◌,
  ◌++◌, map, arith,
}

-- `enum proc_stat`
pub data Stat : Type 0 where
  idle ready sleeping killed : Stat

abbrev pub is_idle : Stat → Bool
is_idle idle = true
is_idle ready = false
is_idle sleeping = false
is_idle killed = false

abbrev pub is_ready : Stat → Bool
is_ready idle = false
is_ready ready = true
is_ready sleeping = false
is_ready killed = false

abbrev pub is_sleeping : Stat → Bool
is_sleeping idle = false
is_sleeping ready = false
is_sleeping sleeping = true
is_sleeping killed = false

-- The members of `task` that the scheduler uses.
pub record Pcb : Type 0 where
  pub stat : Stat
  pub ticks : ℤ
  pub priority : ℤ
  pub channel : ℕ

abbrev pub no_pcb : Pcb
no_pcb = record { stat = idle; ticks = pos 0; priority = pos 0; channel = 0 }

-- NR_K_PCBS, and NR_PCBS, the length of `proc_table`
abbrev pub nr_k_pcbs : ℕ
nr_k_pcbs = 4

abbrev pub nr_pcbs : ℕ
nr_pcbs = 12

-- `z > g`, and the number that `z` then is.
abbrev pub above : ℤ → ℕ → Bool
above (pos t) g = ltb g t
above (negsuc t) g = false

abbrev pub nat_of : ℤ → ℕ
nat_of (pos t) = t
nat_of (negsuc t) = 0

-- The test of `schedule` on a process, by its status and ticks.
abbrev pub wins : Stat → ℤ → ℕ → Bool
wins st t g = is_ready st && above t g

abbrev pub beats : Pcb → ℕ → Bool
beats p g = wins p.stat p.ticks g

-- The search of `schedule` from index `i` on, for `greatest_ticks` and `p_proc_next`.
unfoldable pub pick : List Pcb → ℕ → ℕ → ℕ → ℕ × ℕ
pick [] i greatest next = (greatest, next)
pick (p ∷ ps) i greatest next =
    pick ps (i + 1) (if beats p greatest then nat_of p.ticks else greatest)
      (if beats p greatest then i else next)

-- Every process gets its priority as ticks.
unfoldable pub refill : List Pcb → List Pcb
refill [] = []
refill (p ∷ ps) = record p { ticks = p.priority } ∷ refill ps

-- The loop of `schedule`, for the new `p_proc_next`.
unfoldable pub schedule_rounds : ℕ → List Pcb → ℕ → Outcome (ℕ × List Pcb)
schedule_rounds zero ps next = no_fuel
schedule_rounds (suc fuel) ps next =
    let (greatest, chosen) = pick ps 0 0 next in
    elim (greatest == 0) [
      | true ↦ schedule_rounds fuel (refill ps) chosen
      | false ↦ ok (chosen, ps)
    ]

-- `schedule`, with two rounds for the loop.
unfoldable pub schedule : List Pcb → ℕ → ℕ → Outcome (ℕ × List Pcb)
schedule ps current next = elim (beats (get_or ps current no_pcb) 0) [
  | true ↦ ok (current, ps)
  | false ↦ schedule_rounds 2 ps next
]

-- The first idle process, from index `i` on.
unfoldable pub find_idle : List Pcb → ℕ → Option ℕ
find_idle [] i = none
find_idle (p ∷ ps) i = let rest = find_idle ps (i + 1) in if is_idle p.stat then some i else rest

unfoldable pub alloc_pcb : List Pcb → Option ℕ
unfolding find_idle
alloc_pcb ps = find_idle (drop nr_k_pcbs ps) nr_k_pcbs

abbrev pub set_stat : List Pcb → ℕ → Stat → List Pcb
set_stat ps i st = set ps i (record (get_or ps i no_pcb) { stat = st })

unfoldable pub free_pcb : List Pcb → ℕ → List Pcb
free_pcb ps i = set_stat ps i idle

-- `sys_yield` in front of `sched`.
unfoldable pub sys_yield : List Pcb → ℕ → List Pcb
sys_yield ps current = set ps current (record (get_or ps current no_pcb) { ticks = pos 0 })

unfoldable pub sys_wakeup : List Pcb → ℕ → List Pcb
sys_wakeup [] channel = []
sys_wakeup (p ∷ ps) channel =
    (if is_sleeping p.stat && (p.channel == channel) then record p { stat = ready } else p)
    ∷ sys_wakeup ps channel

abbrev pub pred : ℤ → ℤ
pred (pos zero) = negsuc 0
pred (pos (suc n)) = pos n
pred (negsuc n) = negsuc (suc n)

-- `clock_handler` behind `ticks++`, for the address of `ticks`.
unfoldable pub clock_handler : Bool → ℕ → List Pcb → ℕ → List Pcb
unfolding sys_wakeup
clock_handler initial channel ps current =
    if initial
    then ps
    else sys_wakeup
        (set ps current
          (record (get_or ps current no_pcb) { ticks = pred (get_or ps current no_pcb).ticks }))
        channel
