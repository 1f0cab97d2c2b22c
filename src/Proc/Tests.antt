-- ===== src/Proc/Tests.antt =====
-- The scheduler at a small table.
use exp_memfs.Base.{get_or, ok, pos, ℕ, ◌≡◌, refl, ◌⊎◌, true, false, List, [], ◌∷◌}
use exp_memfs.Proc.{Pcb, idle, ready, no_pcb, beats, refill, nat_of, schedule}
use exp_memfs.Proc.Choose.{schedule_lem}

-- Two ready processes that have used up their ticks.
abbrev two : List Pcb
two =
    record { stat = ready; ticks = pos 0; priority = pos 5; channel = 0 }
    ∷ record { stat = ready; ticks = pos 0; priority = pos 9; channel = 0 }
    ∷ []

second_runs : schedule two 0 0 ≡ ok (1, refill two)
unfolding schedule exp_memfs.Proc.schedule_rounds exp_memfs.Proc.pick refill
second_runs = refl

schedule_lem_example :
    (n : ℕ) × (ps' : List Pcb) × (schedule two 0 0 ≡ ok (n, ps'))
    × (beats (get_or ps' n no_pcb) 0 ≡ true)
    × ((ps' ≡ two) ⊎ (ps' ≡ refill two))
    × (((beats (get_or two 0 no_pcb) 0 ≡ true) × (n ≡ 0) × (ps' ≡ two))
        ⊎ ((k : ℕ) → beats (get_or ps' k no_pcb) (nat_of (get_or ps' n no_pcb).ticks) ≡ false))
schedule_lem_example = schedule_lem two 0 0 0 4 refl refl
