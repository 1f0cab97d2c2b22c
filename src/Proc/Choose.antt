-- ===== src/Proc/Choose.antt =====
-- Which process `schedule` of kernel/proc.c chooses.
use exp_memfs.Base.{
  ◌==◌, if◌then◌else◌, ==_iff, Bool-cases, get_or, Outcome, ok, ℤ, pos, negsuc, ℕ, zero, suc, ◌+◌,
  ◌≤◌, ◌≡◌, refl, sym, ap, ◌∙◌, ◌⊎◌, inl, inr, true, false, List, [], ◌∷◌, arith,
}
use mathlib.Core.Path.{subst⁻¹, subst}
use mathlib.Core.Bool.{true≢false}
use exp_memfs.Proc.{
  idle, ready, sleeping, killed, wins, Stat, Pcb, no_pcb, is_ready, nat_of, beats, pick, refill,
  schedule_rounds, schedule,
}

-- The ticks in hand after a process was looked at.
bid_of : Stat → ℤ → ℕ → ℕ
bid_of st t g = if wins st t g then nat_of t else g

bid : Pcb → ℕ → ℕ
unfolding bid_of
bid p g = bid_of p.stat p.ticks g

bid_of-grows : (st : Stat) (t : ℤ) (g : ℕ) → g ≤ bid_of st t g
unfolding bid_of
bid_of-grows ready (pos t) g = ground arith
bid_of-grows ready (negsuc t) g = omega arith
bid_of-grows idle t g = omega arith
bid_of-grows sleeping t g = omega arith
bid_of-grows killed t g = omega arith

wins-bid_of : (st : Stat) (t : ℤ) (g m : ℕ) → bid_of st t g ≤ m → wins st t m ≡ false
unfolding bid_of
wins-bid_of ready (pos t) g m l = ground arith
wins-bid_of ready (negsuc t) g m l = refl
wins-bid_of idle t g m l = refl
wins-bid_of sleeping t g m l = refl
wins-bid_of killed t g m l = refl

pick-grows : (ps : List Pcb) (i g n : ℕ) → g ≤ (pick ps i g n).0
unfolding pick bid bid_of
pick-grows [] i g n = omega arith
pick-grows (p ∷ ps) i g n = omega (
  arith,
  bid_of-grows p.stat p.ticks g,
  pick-grows ps (i + 1) (bid p g) (if beats p g then i else n),
)

-- No process beats the ticks found.
pick-beats : (ps : List Pcb) (i g n k : ℕ) → beats (get_or ps k no_pcb) (pick ps i g n).0 ≡ false
unfolding pick bid bid_of
pick-beats [] i g n k = refl
pick-beats (p ∷ ps) i g n zero =
    wins-bid_of p.stat p.ticks g (pick (p ∷ ps) i g n).0
      (pick-grows ps (i + 1) (bid p g) (if beats p g then i else n))
pick-beats (p ∷ ps) i g n (suc k) = pick-beats ps (i + 1) (bid p g) (if beats p g then i else n) k

bid_of-won : (st : Stat) (t : ℤ) (g : ℕ) → wins st t g ≡ true → bid_of st t g ≡ nat_of t
unfolding bid_of
bid_of-won st t g h = rw h refl

bid_of-lost : (st : Stat) (t : ℤ) (g : ℕ) → wins st t g ≡ false → bid_of st t g ≡ g
unfolding bid_of
bid_of-lost st t g h = rw h refl

-- A process that is ready, with `g` ticks.
Holds : Stat → ℤ → ℕ → Type 0
Holds st t g = (is_ready st ≡ true) × (t ≡ pos g)

wins-Holds : (st : Stat) (t : ℤ) (g : ℕ) → wins st t g ≡ true → Holds st t (nat_of t)
unfolding Holds
wins-Holds ready (pos t) g h = (refl, refl)
wins-Holds ready (negsuc t) g h = ground arith
wins-Holds idle t g h = ground arith
wins-Holds sleeping t g h = ground arith
wins-Holds killed t g h = ground arith

-- Either nothing beat the ticks in hand, or the process found has those found.
Found : List Pcb → ℕ → ℕ → ℕ → ℕ × ℕ → Type 0
Found ps i g n (g', n') =
    ((g' ≡ g) × (n' ≡ n))
    ⊎ ((k : ℕ) × (n' ≡ i + k) × Holds (get_or ps k no_pcb).stat (get_or ps k no_pcb).ticks g')

Found-cons :
    (p : Pcb) (ps : List Pcb) (i g n : ℕ) (r : ℕ × ℕ)
    → Found ps (i + 1) (bid p g) (if beats p g then i else n) r
    → Found (p ∷ ps) i g n r
unfolding Found bid
Found-cons p ps i g n r (inr (k, e, h)) = inr (suc k, omega arith, h)
Found-cons p ps i g n r (inl (e, e')) = elim (Bool-cases (beats p g)) [
  | inl h ↦ inr (
    0,
    ground arith,
    subst⁻¹ (Holds p.stat p.ticks) (e ∙ bid_of-won p.stat p.ticks g h)
        (wins-Holds p.stat p.ticks g h),
  )
  | inr h ↦ inl (e ∙ bid_of-lost p.stat p.ticks g h, ground arith)
]

pick-Found : (ps : List Pcb) (i g n : ℕ) → Found ps i g n (pick ps i g n)
unfolding pick Found bid bid_of
pick-Found [] i g n = inl (refl, refl)
pick-Found (p ∷ ps) i g n =
    Found-cons p ps i g n (pick (p ∷ ps) i g n)
      (pick-Found ps (i + 1) (bid p g) (if beats p g then i else n))

-- Process `n` is ready with ticks left, and no process has more.
record Chosen (ps : List Pcb) (n : ℕ) : Type 0 where
  runs : beats (get_or ps n no_pcb) 0 ≡ true
  best : (k : ℕ) → beats (get_or ps k no_pcb) (nat_of (get_or ps n no_pcb).ticks) ≡ false

Holds-wins : (st : Stat) (t : ℤ) (g : ℕ) → Holds st t g → (g == 0) ≡ false → wins st t 0 ≡ true
unfolding Holds
Holds-wins st t g (r, e) h = rw (e, r) (ground arith)

drop_zero : (k : ℕ) → 0 + k ≡ k
drop_zero k = omega arith

pick-Chosen :
    (ps : List Pcb) (next : ℕ)
    → ((pick ps 0 0 next).0 == 0) ≡ false
    → Chosen ps (pick ps 0 0 next).1
unfolding Found Holds
pick-Chosen ps next h = go (pick-Found ps 0 0 next)
  where
    go : Found ps 0 0 next (pick ps 0 0 next) → Chosen ps (pick ps 0 0 next).1
    go (inl (e, _)) = ground arith
    go (inr (k, e, (r, t))) = subst⁻¹ (Chosen ps) (e ∙ drop_zero k) (record {
      runs =
          Holds-wins (get_or ps k no_pcb).stat (get_or ps k no_pcb).ticks (pick ps 0 0 next).0
            (r, t) h;
      best = λ j.
          subst⁻¹ (λ x. beats (get_or ps j no_pcb) x ≡ false) (ap nat_of t)
            (pick-beats ps 0 0 next j);
    })

pick-nonzero :
    (ps : List Pcb) (next j : ℕ)
    → beats (get_or ps j no_pcb) 0 ≡ true
    → ((pick ps 0 0 next).0 == 0) ≡ false
pick-nonzero ps next j h = elim (Bool-cases ((pick ps 0 0 next).0 == 0)) [
  | inr e ↦ e
  | inl e ↦ absurd (
      true≢false (
        sym h
        ∙ subst (λ g. beats (get_or ps j no_pcb) g ≡ false) ((==_iff (pick ps 0 0 next).0 0).0 e)
            (pick-beats ps 0 0 next j)))
]

refill-beats :
    (ps : List Pcb) (j m : ℕ)
    → is_ready (get_or ps j no_pcb).stat ≡ true
    → (get_or ps j no_pcb).priority ≡ pos (suc m)
    → beats (get_or (refill ps) j no_pcb) 0 ≡ true
unfolding refill
refill-beats [] j m h e = ground arith
refill-beats (p ∷ ps) zero m h e = rw (h, e) (ground arith)
refill-beats (p ∷ ps) (suc j) m h e = refill-beats ps j m h e

-- A state that the loop may end in: some process is chosen, before or after the ticks were refilled.
record Ends (ps : List Pcb) (result : Outcome (ℕ × List Pcb)) : Type 0 where
  chosen : ℕ
  table : List Pcb
  here : result ≡ ok (chosen, table)
  kept : (table ≡ ps) ⊎ (table ≡ refill ps)
  wins_all : Chosen table chosen

round_done :
    (fuel : ℕ) (ps : List Pcb) (next : ℕ)
    → ((pick ps 0 0 next).0 == 0) ≡ false
    → schedule_rounds (suc fuel) ps next ≡ ok ((pick ps 0 0 next).1, ps)
unfolding schedule_rounds
round_done fuel ps next h = rw (schedule_rounds, h)

round_again :
    (fuel : ℕ) (ps : List Pcb) (next : ℕ)
    → ((pick ps 0 0 next).0 == 0) ≡ true
    → schedule_rounds (suc fuel) ps next ≡ schedule_rounds fuel (refill ps) (pick ps 0 0 next).1
unfolding schedule_rounds
round_again fuel ps next h = rw (schedule_rounds, h)

loop-Ends :
    (ps : List Pcb) (next j m : ℕ)
    → is_ready (get_or ps j no_pcb).stat ≡ true
    → (get_or ps j no_pcb).priority ≡ pos (suc m)
    → Ends ps (schedule_rounds 2 ps next)
loop-Ends ps next j m h e = elim (Bool-cases ((pick ps 0 0 next).0 == 0)) [
  | inr some_ticks ↦ record {
    chosen = (pick ps 0 0 next).1;
    table = ps;
    here = round_done 1 ps next some_ticks;
    kept = inl refl;
    wins_all = pick-Chosen ps next some_ticks;
  }
  | inl none_left ↦
      let second = pick-nonzero (refill ps) (pick ps 0 0 next).1 j (refill-beats ps j m h e) in
      record {
        chosen = (pick (refill ps) 0 0 (pick ps 0 0 next).1).1;
        table = refill ps;
        here =
            round_again 1 ps next none_left ∙ round_done 0 (refill ps) (pick ps 0 0 next).1 second;
        kept = inr refl;
        wins_all = pick-Chosen (refill ps) (pick ps 0 0 next).1 second;
      }
]

-- Where some process is ready and its priority is positive, `schedule` ends within two rounds. The
-- process it chooses is ready and has ticks left, in a table that is as before or has each process's
-- ticks refilled from its priority, and no ready process of that table has more ticks, unless the
-- current process was ready with ticks left: then it is chosen and the table is as before.
pub schedule_lem :
    (ps : List Pcb) (current next j m : ℕ)
    → is_ready (get_or ps j no_pcb).stat ≡ true
    → (get_or ps j no_pcb).priority ≡ pos (suc m)
    → (n : ℕ) × (ps' : List Pcb) × (schedule ps current next ≡ ok (n, ps'))
      × (beats (get_or ps' n no_pcb) 0 ≡ true)
      × ((ps' ≡ ps) ⊎ (ps' ≡ refill ps))
      × (((beats (get_or ps current no_pcb) 0 ≡ true) × (n ≡ current) × (ps' ≡ ps))
          ⊎ ((k : ℕ) → beats (get_or ps' k no_pcb) (nat_of (get_or ps' n no_pcb).ticks) ≡ false))
unfolding schedule
schedule_lem ps current next j m h e = elim (Bool-cases (beats (get_or ps current no_pcb) 0)) [
  | inl keeps ↦ (current, ps, rw (schedule, keeps), keeps, inl refl, inl (keeps, refl, refl))
  | inr over ↦
      let r = loop-Ends ps next j m h e in
      (r.chosen, r.table, rw (schedule, over) r.here, r.wins_all.runs, r.kept, inr r.wins_all.best)
]
