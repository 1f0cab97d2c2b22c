-- ===== src/Paging/Fault.antt =====
-- Page faults, kernel/pagetbl.c: `page_fault_handler`. `halt` is a panic; the messages are left out.
use exp_memfs.Base.{
  ◌==◌, if◌then◌else◌, add32, ◌>>=◌, Outcome, ok, panic, ℕ, zero, suc, ◌+◌, ◌≤◌, ◌<◌, ◌≡◌, refl, ap,
  ◌∙◌, Bool, true, false, arith,
}
use Prim.Native.Nat.{bit_or}
use exp_memfs.Paging.{
  Mmu, slot, get_pde_index, get_pte_index, get_pde_phy_addr, get_pte_phy_addr, pte_exist,
  write_word, pg_p,
}

-- The tables, and the variables `cr2_save` and `cr2_count`.
pub record Faults : Type 0 where
  pub mmu : Mmu
  pub cr2_save : ℕ
  pub cr2_count : ℕ

-- `*p |= PG_P` at the word `x`.
abbrev set_present : Mmu → ℕ → Mmu
set_present s x = write_word s x (bit_or (s.word x) pg_p)

-- The present bit that is missing, of the directory's entry or else of the table's.
abbrev pub mend : Mmu → ℕ → ℕ → Mmu
mend s pid cr2 =
    if pte_exist s (get_pde_phy_addr s pid) cr2
    then set_present s (slot (get_pte_phy_addr s pid cr2) (get_pte_index cr2))
    else set_present s (slot (get_pde_phy_addr s pid) (get_pde_index cr2))

-- `page_fault_handler`, for the process `pid` and the address `cr2`.
unfoldable pub page_fault_handler : Bool → ℕ → ℕ → Faults → Outcome Faults
page_fault_handler initial pid cr2 s = elim initial [
  | true ↦ panic
  | false ↦ elim (cr2 == s.cr2_save) [
    | false ↦ ok (record { mmu = mend s.mmu pid cr2; cr2_save = cr2; cr2_count = 0 })
    | true ↦ elim (add32 s.cr2_count 1 == 5) [
      | true ↦ panic
      | false ↦ ok (record {
        mmu = mend s.mmu pid cr2;
        cr2_save = s.cr2_save;
        cr2_count = add32 s.cr2_count 1;
      })
    ]
  ]
]

-- `k` faults at one address after another, with nothing between them.
abbrev pub faults : ℕ → ℕ → ℕ → Faults → Outcome Faults
faults pid cr2 zero s = ok s
faults pid cr2 (suc k) s = page_fault_handler false pid cr2 s >>= faults pid cr2 k

module _ (pid cr2 : ℕ) where
  -- The state after `c` repetitions.
  abbrev at : Mmu → ℕ → Faults
  at m c = record { mmu = m; cr2_save = cr2; cr2_count = c }

  first :
      (s : Faults)
      → (cr2 == s.cr2_save) ≡ false
      → page_fault_handler false pid cr2 s ≡ ok (at (mend s.mmu pid cr2) 0)
  unfolding page_fault_handler
  first s h = rw (page_fault_handler, h)

  again :
      (m : Mmu) (c : ℕ)
      → c < 4
      → page_fault_handler false pid cr2 (at m c) ≡ ok (at (mend m pid cr2) (suc c))
  unfolding page_fault_handler
  again m c h = rw (page_fault_handler, self, page_fault_handler, below, count)
    where
      self : (cr2 == cr2) ≡ true
      self = ground arith

      below : (add32 c 1 == 5) ≡ false
      below = ground arith

      count : add32 c 1 ≡ suc c
      count = omega arith

  last : (m : Mmu) → page_fault_handler false pid cr2 (at m 4) ≡ panic
  unfolding page_fault_handler
  last m = rw (page_fault_handler, self)
    where
      self : (cr2 == cr2) ≡ true
      self = ground arith

  faults-suc :
      (k : ℕ) (s t : Faults)
      → page_fault_handler false pid cr2 s ≡ ok t
      → faults pid cr2 (suc k) s ≡ faults pid cr2 k t
  faults-suc k s t e = ap (λ r. r >>= faults pid cr2 k) e

  repeated :
      (k c : ℕ) (m : Mmu)
      → c + k ≤ 4
      → (s' : Faults) × (faults pid cr2 k (at m c) ≡ ok s') × (s'.cr2_count ≡ c + k)
  repeated zero c m h = (at m c, refl, omega arith)
  repeated (suc k) c m h =
      let (s', e, n) = repeated k (suc c) (mend m pid cr2) (omega arith) in
      (
        s',
        faults-suc k (at m c) (at (mend m pid cr2) (suc c)) (again m c (omega arith)) ∙ e,
        omega (arith, n),
      )

  stopped : (k c : ℕ) (m : Mmu) → c + k ≡ 4 → faults pid cr2 (suc k) (at m c) ≡ panic
  stopped zero c m h = rw four (ap (λ r. r >>= faults pid cr2 0) (last m))
    where
      four : c ≡ 4
      four = omega arith
  stopped (suc k) c m h =
      faults-suc (suc k) (at m c) (at (mend m pid cr2) (suc c)) (again m c (omega arith))
      ∙ stopped k (suc c) (mend m pid cr2) (omega arith)

-- A process in the running kernel that faults at one address over and over, where its last fault was
-- at another address, is served five times and stopped at the sixth fault, whatever its tables hold.
pub faults_stop :
    (pid cr2 : ℕ) (s : Faults)
    → (cr2 == s.cr2_save) ≡ false
    → ((s' : Faults) × (faults pid cr2 5 s ≡ ok s') × (s'.cr2_count ≡ 4))
      × (faults pid cr2 6 s ≡ panic)
faults_stop pid cr2 s h =
    let (s', e, n) = repeated pid cr2 4 0 (mend s.mmu pid cr2) (omega arith) in
    (
      (s', faults-suc pid cr2 4 s (at pid cr2 (mend s.mmu pid cr2) 0) (first pid cr2 s h) ∙ e, n),
      faults-suc pid cr2 5 s (at pid cr2 (mend s.mmu pid cr2) 0) (first pid cr2 s h)
          ∙ stopped pid cr2 4 0 (mend s.mmu pid cr2) refl,
    )
