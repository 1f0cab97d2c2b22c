-- ===== src/Fat32/Place.antt =====
-- The places that `FindSpaceInDir` of kernel/base.c finds for a name of one record.
use exp_memfs.Base.{
  leb, ◌==◌, if◌then◌else◌, Bool-cases, ◌>>=◌, Outcome, ok, panic, fault, no_fuel, ℕ, zero, suc,
  ◌+◌, ◌%◌, ◌≤◌, ◌<◌, ◌≡◌, refl, sym, ap, ◌∙◌, ◌⊎◌, inl, inr, Bool, true, false, Option, none, some,
  List, arith,
}
use mathlib.Core.Path.{subst}
use mathlib.Core.Bool.{true≢false}
use exp_memfs.Fat32.{Geometry, Sector}
use exp_memfs.Fat32.Name.{get_name_from_record}
use exp_memfs.Fat32.Dir.{record_at, same_text, next_sector, is_unused, free_run, space_loop}

-- What a search for the place `p` went through in a round.
pub data Round (g : Geometry) (d : ℕ → Sector) (fuel first cur off : ℕ) (name : List ℕ) (p : ℕ × ℕ)
    : Type 0 where
  turns :
      (fullname : List ℕ)
      → leb g.bytes_per_sector off ≡ true
      → space_loop fuel g d first (next_sector first cur) 0 fullname name 1 ≡ ok (some p)
      → Round g d fuel first cur off name p
  hits :
      leb g.bytes_per_sector off ≡ false
      → is_unused (record_at (d cur) off) ≡ true
      → (cur, off) ≡ p
      → Round g d fuel first cur off name p
  passes :
      (fullname : List ℕ)
      → leb g.bytes_per_sector off ≡ false
      → is_unused (record_at (d cur) off) ≡ false
      → space_loop fuel g d first cur (off + 32) fullname name 1 ≡ ok (some p)
      → Round g d fuel first cur off name p

-- The result of an outcome.
abbrev pub result : Outcome (Option (ℕ × ℕ)) → Option (ℕ × ℕ)
result (ok r) = r
result panic = none
result fault = none
result no_fuel = none

abbrev place_or : ℕ × ℕ → Option (ℕ × ℕ) → ℕ × ℕ
place_or q none = q
place_or q (some p) = p

abbrev pub is_some : Option (ℕ × ℕ) → Bool
is_some none = false
is_some (some p) = true

pub round_lem :
    (g : Geometry) (d : ℕ → Sector) (fuel first cur off : ℕ) (fullname name : List ℕ) (p : ℕ × ℕ)
    → space_loop (suc fuel) g d first cur off fullname name 1 ≡ ok (some p)
    → Round g d fuel first cur off name p
unfolding space_loop free_run
round_lem g d fuel first cur off fullname name p h =
    elim (Bool-cases (leb g.bytes_per_sector off)) [
      | inl e ↦ turns fullname e (rw e at h)
      | inr e ↦ elim (Bool-cases (is_unused (record_at (d cur) off))) [
        | inl f ↦ hits e f (ap (λ r. place_or p (result r)) (rw (e, f) at h))
        | inr f ↦ elim (Bool-cases (record_at (d cur) off 11 == 0x08)) [
          | inl l ↦ passes fullname e f (rw (e, f, l) at h)
          | inr l ↦
              let (full, k) =
                by_name (get_name_from_record (record_at (d cur) off) fullname)
                  (rw (e, f, l) at h) in
              passes full e f k
        ]
      ]
    ]
  where
    by_test :
        (full : List ℕ)
        → ((same_text name full) ≡ true) ⊎ ((same_text name full) ≡ false)
        → (if same_text name full
            then ok none
            else space_loop fuel g d first cur (off + 32) full name 1)
          ≡ ok (some p)
        → space_loop fuel g d first cur (off + 32) full name 1 ≡ ok (some p)
    by_test full (inl t) k = absurd (true≢false (ap (λ r. is_some (result r)) (sym (rw t at k))))
    by_test full (inr t) k = rw t at k

    by_name :
        (o : Outcome (List ℕ))
        → (o >>= λ full.
            if same_text name full
            then ok none
            else space_loop fuel g d first cur (off + 32) full name 1)
          ≡ ok (some p)
        → (full : List ℕ) × (space_loop fuel g d first cur (off + 32) full name 1 ≡ ok (some p))
    by_name (ok full) k = (full, by_test full (Bool-cases (same_text name full)) k)
    by_name panic k = absurd (true≢false (ap (λ r. is_some (result r)) (sym k)))
    by_name fault k = absurd (true≢false (ap (λ r. is_some (result r)) (sym k)))
    by_name no_fuel k = absurd (true≢false (ap (λ r. is_some (result r)) (sym k)))

-- One of the 8 sectors from `first` on.
abbrev pub Among : ℕ → ℕ → Type 0
Among first cur = (first ≤ cur) × (cur < first + 8)

pub next_sector-Among : (first cur : ℕ) → Among first cur → Among first (next_sector first cur)
next_sector-Among first cur (x, y) = (ground (arith, x, y), ground (arith, x, y))

-- The place that is found is at a record of 32 bytes, and free, in one of the sectors.
pub place_lem :
    (g : Geometry) (d : ℕ → Sector) (fuel first cur off : ℕ) (fullname name : List ℕ) (c o : ℕ)
    → Among first cur
    → off % 32 ≡ 0
    → space_loop fuel g d first cur off fullname name 1 ≡ ok (some (c, o))
    → Among first c × (o % 32 ≡ 0) × (is_unused (record_at (d c) o) ≡ true)
unfolding space_loop
place_lem g d zero first cur off fullname name c o i a h =
    absurd (true≢false (ap (λ r. is_some (result r)) (sym h)))
place_lem g d (suc fuel) first cur off fullname name c o i a h =
    elim (round_lem g d fuel first cur off fullname name (c, o) h) [
      | turns full e k ↦
          place_lem g d fuel first (next_sector first cur) 0 full name c o
            (next_sector-Among first cur i) refl k
      | hits e f q ↦ (
        subst (λ (x, y). Among first x) q i,
        ap (λ (x, y). y % 32) (sym q) ∙ a,
        ap (λ (x, y). is_unused (record_at (d x) y)) (sym q) ∙ f,
      )
      | passes full e f k ↦
          place_lem g d fuel first cur (off + 32) full name c o i (omega (arith, a)) k
    ]
