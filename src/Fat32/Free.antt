-- ===== src/Fat32/Free.antt =====
-- What `FindClusterForFile` of kernel/base.c finds.
use exp_memfs.Base.{
  leb, ◌==◌, if◌then◌else◌, Bool-cases, length, length-append, Outcome, ok, ℕ, zero, suc, ◌+◌, ◌-◌,
  ◌*◌, ◌/◌, ◌%◌, ◌^◌, ◌≤◌, ◌<◌, ◌≡◌, refl, sym, ap, ◌∙◌, ◌⊎◌, inl, inr, Bool, true, false, Option,
  none, some, List, [], ◌∷◌, ◌++◌, arith,
}
use mathlib.Core.Path.{ap₂}
use exp_memfs.Fat32.{Geometry, Sector, fat_place, get_dword}
use exp_memfs.Fat32.Table.{entry, IsUsual, place-eq}
use exp_memfs.Fat32.Find.{take_free, is_enough, found_more, rounds_from, find_loop, find_clusters}

-- The first `need` of the `n` clusters from `c` on whose entry is 0, or all of them.
abbrev pub free_clusters : (ℕ → ℕ) → ℕ → ℕ → ℕ → List ℕ
free_clusters t zero c need = []
free_clusters t (suc n) c need =
    if t c == 0
    then (if leb need 1 then c ∷ [] else c ∷ free_clusters t n (c + 1) (need - 1))
    else free_clusters t n (c + 1) need

pub entry-eq :
    (g : Geometry) (d : ℕ → Sector) (c : ℕ)
    → IsUsual g
    → c < 2 ^ 30
    → entry g d c ≡ get_dword (d (g.reserved_sector + c / 128)) (c % 128 * 4)
unfolding entry
entry-eq g d c u h =
    let (i, o) = place-eq g c u h in
    ap (λ k. get_dword (d k) (fat_place g c)) i ∙ ap (get_dword (d (g.reserved_sector + c / 128))) o

-- The next entry is in the same sector, if there is a round for it.
take_free-next :
    (g : Geometry) (d : ℕ → Sector) (n c need : ℕ)
    → c % 128 + suc n ≤ 128
    → take_free n (d (g.reserved_sector + c / 128)) (c % 128 * 4 + 4) (c + 1) need
      ≡ take_free n (d (g.reserved_sector + (c + 1) / 128)) ((c + 1) % 128 * 4) (c + 1) need
unfolding take_free
take_free-next g d zero c need r = refl
take_free-next g d (suc n) c need r =
    ap₂ (λ i o. take_free (suc n) (d i) o (c + 1) need) (omega (arith, r)) (omega (arith, r))

-- One round, by the entry and by what the other rounds find.
abbrev taken : ℕ → ℕ → ℕ → List ℕ → List ℕ → List ℕ
taken v c need fewer more = if v == 0 then (if leb need 1 then c ∷ [] else c ∷ fewer) else more

take_free-eq :
    (g : Geometry) (d : ℕ → Sector) (n c need : ℕ)
    → IsUsual g
    → c + n < 2 ^ 30
    → c % 128 + n ≤ 128
    → take_free n (d (g.reserved_sector + c / 128)) (c % 128 * 4) c need
      ≡ free_clusters (entry g d) n c need
unfolding take_free
take_free-eq g d zero c need u h r = refl
take_free-eq g d (suc n) c need u h r =
    ap
      (λ v.
        taken v c need
          (take_free n (d (g.reserved_sector + c / 128)) (c % 128 * 4 + 4) (c + 1) (need - 1))
          (take_free n (d (g.reserved_sector + c / 128)) (c % 128 * 4 + 4) (c + 1) need))
      (sym (entry-eq g d c u (omega (arith, h))))
    ∙ ap₂ (taken (entry g d c) c need)
        (take_free-next g d n c (need - 1) r
          ∙ further n (need - 1) r (take_free-eq g d n (c + 1) (need - 1) u (omega (arith, h))))
        (take_free-next g d n c need r
          ∙ further n need r (take_free-eq g d n (c + 1) need u (omega (arith, h))))
  where
    further :
        (n m : ℕ)
        → c % 128 + suc n ≤ 128
        → ((c + 1) % 128 + n ≤ 128
            → take_free n (d (g.reserved_sector + (c + 1) / 128)) ((c + 1) % 128 * 4) (c + 1) m
              ≡ free_clusters (entry g d) n (c + 1) m)
        → take_free n (d (g.reserved_sector + (c + 1) / 128)) ((c + 1) % 128 * 4) (c + 1) m
          ≡ free_clusters (entry g d) n (c + 1) m
    further n m r f = f (omega (arith, r))

-- What is found in a second part, behind a first one.
abbrev glue : ℕ → List ℕ → List ℕ → List ℕ
glue need found rest = if is_enough need found then found else found ++ rest

glue-cons :
    (need c : ℕ) (found rest : List ℕ)
    → 1 < need
    → c ∷ glue (need - 1) found rest ≡ glue need (c ∷ found) rest
glue-cons need c found rest h =
    either (is_enough (need - 1) found)
    ∙ ap (λ b. if b then c ∷ found else c ∷ (found ++ rest)) same
  where
    either :
        (b : Bool)
        → c ∷ (if b then found else found ++ rest) ≡ (if b then c ∷ found else c ∷ (found ++ rest))
    either true = refl
    either false = refl

    same : is_enough (need - 1) found ≡ is_enough need (c ∷ found)
    same = ground (arith, h)

-- A search that is done in two parts.
free_clusters-append :
    (t : ℕ → ℕ) (a b c need : ℕ)
    → free_clusters t (a + b) c need
      ≡ glue need
          (free_clusters t a c need)
          (free_clusters t b (c + a) (need - length (free_clusters t a c need)))
free_clusters-append t zero b c need =
    ap (λ n. free_clusters t n c need) (omega arith)
    ∙ ap₂ (free_clusters t b) (omega arith) (omega arith)
free_clusters-append t (suc a) b c need =
    ap (λ n. free_clusters t n c need) longer
    ∙ cases (Bool-cases (t c == 0)) (Bool-cases (leb need 1))
        (free_clusters-append t a b (c + 1) need) (free_clusters-append t a b (c + 1) (need - 1))
  where
    longer : suc a + b ≡ suc (a + b)
    longer = omega arith

    moved : c + 1 + a ≡ c + suc a
    moved = omega arith

    cases :
        ((t c == 0) ≡ true) ⊎ ((t c == 0) ≡ false)
        → (leb need 1 ≡ true) ⊎ (leb need 1 ≡ false)
        → free_clusters t (a + b) (c + 1) need
          ≡ glue need
              (free_clusters t a (c + 1) need)
              (free_clusters t b (c + 1 + a) (need - length (free_clusters t a (c + 1) need)))
        → (free_clusters t (a + b) (c + 1) (need - 1)
            ≡ glue (need - 1) (free_clusters t a (c + 1) (need - 1)) (
                free_clusters t b
                  (c + 1 + a)
                  (need - 1 - length (free_clusters t a (c + 1) (need - 1)))))
        → free_clusters t (suc (a + b)) c need
          ≡ glue need
              (free_clusters t (suc a) c need)
              (free_clusters t b (c + suc a) (need - length (free_clusters t (suc a) c need)))
    cases (inr f) k ih ih' = rw f (
        ih
        ∙ ap
            (λ n.
              glue need (free_clusters t a (c + 1) need)
                (free_clusters t b n (need - length (free_clusters t a (c + 1) need))))
            moved)
    cases (inl f) (inl k) ih ih' = rw (f, k) (rw k refl)
    cases (inl f) (inr k) ih ih' =
        rw (f, k)
          (ap (λ l. c ∷ l) ih'
            ∙ glue-cons need c (free_clusters t a (c + 1) (need - 1))
                (free_clusters t b (c + 1 + a)
                  (need - 1 - length (free_clusters t a (c + 1) (need - 1))))
                (ground (arith, k))
            ∙ ap₂
                (λ n m.
                  glue need (c ∷ free_clusters t a (c + 1) (need - 1)) (free_clusters t b n m))
                moved (omega arith))

abbrev pub answer : ℕ → List ℕ → Option (List ℕ)
answer need found = if is_enough need found then some found else none

answer-append :
    (need : ℕ) (found rest : List ℕ)
    → is_enough need found ≡ false
    → found_more found (ok (answer (need - length found) rest)) ≡ ok (answer need (found ++ rest))
answer-append need found rest e =
    either (is_enough (need - length found) rest)
    ∙ ap (λ b. ok (if b then some (found ++ rest) else none)) same
  where
    either :
        (b : Bool)
        → found_more found (ok (if b then some rest else none))
          ≡ ok (if b then some (found ++ rest) else none)
    either true = refl
    either false = refl

    same : is_enough (need - length found) rest ≡ is_enough need (found ++ rest)
    same = ground (arith, e, length-append found rest)

rounds_from-eq : (g : Geometry) (c : ℕ) → IsUsual g → rounds_from g (c % 128 * 4) ≡ 128 - c % 128
rounds_from-eq g c u = rw (u.size) (omega arith)

-- One round of the loop, by what is found in the sector.
abbrev round : ℕ → Geometry → (ℕ → Sector) → ℕ → ℕ → ℕ → ℕ → List ℕ → Outcome (Option (List ℕ))
round fuel g d cur n c need found =
    if is_enough need found
    then ok (some found)
    else if leb ((g.reserved_sector + g.sectors_per_fat) * g.bytes_per_sector % 2 ^ 32)
        (cur * g.bytes_per_sector % 2 ^ 32)
    then ok none
    else found_more found (find_loop fuel g d (cur + 1) 0 (c + n) (need - length found))

-- A round, and the rest of the search as it should be.
round-eq :
    (fuel r : ℕ) (g : Geometry) (d : ℕ → Sector) (cur n c need : ℕ)
    → (is_enough need (free_clusters (entry g d) n c need) ≡ false
        → (if leb
              ((g.reserved_sector + g.sectors_per_fat) * g.bytes_per_sector % 2 ^ 32)
              (cur * g.bytes_per_sector % 2 ^ 32)
            then ok none
            else found_more (free_clusters (entry g d) n c need) (
                find_loop fuel g d
                  (cur + 1)
                  0
                  (c + n)
                  (need - length (free_clusters (entry g d) n c need))))
          ≡ found_more (free_clusters (entry g d) n c need) (
              ok (
                answer (need - length (free_clusters (entry g d) n c need)) (
                  free_clusters
                    (entry g d)
                    r
                    (c + n)
                    (need - length (free_clusters (entry g d) n c need))))))
    → round fuel g d cur n c need (free_clusters (entry g d) n c need)
      ≡ ok (answer need (free_clusters (entry g d) (n + r) c need))
round-eq fuel r g d cur n c need f =
    by_found (Bool-cases (is_enough need (free_clusters (entry g d) n c need)))
    ∙ ap (λ l. ok (answer need l)) (sym (free_clusters-append (entry g d) n r c need))
  where
    by_found :
        (is_enough need (free_clusters (entry g d) n c need) ≡ true)
          ⊎ (is_enough need (free_clusters (entry g d) n c need) ≡ false)
        → round fuel g d cur n c need (free_clusters (entry g d) n c need)
          ≡ ok (
              answer need (
                glue need (free_clusters (entry g d) n c need) (
                  free_clusters
                    (entry g d)
                    r
                    (c + n)
                    (need - length (free_clusters (entry g d) n c need)))))
    by_found (inl e) = rw e (rw e refl)
    by_found (inr e) = rw e (
        f e
        ∙ answer-append need (free_clusters (entry g d) n c need)
            (free_clusters (entry g d) r (c + n)
              (need - length (free_clusters (entry g d) n c need)))
            e)

first_round :
    (m : ℕ) (g : Geometry) (d : ℕ → Sector) (c need : ℕ)
    → IsUsual g
    → c < 2 ^ 29
    → find_loop (suc m) g d (g.reserved_sector + c / 128) (c % 128 * 4) c need
      ≡ round m g d
          (g.reserved_sector + c / 128)
          (128 - c % 128)
          c
          need
          (free_clusters (entry g d) (128 - c % 128) c need)
unfolding find_loop
first_round m g d c need u h =
    ap₂ (λ n l. round m g d (g.reserved_sector + c / 128) n c need l) (rounds_from-eq g c u)
      (ap (λ n. take_free n (d (g.reserved_sector + c / 128)) (c % 128 * 4) c need)
          (rounds_from-eq g c u)
        ∙ take_free-eq g d (128 - c % 128) c need u (omega (arith, h)) (omega arith))

-- `m` sectors stand behind the one with the entry of cluster `c`.
find_loop-eq :
    (m : ℕ) (g : Geometry) (d : ℕ → Sector) (c need : ℕ)
    → IsUsual g
    → c / 128 + m ≡ g.sectors_per_fat
    → g.reserved_sector + g.sectors_per_fat < 2 ^ 21
    → find_loop (suc m) g d (g.reserved_sector + c / 128) (c % 128 * 4) c need
      ≡ ok (answer need (free_clusters (entry g d) (128 - c % 128 + 128 * m) c need))
find_loop-eq zero g d c need u q b =
    first_round zero g d c need u (omega (arith, q, b))
    ∙ round-eq zero (128 * 0) g d (g.reserved_sector + c / 128) (128 - c % 128) c need
        (λ e. rw end refl)
  where
    end :
        leb
          ((g.reserved_sector + g.sectors_per_fat) * g.bytes_per_sector % 2 ^ 32)
          ((g.reserved_sector + c / 128) * g.bytes_per_sector % 2 ^ 32)
        ≡ true
    end = rw (u.size) (ground (arith, q, b))
find_loop-eq (suc m) g d c need u q b =
    first_round (suc m) g d c need u (omega (arith, q, b))
    ∙ round-eq (suc m) (128 * suc m) g d (g.reserved_sector + c / 128) (128 - c % 128) c need (λ e.
      rw (more) (
        ap (found_more (free_clusters (entry g d) (128 - c % 128) c need)) (
          onward (need - length (free_clusters (entry g d) (128 - c % 128) c need)) (
            find_loop-eq m g d (c + (128 - c % 128))
              (need - length (free_clusters (entry g d) (128 - c % 128) c need)) u
              (omega (arith, q)) b))))
  where
    more :
        leb
          ((g.reserved_sector + g.sectors_per_fat) * g.bytes_per_sector % 2 ^ 32)
          ((g.reserved_sector + c / 128) * g.bytes_per_sector % 2 ^ 32)
        ≡ false
    more = rw (u.size) (ground (arith, q, b))

    onward :
        (k : ℕ)
        → find_loop
            (suc m)
            g
            d
            (g.reserved_sector + (c + (128 - c % 128)) / 128)
            ((c + (128 - c % 128)) % 128 * 4)
            (c + (128 - c % 128))
            k
          ≡ ok (
              answer k (
                free_clusters
                  (entry g d)
                  (128 - (c + (128 - c % 128)) % 128 + 128 * m)
                  (c + (128 - c % 128))
                  k))
        → find_loop (suc m) g d (g.reserved_sector + c / 128 + 1) 0 (c + (128 - c % 128)) k
          ≡ ok (answer k (free_clusters (entry g d) (128 * suc m) (c + (128 - c % 128)) k))
    onward k f =
        ap₂ (λ i o. find_loop (suc m) g d i o (c + (128 - c % 128)) k) (omega arith) (omega arith)
        ∙ f
        ∙ ap (λ n. ok (answer k (free_clusters (entry g d) n (c + (128 - c % 128)) k)))
            (omega arith)

-- On a disk with sectors of 512 bytes and a reserved sector in front, whose reserved sectors and first
-- table are fewer than 2 ^ 21: the search of `FindClusterForFile` gives the first `need` free clusters,
-- from 2 on and in order, and one for a `need` of 0, or INSUFFICIENTSPACE when there are fewer. It always
-- ends, in one round per sector of the table and one more. It looks at the entries of the first table,
-- and at those of one more sector, the first one behind that table, as if they were the entries of
-- further clusters.
pub find_clusters_lem :
    (g : Geometry) (d : ℕ → Sector) (need : ℕ)
    → IsUsual g
    → g.reserved_sector + g.sectors_per_fat < 2 ^ 21
    → find_clusters g d need
      ≡ ok (answer need (free_clusters (entry g d) (126 + 128 * g.sectors_per_fat) 2 need))
unfolding find_clusters
find_clusters_lem g d need u b =
    ap (λ i. find_loop (suc g.sectors_per_fat) g d i 8 2 need) (omega arith)
    ∙ find_loop-eq g.sectors_per_fat g d 2 need u (omega arith) b
