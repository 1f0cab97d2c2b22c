-- ===== src/Memman/Release.antt =====
-- `memman_free` of kernel/memman.c: its branches by index are one recursion on the list, which
-- gives the block back to the set of free bytes and keeps the list well formed.
pub mod Bytes
use exp_memfs.Base.{
  ℕ, zero, suc, ◌≡◌, ap, Bool, true, false, ◌&&◌, Option, none, some, List, [], ◌∷◌, inl, inr,
  Bool-cases, ltb, ◌==◌, if◌then◌else◌, length, add32, arith,
}
use exp_memfs.Memman.{FreeInfo, position, place, joins_prev, joins_next, grow_prev}

-- The block goes in front of the list, joined to the first entry where they touch.
abbrev pub release_front : Bool → ℕ → ℕ → List FreeInfo → Option (List FreeInfo)
release_front room a n [] = if room then some (record { addr = a; size = n } ∷ []) else none
release_front room a n (e ∷ es) =
    if add32 a n == e.addr
    then some (record { addr = a; size = add32 e.size n } ∷ es)
    else if room
    then some (record { addr = a; size = n } ∷ e ∷ es)
    else none

-- The entry `e` grows by the block, and swallows the entry behind it where they touch.
abbrev pub absorb : ℕ → ℕ → FreeInfo → List FreeInfo → List FreeInfo
absorb a n e [] = record e { size = add32 e.size n } ∷ []
absorb a n e (f ∷ es) =
    if add32 a n == f.addr
    then record e { size = add32 (add32 e.size n) f.size } ∷ es
    else record e { size = add32 e.size n } ∷ f ∷ es

abbrev pub cons_some : FreeInfo → Option (List FreeInfo) → Option (List FreeInfo)
cons_some e none = none
cons_some e (some r) = some (e ∷ r)

abbrev pub starts_above : ℕ → List FreeInfo → Bool
starts_above a [] = true
starts_above a (e ∷ es) = ltb a e.addr

unfoldable pub release : Bool → ℕ → ℕ → List FreeInfo → Option (List FreeInfo)
release room a n [] = release_front room a n []
release room a n (e ∷ es) =
    if ltb a e.addr
    then release_front room a n (e ∷ es)
    else if starts_above a es && (add32 e.addr e.size == a)
    then some (absorb a n e es)
    else cons_some e (release room a n es)

-- Behind the first entry, the code works as on the rest of the list.
place-cons :
    (room a n i : ℕ) (e : FreeInfo) (es : List FreeInfo)
    → place (suc room) a n (suc (suc i)) (e ∷ es) ≡ cons_some e (place room a n (suc i) es)
unfolding place joins_prev joins_next grow_prev
place-cons room a n i e es = ground arith

place_full :
    (a n i : ℕ) (e : FreeInfo) (es : List FreeInfo)
    → place 0 a n (suc (suc i)) (e ∷ es) ≡ cons_some e (place 0 a n (suc i) es)
unfolding place joins_prev joins_next grow_prev
place_full a n i e es = ground arith

place_second :
    (room a n : ℕ) (e f : FreeInfo) (es : List FreeInfo)
    → ltb a e.addr ≡ false
    → ltb a f.addr ≡ true
    → place room a n 1 (e ∷ f ∷ es) ≡ release (ltb (suc (suc (length es))) room) a n (e ∷ f ∷ es)
unfolding place joins_prev joins_next grow_prev release
place_second room a n e f es h k = ground arith

release_later :
    (room : Bool) (a n : ℕ) (e f : FreeInfo) (es : List FreeInfo)
    → ltb a e.addr ≡ false
    → ltb a f.addr ≡ false
    → release room a n (e ∷ f ∷ es) ≡ cons_some e (release room a n (f ∷ es))
unfolding release
release_later room a n e f es h k = rw (h, k)

ltb_tail : (l room : ℕ) → ltb (suc (suc l)) (suc room) ≡ ltb (suc l) room
ltb_tail l room = ground arith

ltb_tail_zero : (l : ℕ) → ltb (suc (suc l)) 0 ≡ ltb (suc l) 0
ltb_tail_zero l = ground arith

place_later :
    (room a n : ℕ) (e f : FreeInfo) (es : List FreeInfo)
    → ltb a e.addr ≡ false
    → ltb a f.addr ≡ false
    → ((r : ℕ)
        → place r a n (suc (position a es)) (f ∷ es)
          ≡ release (ltb (suc (length es)) r) a n (f ∷ es))
    → place room a n (suc (suc (position a es))) (e ∷ f ∷ es)
      ≡ release (ltb (suc (suc (length es))) room) a n (e ∷ f ∷ es)
place_later zero a n e f es h k ih =
    rw (release_later _ a n e f es h k, place_full a n (position a es) e (f ∷ es))
      (ap (cons_some e) (rw (ltb_tail_zero (length es)) (ih 0)))
place_later (suc room) a n e f es h k ih =
    rw (release_later _ a n e f es h k, place-cons room a n (position a es) e (f ∷ es))
      (ap (cons_some e) (rw (ltb_tail (length es) room) (ih room)))

place_first :
    (room a n : ℕ) (e : FreeInfo) (es : List FreeInfo)
    → ltb a e.addr ≡ true
    → place room a n 0 (e ∷ es) ≡ release (ltb (suc (length es)) room) a n (e ∷ es)
unfolding place joins_prev joins_next grow_prev release
place_first room a n e es h = ground arith

-- The code at the index that its first loop finds is the recursion.
pub place-eq-release :
    (room a n : ℕ) (xs : List FreeInfo)
    → place room a n (position a xs) xs ≡ release (ltb (length xs) room) a n xs
unfolding position
place-eq-release room a n [] = unfold place joins_prev joins_next grow_prev release in ground arith
place-eq-release room a n (e ∷ []) =
    unfold place joins_prev joins_next grow_prev release in ground arith
place-eq-release room a n (e ∷ f ∷ es) = elim (Bool-cases (ltb a e.addr)) [
  | inl first ↦ rw first (place_first room a n e (f ∷ es) first)
  | inr later ↦ elim (Bool-cases (ltb a f.addr)) [
    | inl second ↦ rw (later, second) (place_second room a n e f es later second)
    | inr third ↦
        rw (later, third)
          (place_later room a n e f es later third
            (λ r. rw third at (place-eq-release r a n (f ∷ es))))
  ]
]
