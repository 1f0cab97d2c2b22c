-- ===== src/Memman/Release/Bytes.antt =====
-- What `memman_free` of kernel/memman.c does to the set of free bytes and to the table.
use exp_memfs.Base.{
  add32, ◌&&◌, false, true, ◌==◌, ltb, Bool-cases, inl, inr, refl, ℕ, ◌+◌, ◌^◌, ◌≤◌, ◌<◌, ◌≡◌, Bool,
  ◌||◌, Option, none, some, List, [], ◌∷◌, length, arith, suc,
}
use exp_memfs.Memman.{FreeInfo}
use exp_memfs.Memman.View.{in_block, is_free, Gapped, Apart, bytes, Gapped-le}
use exp_memfs.Memman.Release.{cons_some, starts_above, release, release_front, absorb}

or_assoc : (p q r : Bool) → (p || (q || r)) ≡ ((p || q) || r)
or_assoc true q r = refl
or_assoc false q r = refl

Gapped-here :
    (k : ℕ) (e : FreeInfo) (es : List FreeInfo) → Gapped k (e ∷ es) → Gapped e.addr (e ∷ es)
Gapped-here k e es g = ground arith

module _ (a n : ℕ) where
  abbrev pub Given : Bool → ℕ → List FreeInfo → Option (List FreeInfo) → Type 0
  Given room k xs none = room ≡ false
  Given room k xs (some r) =
      Gapped k r
      × (bytes r ≡ bytes xs + n)
      × (length r ≤ length xs + 1)
      × (room ≡ false → length r ≤ length xs)

  abbrev pub Adds : ℕ → List FreeInfo → Option (List FreeInfo) → Type 0
  Adds x xs none = Unit {0}
  Adds x xs (some r) = is_free x r ≡ (is_free x xs || in_block a n x)

  module _ (pos : 0 < n) (fit : a + n < 2 ^ 32) where
    release_front-Given :
        (room : Bool) (k l : ℕ) (xs : List FreeInfo)
        → k ≤ a
        → a < l
        → Gapped l xs
        → Apart a n xs
        → Given room k xs (release_front room a n xs)
    release_front-Given room k l [] ka al g d = ground arith
    release_front-Given room k l (e ∷ es) ka al g d = ground (arith, Gapped-le k l es)

    pub release-Given :
        (room : Bool) (k : ℕ) (xs : List FreeInfo)
        → k ≤ a
        → Gapped k xs
        → Apart a n xs
        → Given room k xs (release room a n xs)
    unfolding release
    release-Given room k [] ka g d = ground arith
    release-Given room k (e ∷ []) ka g d = ground arith
    release-Given room k (e ∷ f ∷ es) ka g d =
        ground (arith, release-Given room (e.addr + e.size + 1) (f ∷ es))

    release_front-Adds :
        (x : ℕ) (room : Bool) (l : ℕ) (xs : List FreeInfo)
        → a < l
        → Gapped l xs
        → Apart a n xs
        → Adds x xs (release_front room a n xs)
    release_front-Adds x room l [] al g d = ground arith
    release_front-Adds x room l (e ∷ es) al g d = ground arith

    absorb-Adds :
        (x : ℕ) (e : FreeInfo) (es : List FreeInfo)
        → e.addr + e.size ≡ a
        → a + n < 2 ^ 32
        → Gapped (e.addr + e.size + 1) es
        → Apart a n es
        → is_free x (absorb a n e es) ≡ (is_free x (e ∷ es) || in_block a n x)
    absorb-Adds x e [] h f g d = ground arith
    absorb-Adds x e (f ∷ es) h fit g d = ground arith

    cons_some-Adds :
        (x : ℕ) (e : FreeInfo) (es : List FreeInfo) (o : Option (List FreeInfo))
        → Adds x es o
        → Adds x (e ∷ es) (cons_some e o)
    cons_some-Adds x e es none h = tt
    cons_some-Adds x e es (some r) h =
        rw h (or_assoc (in_block e.addr e.size x) (is_free x es) (in_block a n x))

    next_le :
        (k : ℕ) (e : FreeInfo) (es : List FreeInfo)
        → Gapped k (e ∷ es)
        → Apart a n (e ∷ es)
        → ltb a e.addr ≡ false
        → (starts_above a es && (add32 e.addr e.size == a)) ≡ false
        → e.addr + e.size + 1 ≤ a
    next_le k e [] g d h t = ground arith
    next_le k e (f ∷ es) g d h t = ground arith

    pub release-Adds :
        (x : ℕ) (room : Bool) (k : ℕ) (xs : List FreeInfo)
        → k ≤ a
        → Gapped k xs
        → Apart a n xs
        → Adds x xs (release room a n xs)
    unfolding release
    release-Adds x room k [] ka g d = release_front-Adds x room (suc a) [] (omega arith) tt tt
    release-Adds x room k (e ∷ es) ka g d = elim (Bool-cases (ltb a e.addr)) [
      | inl first ↦
          rw first
            (release_front-Adds x room e.addr (e ∷ es) (ground arith) (Gapped-here k e es g) d)
      | inr later ↦ elim (Bool-cases (starts_above a es && (add32 e.addr e.size == a))) [
        | inl touch ↦ rw (later, touch) (absorb-Adds x e es (ground arith) fit g.3 d.1)
        | inr apart ↦
            rw (later, apart)
              (cons_some-Adds x e es (release room a n es) (
                release-Adds x room (e.addr + e.size + 1) es (next_le k e es g d later apart) g.3
                  d.1))
      ]
    ]
