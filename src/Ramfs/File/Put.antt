-- ===== src/Ramfs/File/Put.antt =====
-- The bytes of a file, written one by one: what the copies of `rf_write` come to.
use native.Mathlib.Nat.{add-zero}
use exp_memfs.Base.{
  ltb, leb, ◌==◌, if◌then◌else◌, ==_iff, Bool-cases, length, get_or, ℕ, zero, suc, ◌+◌, ◌-◌, ◌*◌,
  ◌/◌, ◌%◌, ◌≤◌, ◌<◌, ◌≡◌, refl, ap, ◌∙◌, inl, inr, false, ◌&&◌, List, [], ◌∷◌, ◌++◌, arith,
}
use mathlib.Core.Path.{fun_ext, ap₂}
use exp_memfs.Str.{Mem, store}
use exp_memfs.Ramfs.{Fat, cluster_size, page, seek}
use exp_memfs.Ramfs.File.{poke}

suc_ne_zero : (n : ℕ) → (suc n == 0) ≡ false
suc_ne_zero n = ground arith

get_or-cons :
    (b : ℕ) (bs : List ℕ) (n : ℕ)
    → get_or (b ∷ bs) n 0 ≡ (if n == 0 then b else get_or bs (n - 1) 0)
get_or-cons b bs zero = refl
get_or-cons b bs (suc n) = rw (suc_ne_zero n, less) refl
  where
    less : suc n - 1 ≡ n
    less = omega arith

module _ (fat : List Fat) (c : ℕ) where
  -- The address of byte `k` of the file.
  abbrev pub addr_of : ℕ → ℕ
  addr_of k = page fat (seek fat c (k / cluster_size)) + k % cluster_size

  -- The file's bytes from `q` on become `bytes`.
  abbrev pub put : Mem → ℕ → List ℕ → Mem
  put m q [] = m
  put m q (b ∷ bs) = put (store m (addr_of q) b) (q + 1) bs

  pub put-append :
      (m : Mem) (q : ℕ) (xs ys : List ℕ) → put m q (xs ++ ys) ≡ put (put m q xs) (q + length xs) ys
  put-append m q [] ys = rw (add-zero q)
  put-append m q (b ∷ xs) ys =
      put-append (store m (addr_of q) b) (q + 1) xs ys
      ∙ ap (λ k. put (put (store m (addr_of q) b) (q + 1) xs) k ys) (omega arith)

  poke-cons :
      (m : Mem) (a b x : ℕ) (bs : List ℕ) → poke m a (b ∷ bs) x ≡ poke (store m a b) (a + 1) bs x
  poke-cons m a b x bs = ground (arith, get_or-cons b bs (x - a))

  -- A copy that stays in one cluster.
  pub poke-put :
      (m : Mem) (j off q : ℕ) (bs : List ℕ)
      → off + length bs ≤ cluster_size
      → q ≡ j * cluster_size + off
      → poke m (page fat (seek fat c j) + off) bs ≡ put m q bs
  poke-put m j off q [] h e = fun_ext (λ x. ground arith)
  poke-put m j off q (b ∷ bs) h e =
      fun_ext (λ x. poke-cons m (page fat (seek fat c j) + off) b x bs)
      ∙ ap₂ (λ z a. poke (store m z b) a bs) here step
      ∙ poke-put (store m (addr_of q) b) j (off + 1) (q + 1) bs (omega arith) (omega arith)
    where
      here : page fat (seek fat c j) + off ≡ addr_of q
      here = ap₂ (λ a z. page fat (seek fat c a) + z) (omega arith) (omega arith)

      step : page fat (seek fat c j) + off + 1 ≡ page fat (seek fat c j) + (off + 1)
      step = omega arith

  -- The bytes of the file below `n` have an address each.
  abbrev pub Separate : ℕ → Type 0
  Separate n = (x y : ℕ) → x < n → y < n → addr_of x ≡ addr_of y → x ≡ y

  at_first :
      (m : Mem) (q b : ℕ) (bs : List ℕ) (k : ℕ)
      → k ≡ q
      → (if leb (q + 1) k && ltb k (q + 1 + length bs)
          then get_or bs (k - (q + 1)) 0
          else store m (addr_of q) b (addr_of k))
        ≡ (if leb q k && ltb k (q + suc (length bs))
            then get_or (b ∷ bs) (k - q) 0
            else m (addr_of k))
  at_first m q b bs k e = ground (arith, get_or-cons b bs (k - q), ap addr_of e)

  pub put-addr_of :
      (n : ℕ) (apart : Separate n) (m : Mem) (q : ℕ) (bs : List ℕ) (k : ℕ)
      → q + length bs ≤ n
      → k < n
      → put m q bs (addr_of k)
        ≡ (if leb q k && ltb k (q + length bs) then get_or bs (k - q) 0 else m (addr_of k))
  put-addr_of n apart m q [] k h l = ground arith
  put-addr_of n apart m q (b ∷ bs) k h l = elim (Bool-cases (k == q)) [
    | inl same ↦
        rw (put-addr_of n apart (store m (addr_of q) b) (q + 1) bs k (omega arith) l)
          (at_first m q b bs k ((==_iff k q).0 same))
    | inr other ↦
        rw (put-addr_of n apart (store m (addr_of q) b) (q + 1) bs k (omega arith) l)
          (ground (arith, get_or-cons b bs (k - q), apart k q))
  ]
