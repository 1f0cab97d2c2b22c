-- ===== src/Ramfs/File/Content.antt =====
-- The bytes of a file: byte `k` lies in cluster number `k / 4096` of the chain.
use mathlib.Core.Path.{ap₂}
use native.Mathlib.Nat.{zero-add, add-zero, suc-add}
use exp_memfs.Base.{
  length, ℕ, zero, suc, ◌+◌, ◌*◌, ◌/◌, ◌%◌, ◌≤◌, ◌≡◌, refl, ap, ◌∙◌, List, [], ◌∷◌, ◌++◌, arith,
}
use exp_memfs.Ramfs.{Ram, Fat, cluster_size, next, page, seek}
use exp_memfs.Ramfs.File.{slice}

abbrev pub byte_at : Ram → ℕ → ℕ → ℕ
byte_at s c k = s.mem (page s.fat (seek s.fat c (k / cluster_size)) + k % cluster_size)

-- The `n` bytes of the file from position `q` on.
abbrev pub content : Ram → ℕ → ℕ → ℕ → List ℕ
content s c q zero = []
content s c q (suc n) = byte_at s c q ∷ content s c (q + 1) n

pub seek-suc : (fat : List Fat) (c k : ℕ) → seek fat c (suc k) ≡ next fat (seek fat c k)
unfolding seek
seek-suc fat c zero = refl
seek-suc fat c (suc k) = seek-suc fat (next fat c) k

pub slice-content :
    (s : Ram) (c j off n q : ℕ)
    → off + n ≤ cluster_size
    → q ≡ j * cluster_size + off
    → slice s.mem (page s.fat (seek s.fat c j) + off) n ≡ content s c q n
slice-content s c j off zero q h e = refl
slice-content s c j off (suc n) q h e =
    ap₂ ◌∷◌ (ap s.mem here)
      (rw step (slice-content s c j (off + 1) n (q + 1) (omega arith) (omega arith)))
  where
    step : page s.fat (seek s.fat c j) + off + 1 ≡ page s.fat (seek s.fat c j) + (off + 1)
    step = omega arith

    number : j ≡ q / cluster_size
    number = omega arith

    place : off ≡ q % cluster_size
    place = omega arith

    here :
        page s.fat (seek s.fat c j) + off
        ≡ page s.fat (seek s.fat c (q / cluster_size)) + q % cluster_size
    here = ap₂ (λ a b. page s.fat (seek s.fat c a) + b) number place

pub content-append :
    (s : Ram) (c q a b : ℕ) → content s c q (a + b) ≡ content s c q a ++ content s c (q + a) b
content-append s c q zero b = rw (zero-add, add-zero)
content-append s c q (suc a) b =
    rw suc-add (ap (λ r. byte_at s c q ∷ r) (content-append s c (q + 1) a b ∙ rw shift refl))
  where
    shift : q + 1 + a ≡ q + suc a
    shift = omega arith

pub length-content : (s : Ram) (c q n : ℕ) → length (content s c q n) ≡ n
length-content s c q zero = refl
length-content s c q (suc n) = ap suc (length-content s c (q + 1) n)
