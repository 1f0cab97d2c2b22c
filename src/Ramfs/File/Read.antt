-- ===== src/Ramfs/File/Read.antt =====
-- `rf_read` of kernel/ramfs.c.
use exp_memfs.Base.{
  ltb, leb, ◌==◌, if◌then◌else◌, ==_iff, Bool-cases, length, get_or, ◌>>=◌, ok, pos, ℕ, zero, suc,
  ◌+◌, ◌-◌, ◌*◌, ◌/◌, ◌%◌, ◌≤◌, ◌<◌, ◌≡◌, refl, sym, ap, ◌∙◌, ◌≢◌, ◌⊎◌, inl, inr, true, false, not,
  ◌&&◌, none, some, List, [], ◌++◌, arith,
}
use mathlib.Core.List.{append-nil, append_assoc}
use mathlib.Core.Path.{ap₂}
use native.Mathlib.Nat.{add-zero, sub-zero}
use exp_memfs.Ramfs.{Ram, Fat, Ref, cluster_size, last, next, page, seek}
use exp_memfs.Ramfs.Dir.{deref}
use exp_memfs.Ramfs.File.{
  pointed, not_null, no_desc, Sys, has_rdwr, size_of, set_pos, slice, read_loop, rf_read, min,
}
use exp_memfs.Ramfs.File.Content.{content, seek-suc, slice-content, content-append, length-content}

-- The chain from `c` on has a cluster for each of the first `n` bytes.
abbrev pub Covers : List Fat → ℕ → ℕ → Type 0
Covers fat c n = (i : ℕ) → i * cluster_size < n → seek fat c i ≢ last

read_done :
    (fuel : ℕ) (s : Ram) (size cur length st off br : ℕ) (out : List ℕ)
    → 0 < fuel
    → br ≡ length
    → read_loop fuel s size cur length st off br out ≡ ok (length, out)
unfolding read_loop
read_done zero s size cur length st off br out p e = absurd (omega arith)
read_done (suc fuel) s size cur length st off br out p e = ground arith

module _ (s : Ram) (size cur length c : ℕ)
    (fits : (length ≤ size - cur) ⊎ (cluster_size ≤ size - cur))
    (has : Covers s.fat c (cur + length)) where
  -- One round copies what the cluster has, or what is still wanted.
  read_step :
      (fuel st off br n : ℕ) (out : List ℕ)
      → br < length
      → st ≢ last
      → n ≡ (if ltb (cluster_size - off) (length - br) then cluster_size - off else length - br)
      → read_loop (suc fuel) s size cur length st off br out
        ≡ read_loop fuel s size cur length
            (next s.fat st)
            0
            (br + n)
            (out ++ slice s.mem (page s.fat st + off) n)
  unfolding read_loop
  read_step fuel st off br n out h l e = rw (goes_on, amount)
    where
      goes_on : (ltb br length && not (st == last)) ≡ true
      goes_on = ground arith

      amount : min (min (cluster_size - off) (length - br)) (size - cur) ≡ n
      amount = ground arith

  -- What a round copies is the next piece of the content.
  joined :
      (j off br n : ℕ) (out : List ℕ)
      → off + n ≤ cluster_size
      → br + n ≤ length
      → j * cluster_size + off ≡ cur + br
      → (out ++ slice s.mem (page s.fat (seek s.fat c j) + off) n)
          ++ content s c (cur + (br + n)) (length - (br + n))
        ≡ out ++ content s c (cur + br) (length - br)
  joined j off br n out h b q = rw (
    append_assoc,
    slice-content s c j off n (cur + br) h (sym q),
    split,
    content-append s c (cur + br) n (length - (br + n)),
    regroup,
  )
    where
      split : length - br ≡ n + (length - (br + n))
      split = omega arith

      regroup : cur + br + n ≡ cur + (br + n)
      regroup = omega arith

  read_loop-content :
      (fuel j off br : ℕ) (out : List ℕ)
      → off < cluster_size
      → br ≤ length
      → j * cluster_size + off ≡ cur + br
      → length - br < fuel
      → read_loop fuel s size cur length (seek s.fat c j) off br out
        ≡ ok (length, out ++ content s c (cur + br) (length - br))
  read_loop-content zero j off br out o b q f = absurd (omega arith)
  read_loop-content (suc fuel) j off br out o b q f = elim (Bool-cases (ltb br length)) [
    | inr over ↦
        read_done (suc fuel) s size cur length (seek s.fat c j) off br out (omega arith)
          (ground arith)
        ∙ ap (λ r. ok (length, r)) (rw (nothing (ground arith)) (sym (append-nil out)))
    | inl more ↦ elim (Bool-cases (ltb (cluster_size - off) (length - br))) [
      | inl whole ↦
          read_step fuel (seek s.fat c j) off br (cluster_size - off) out (ground arith)
            (has j (ground arith)) (rw whole)
          ∙ rw (← seek-suc s.fat c j) (
              read_loop-content fuel (suc j) 0 (br + (cluster_size - off))
                (out ++ slice s.mem (page s.fat (seek s.fat c j) + off) (cluster_size - off))
                (omega arith) (ground arith) (omega arith) (ground arith))
          ∙ ap (λ r. ok (length, r))
              (joined j off br (cluster_size - off) out (omega arith) (ground arith) q)
      | inr part ↦
          read_step fuel (seek s.fat c j) off br (length - br) out (ground arith)
            (has j (ground arith)) (rw part)
          ∙ read_done fuel s size cur length (next s.fat (seek s.fat c j)) 0 (br + (length - br))
              (out ++ slice s.mem (page s.fat (seek s.fat c j) + off) (length - br)) (ground arith)
              (omega arith)
          ∙ ap (λ r. ok (length, r))
              (ap (λ r. out ++ r)
                (slice-content s c j off (length - br) (cur + br) (ground arith) (sym q)))
    ]
  ]
    where
      nothing : br ≡ length → length - br ≡ 0
      nothing e = omega arith

-- The descriptor `fd` is open for reading and writing on the record `r`, through entry `k` of the
-- table, at position `p`.
pub record IsOpen (s : Sys) (fd k p : ℕ) (r : Ref) : Type 0 where
  pub slot : get_or s.filp fd none ≡ some k
  pub node : (get_or s.table k no_desc).fd_ram ≡ some r
  pub mode : has_rdwr (get_or s.table k no_desc).fd_mode ≡ true
  pub place : (get_or s.table k no_desc).fd_pos ≡ p

module _ (s : Sys) (fd k p count : ℕ) (r : Ref) (o : IsOpen s fd k p r) (h : p < size_of s.ram r)
    (has : Covers s.ram.fat (deref s.ram r).start_cluster (p + count)) where
  abbrev start : ℕ
  start = (deref s.ram r).start_cluster

  -- The call, where no round is cut short by the size.
  rf_read-content :
      (count ≤ size_of s.ram r - p) ⊎ (cluster_size ≤ size_of s.ram r - p)
      → rf_read s fd count ≡ ok (pos count, content s.ram start p count, set_pos s k (p + count))
  unfolding rf_read
  rf_read-content fits = rw (
    rf_read,
    ◌>>=◌,
    pointed,
    o.slot,
    not_null,
    o.node,
    o.mode,
    o.place,
    before,
    loop,
    (==_iff count count).1 refl,
  )
    where
      before : leb (size_of s.ram r) p ≡ false
      before = ground arith

      loop :
          read_loop
            (suc count)
            s.ram
            (size_of s.ram r)
            p
            count
            (seek s.ram.fat start (p / cluster_size))
            (p % cluster_size)
            0
            []
          ≡ ok (count, content s.ram start p count)
      loop =
          read_loop-content s.ram (size_of s.ram r) p count start fits has (suc count)
            (p / cluster_size) (p % cluster_size) 0 [] (omega arith) (omega arith) (omega arith)
            (omega arith)
          ∙ ap₂ (λ a b. ok (count, content s.ram start a b)) (add-zero p) (sub-zero count)

-- Reading from an open file no more bytes than lie between the position and the end of the file,
-- over a chain that has the clusters for them, never runs out of rounds or fails its assertion: it
-- returns the count asked for and exactly those bytes of the file's chain, across cluster
-- boundaries too, and moves the position behind them and changes nothing else.
pub rf_read_lem :
    (s : Sys) (fd k p count : ℕ) (r : Ref)
    → IsOpen s fd k p r
    → p < size_of s.ram r
    → count ≤ size_of s.ram r - p
    → Covers s.ram.fat (deref s.ram r).start_cluster (p + count)
    → rf_read s fd count
      ≡ ok (pos count, content s.ram (deref s.ram r).start_cluster p count, set_pos s k (p + count))
rf_read_lem s fd k p count r o h fits has = rf_read-content s fd k p count r o h has (inl fits)

-- The size bounds a call by what was left at its start and not by what is left: from a position at
-- least one cluster before the end of the file, a call for more bytes than the file still has
-- returns all that it asked for, as far as the chain has clusters, the bytes behind the end too,
-- and leaves the position behind the end.
pub rf_read_past_end :
    (s : Sys) (fd k p count : ℕ) (r : Ref)
    → IsOpen s fd k p r
    → p + cluster_size ≤ size_of s.ram r
    → size_of s.ram r < p + count
    → Covers s.ram.fat (deref s.ram r).start_cluster (p + count)
    → (rf_read s fd count
        ≡ ok (
          pos count,
          content s.ram (deref s.ram r).start_cluster p count,
          set_pos s k (p + count),
        ))
      × (size_of s.ram r < p + length (content s.ram (deref s.ram r).start_cluster p count))
rf_read_past_end s fd k p count r o h over has = (
  rf_read-content s fd k p count r o (omega arith) has (inr (omega arith)),
  rw (length-content s.ram (deref s.ram r).start_cluster p count) over,
)
