-- ===== src/Fat32/Cache.antt =====
-- The sector of the table that is kept in `FATBuf`, kernel/base.c: reads through it see every write.
use exp_memfs.Base.{
  ◌==◌, if◌then◌else◌, lt→ltb, ==_iff, Bool-cases, minus_one, Outcome, ok, panic, fault, no_fuel, ℕ,
  zero, suc, ◌+◌, ◌^◌, ◌≤◌, ◌<◌, ◌≡◌, refl, sym, ap, ◌∙◌, ◌≢◌, ◌⊎◌, inl, inr, true, false, List, [],
  ◌∷◌, arith,
}
use mathlib.Core.Path.{subst, subst⁻¹}
use mathlib.Core.Bool.{true≢false}
use exp_memfs.Fat32.{
  disk_position, copy_512, Geometry, Sector, Vdisk, fat_end, fat_sector, fat_place, get_dword,
  put_sector, write_sector, get_next_cluster, Buffered, switch, put_entry, put_chain, write_fat,
  clear_loop, clear_fats,
}
use exp_memfs.Fat32.Table.{
  entry, IsUsual, dword-eq, put_entry-pre, put_sector_self, put_sector_other,
}

-- The 2 ^ 23 sectors from the reserved ones on, which have places of their own.
abbrev pub Near : Geometry → ℕ → Type 0
Near g i = (g.reserved_sector ≤ i) × (i < g.reserved_sector + 2 ^ 23)

-- The operations on the disk, one at a time.
pub data Step (g : Geometry) : Vdisk → Vdisk → Type 0 where
  writes : {s : Vdisk} (buf : Sector) (i : ℕ) → Near g i → Step g s (write_sector s buf i)
  follows : {s : Vdisk} (c : ℕ) → Step g s (get_next_cluster g s c).1
  makes : {s : Vdisk} (buf : Sector) (c : ℕ) (cs : List ℕ) → Step g s (write_fat g s buf (c ∷ cs))
  clears :
      {s s' : Vdisk} (fuel : ℕ) (buf : Sector) (c : ℕ)
      → clear_fats fuel g s buf c ≡ ok s'
      → Step g s s'

pub data Steps (g : Geometry) : Vdisk → Vdisk → Type 0 where
  done : {s : Vdisk} → Steps g s s
  also : {s t u : Vdisk} → Steps g s t → Step g t u → Steps g s u

-- `FATBuf` is empty, or its 512 bytes are as on the disk.
abbrev pub IsCoherent : Vdisk → Type 0
IsCoherent s =
    (s.global_sector ≡ minus_one) ⊎ ((x : ℕ) → x < 512 → s.fat_buf x ≡ s.sect s.global_sector x)

-- The same, with a sector of an entry in `FATBuf`.
record Current (g : Geometry) (s : Vdisk) : Type 0 where
  coherent : IsCoherent s
  in_table : (s.global_sector ≡ minus_one) ⊎ Near g s.global_sector

fat_sector-Near : (g : Geometry) (c : ℕ) → IsUsual g → Near g (fat_sector g c)
unfolding fat_sector
fat_sector-Near g c u = (omega arith, rw (u.size) (omega arith))

no_alias :
    (g : Geometry) (i j : ℕ)
    → Near g i
    → Near g j
    → (i == j) ≡ false
    → (disk_position j == disk_position i) ≡ false
no_alias g i j (a, b) (c, d) n = ground (arith, a, b, c, d, n)

write_sector-Current :
    (g : Geometry) (s : Vdisk) (buf : Sector) (i : ℕ)
    → Near g i
    → Current g s
    → Current g (write_sector s buf i)
unfolding write_sector
write_sector-Current g s buf i n k = record {
  coherent = after k.coherent k.in_table (Bool-cases (i == s.global_sector));
  in_table = k.in_table;
}
  where
    after :
        IsCoherent s
        → (s.global_sector ≡ minus_one) ⊎ Near g s.global_sector
        → ((i == s.global_sector) ≡ true) ⊎ ((i == s.global_sector) ≡ false)
        → IsCoherent (write_sector s buf i)
    after (inl e) t b = inl e
    after (inr e) (inl m) b = inl m
    after (inr e) (inr m) (inl h) = inr (λ x l. rw h (
        rw (lt→ltb x 512 l) (
          ap (λ d. d x)
            (sym (
              ap (put_sector s.sect i buf) (sym ((==_iff i s.global_sector).0 h))
              ∙ put_sector_self s.sect i buf)))))
    after (inr e) (inr m) (inr h) = inr (λ x l. rw h (
        e x l
        ∙ ap (λ d. d x)
            (sym (
              put_sector_other s.sect i s.global_sector buf (no_alias g i s.global_sector n m h)))))

get_next_cluster-same :
    (g : Geometry) (s : Vdisk) (c : ℕ)
    → (fat_sector g c == s.global_sector) ≡ true
    → get_next_cluster g s c ≡ (get_dword s.fat_buf (fat_place g c), s)
unfolding get_next_cluster
get_next_cluster-same g s c h = rw h refl

get_next_cluster-new :
    (g : Geometry) (s : Vdisk) (c : ℕ)
    → (fat_sector g c == s.global_sector) ≡ false
    → get_next_cluster g s c ≡ (
      get_dword (copy_512 s.fat_buf (s.sect (fat_sector g c))) (fat_place g c),
      record s {
        fat_buf = copy_512 s.fat_buf (s.sect (fat_sector g c));
        global_sector = fat_sector g c;
      },
    )
unfolding get_next_cluster
get_next_cluster-new g s c h = rw h refl

pub get_next_cluster-IsCoherent :
    (g : Geometry) (s : Vdisk) (c : ℕ) → IsCoherent s → IsCoherent (get_next_cluster g s c).1
get_next_cluster-IsCoherent g s c k = elim (Bool-cases (fat_sector g c == s.global_sector)) [
  | inl h ↦ rw (get_next_cluster-same g s c h) k
  | inr h ↦ rw (get_next_cluster-new g s c h) (inr (λ x l. rw (lt→ltb x 512 l) refl))
]

get_next_cluster-Current :
    (g : Geometry) (s : Vdisk) (c : ℕ)
    → IsUsual g
    → Current g s
    → Current g (get_next_cluster g s c).1
get_next_cluster-Current g s c u k = record {
  coherent = get_next_cluster-IsCoherent g s c k.coherent;
  in_table = elim (Bool-cases (fat_sector g c == s.global_sector)) [
    | inl h ↦ rw (get_next_cluster-same g s c h) (k.in_table)
    | inr h ↦ rw (get_next_cluster-new g s c h) (inr (fat_sector-Near g c u))
  ];
}

-- What is in the buffer of `WriteFAT` and `ClearFATs`: nothing yet, or a sector of an entry.
abbrev Holds : Geometry → Buffered → Type 0
Holds g b = (b.pre ≡ 0) ⊎ Near g b.pre

switch-Current :
    (g : Geometry) (b : Buffered) (i : ℕ)
    → Holds g b
    → Current g b.disk
    → Current g (switch b i).disk
unfolding switch
switch-Current g b i p k = elim (Bool-cases (i == b.pre)) [
  | inl h ↦ rw h k
  | inr h ↦ rw h (flushed p (Bool-cases (b.pre == 0)))
]
  where
    flushed :
        Holds g b
        → ((b.pre == 0) ≡ true) ⊎ ((b.pre == 0) ≡ false)
        → Current g (if b.pre == 0 then b.disk else write_sector b.disk b.buf b.pre)
    flushed q (inl z) = rw z k
    flushed (inl e) (inr z) = absurd (true≢false (sym ((==_iff b.pre 0).1 e) ∙ z))
    flushed (inr n) (inr z) = rw z (write_sector-Current g b.disk b.buf b.pre n k)

put_entry-Current :
    (g : Geometry) (b : Buffered) (c v : ℕ)
    → Holds g b
    → Current g b.disk
    → Current g (put_entry g b c v).disk
unfolding put_entry
put_entry-Current g b c v p k = switch-Current g b (fat_sector g c) p k

put_entry-Holds :
    (g : Geometry) (b : Buffered) (c v : ℕ) → IsUsual g → Near g (put_entry g b c v).pre
put_entry-Holds g b c v u = subst⁻¹ (Near g) (put_entry-pre g b c v) (fat_sector-Near g c u)

-- The chain is written, but for the last sector.
put_chain-Current :
    (g : Geometry) (b : Buffered) (c : ℕ) (cs : List ℕ)
    → IsUsual g
    → Holds g b
    → Current g b.disk
    → Current g (put_chain g b (c ∷ cs)).disk × Near g (put_chain g b (c ∷ cs)).pre
unfolding put_chain
put_chain-Current g b c [] u p k =
    (put_entry-Current g b c fat_end p k, put_entry-Holds g b c fat_end u)
put_chain-Current g b c (x ∷ cs) u p k =
    put_chain-Current g (put_entry g b c x) x cs u (inr (put_entry-Holds g b c x u))
      (put_entry-Current g b c x p k)

-- What the loop of `ClearFATs` returns, if it ends.
abbrev EndsCurrent : Geometry → Outcome Vdisk → Type 0
EndsCurrent g (ok s) = Current g s
EndsCurrent g panic = Unit {0}
EndsCurrent g fault = Unit {0}
EndsCurrent g no_fuel = Unit {0}

clear_loop-EndsCurrent :
    (fuel : ℕ) (g : Geometry) (b : Buffered) (c : ℕ)
    → IsUsual g
    → Holds g b
    → Current g b.disk
    → EndsCurrent g (clear_loop fuel g b c)
unfolding clear_loop
clear_loop-EndsCurrent zero g b c u p k = tt
clear_loop-EndsCurrent (suc fuel) g b c u p k =
    elim (Bool-cases (get_dword (switch b (fat_sector g c)).buf (fat_place g c) == fat_end)) [
      | inl h ↦ rw h (
          write_sector-Current g (put_entry g b c 0).disk (put_entry g b c 0).buf
            (put_entry g b c 0).pre (put_entry-Holds g b c 0 u) (put_entry-Current g b c 0 p k))
      | inr h ↦ rw h (
          clear_loop-EndsCurrent fuel g (put_entry g b c 0)
            (get_dword (switch b (fat_sector g c)).buf (fat_place g c)) u
            (inr (put_entry-Holds g b c 0 u)) (put_entry-Current g b c 0 p k))
    ]

clear_fats-EndsCurrent :
    (fuel : ℕ) (g : Geometry) (s : Vdisk) (buf : Sector) (c : ℕ)
    → IsUsual g
    → Current g s
    → EndsCurrent g (clear_fats fuel g s buf c)
unfolding clear_fats
clear_fats-EndsCurrent fuel g s buf c u k = elim (Bool-cases (c == 0)) [
  | inl h ↦ rw h k
  | inr h ↦
      rw h
        (clear_loop-EndsCurrent fuel g (record { disk = s; buf = buf; pre = 0 }) c u (inl refl) k)
]

Step-Current : {g : Geometry} {s t : Vdisk} → IsUsual g → Step g s t → Current g s → Current g t
unfolding write_fat
Step-Current {g} {s} u (writes buf i n) k = write_sector-Current g s buf i n k
Step-Current {g} {s} u (follows c) k = get_next_cluster-Current g s c u k
Step-Current {g} {s} u (makes buf c cs) k =
    let (a, n) =
      put_chain-Current g (record { disk = s; buf = buf; pre = 0 }) c cs u (inl refl) k in
    write_sector-Current g (put_chain g (record { disk = s; buf = buf; pre = 0 }) (c ∷ cs)).disk
      (put_chain g (record { disk = s; buf = buf; pre = 0 }) (c ∷ cs)).buf
      (put_chain g (record { disk = s; buf = buf; pre = 0 }) (c ∷ cs)).pre n a
Step-Current {g} {s} u (clears fuel buf c e) k =
    subst (EndsCurrent g) e (clear_fats-EndsCurrent fuel g s buf c u k)

Steps-Current : {g : Geometry} {s t : Vdisk} → IsUsual g → Steps g s t → Current g s → Current g t
Steps-Current u done k = k
Steps-Current u (also ss st) k = Step-Current u st (Steps-Current u ss k)

-- A word that lies in the first 512 bytes.
word_same :
    (a b : Sector) (o : ℕ)
    → o + 3 < 512
    → ((x : ℕ) → x < 512 → a x ≡ b x)
    → get_dword a o ≡ get_dword b o
word_same a b o h f =
    dword-eq a o (b o) (b (o + 1)) (b (o + 2)) (b (o + 3)) (f o (omega (arith, h)))
      (f (o + 1) (omega (arith, h))) (f (o + 2) (omega (arith, h))) (f (o + 3) h)

place_inside : (g : Geometry) (c : ℕ) → IsUsual g → fat_place g c + 3 < 512
unfolding fat_place
place_inside g c u = rw (u.size) (omega arith)

-- On a coherent disk `GetNextCluster` gives the entry.
pub get_next_cluster_now :
    (g : Geometry) (t : Vdisk) (c : ℕ)
    → IsUsual g
    → IsCoherent t
    → fat_sector g c ≢ minus_one
    → ((get_next_cluster g t c).0 ≡ entry g t.sect c) × ((get_next_cluster g t c).1.sect ≡ t.sect)
unfolding entry
get_next_cluster_now g t c u k n = elim (Bool-cases (fat_sector g c == t.global_sector)) [
  | inr h ↦ rw (get_next_cluster-new g t c h) (
    word_same (copy_512 t.fat_buf (t.sect (fat_sector g c))) (t.sect (fat_sector g c))
        (fat_place g c) (place_inside g c u) (λ x l. rw (lt→ltb x 512 l) refl),
    refl,
  )
  | inl h ↦
      rw (get_next_cluster-same g t c h)
        (from_buf ((==_iff (fat_sector g c) t.global_sector).0 h) k, refl)
]
  where
    from_buf :
        fat_sector g c ≡ t.global_sector
        → IsCoherent t
        → get_dword t.fat_buf (fat_place g c) ≡ get_dword (t.sect (fat_sector g c)) (fat_place g c)
    from_buf q (inl m) = absurd (n (q ∙ m))
    from_buf q (inr k) =
        word_same t.fat_buf (t.sect t.global_sector) (fat_place g c) (place_inside g c u) k
        ∙ ap (λ i. get_dword (t.sect i) (fat_place g c)) (sym q)

-- On a disk with sectors of 512 bytes and a reserved sector in front: after any sequence of writes to the
-- 2 ^ 23 sectors from the reserved ones on, of steps along chains, of `WriteFAT` of one or more clusters
-- and of `ClearFATs`, from a disk that has just been mounted, `GetNextCluster` gives the entry that
-- stands on the disk, although it reads it from `FATBuf`, and does not change the disk; the sector of
-- the entry must not have the number -1, which marks the empty buffer.
pub get_next_cluster_lem :
    (g : Geometry) (s t : Vdisk) (c : ℕ)
    → IsUsual g
    → s.global_sector ≡ minus_one
    → Steps g s t
    → fat_sector g c ≢ minus_one
    → ((get_next_cluster g t c).0 ≡ entry g t.sect c) × ((get_next_cluster g t c).1.sect ≡ t.sect)
get_next_cluster_lem g s t c u e ss n =
    get_next_cluster_now g t c u
      (Steps-Current u ss (record { coherent = inl e; in_table = inl e })).coherent n
