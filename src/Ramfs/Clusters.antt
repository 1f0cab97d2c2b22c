-- ===== src/Ramfs/Clusters.antt =====
-- The cluster allocator of kernel/ramfs.c: which entry of the table it takes, what it changes, and
-- what a chain of clusters is after it has been freed.
use exp_memfs.Base.{
  ◌==◌, if◌then◌else◌, ==_iff, Bool-cases, length, get_or, set, length-set, get_or-set_self,
  get_or-set_ne, minus_one, ℤ, pos, ℕ, zero, suc, ◌<◌, ◌≡◌, refl, sym, ap, ◌∙◌, ◌≢◌, ◌⊎◌, inl, inr,
  Option, none, some, List, [], ◌∷◌, arith,
}
use exp_memfs.Str.Block.{within, memset_lem}
use exp_memfs.Memman.{memman_alloc_4k}
use exp_memfs.Memman.{Memman}
use exp_memfs.Ramfs.{
  is_minus_1, set_page, install, minus_1, Fat, Ram, no_inode, no_fat, next, page, set_next, last,
  cluster_size, k_phy2lin, first_free, rf_alloc_clu, enomem, rf_find_first_free_alloc,
}

-- `i` is the first entry that is free.
abbrev pub FirstFree : List Fat → ℕ → Type 0
FirstFree fat i = (i < length fat) × (next fat i ≡ 0) × ((j : ℕ) → j < i → next fat j ≢ 0)

abbrev FoundFree : List Fat → Option ℕ → Type 0
FoundFree fat none = (j : ℕ) → j < length fat → next fat j ≢ 0
FoundFree fat (some i) = FirstFree fat i

first_free-FoundFree : (fat : List Fat) → FoundFree fat (first_free fat)
unfolding first_free
first_free-FoundFree [] = λ j h. elim h [ ]
first_free-FoundFree (e ∷ es) = elim (Bool-cases (e.next_cluster == 0)) [
  | inl z ↦ rw z (omega arith, ground arith, λ j h. elim h [ ])
  | inr nz ↦ rw nz (below e es (ground arith) (first_free es) (first_free-FoundFree es))
]
  where
    later :
        (e : Fat) (es : List Fat)
        → e.next_cluster ≢ 0
        → (i : ℕ) → ((j : ℕ) → j < i → next es j ≢ 0)
        → (j : ℕ) → j < suc i
        → next (e ∷ es) j ≢ 0
    later e es nz i h zero l = nz
    later e es nz i h (suc j) l = h j (omega arith)

    below :
        (e : Fat) (es : List Fat)
        → e.next_cluster ≢ 0
        → (o : Option ℕ) → FoundFree es o
        → FoundFree (e ∷ es) (elim o [ none ↦ none | some i ↦ some (suc i) ])
    below e es nz none h = later e es nz (length es) h
    below e es nz (some i) h = (omega (arith, h.0), h.1, later e es nz i h.2)

get_or-set_other :
    (fat : List Fat) (i j : ℕ) (v : Fat)
    → j ≢ i
    → get_or (set fat i v) j no_fat ≡ get_or fat j no_fat
get_or-set_other fat i j v h = get_or-set_ne fat v no_fat (λ e. h (sym e))

-- What an allocation of entry `i` at the page `a` leaves.
pub record Installed (i a : ℕ) (s s' : Ram) : Type 0 where
  pub taken : next s'.fat i ≡ last
  pub placed : page s'.fat i ≡ a
  pub others : (j : ℕ) → j ≢ i → get_or s'.fat j no_fat ≡ get_or s.fat j no_fat
  pub cleared : (x : ℕ) → s'.mem x ≡ (if within a cluster_size x then 0 else s.mem x)
  pub no_records : (k : ℕ) → s'.recs a k ≡ no_inode

module _ (i : ℕ) (s : Ram) (inside : i < length s.fat) where
  -- The table with the entry marked.
  abbrev marked : List Fat
  marked = set_next s.fat i last

  marked_entry : get_or marked i no_fat ≡ record { next_cluster = last; addr = page s.fat i }
  marked_entry =
      get_or-set_self s.fat i (record { next_cluster = last; addr = page s.fat i }) no_fat inside

  placed_entry :
      (a : ℕ)
      → get_or (set_page marked i a) i no_fat ≡ record { next_cluster = next marked i; addr = a }
  placed_entry a =
      get_or-set_self marked i (record { next_cluster = next marked i; addr = a }) no_fat
        (rw (length-set s.fat i (record { next_cluster = last; addr = page s.fat i })) inside)

  install-Installed :
      (phy : ℕ) (s1 : Ram)
      → s1.fat ≡ marked
      → s1.mem ≡ s.mem
      → Installed i (k_phy2lin phy) s (install i phy s1)
  install-Installed phy s1 f m = record {
    taken = rw f (
        ap (λ e. e.next_cluster) (placed_entry (k_phy2lin phy))
        ∙ ap (λ e. e.next_cluster) marked_entry);
    placed = rw f (ap (λ e. e.addr) (placed_entry (k_phy2lin phy)));
    others = λ j ne. rw f (get_or-set_other marked i j _ ne ∙ get_or-set_other s.fat i j _ ne);
    cleared = λ x. rw m (memset_lem s.mem (k_phy2lin phy) 0 cluster_size x (omega arith));
    no_records = λ k. rw ((==_iff (k_phy2lin phy) (k_phy2lin phy)).1 refl);
  }

  -- The outcome of `rf_alloc_clu`, by what the page allocator returned.
  abbrev pub Allocates : ℕ × Memman → ℤ × Ram → Type 0
  Allocates (phy, man') (c, s') =
      (phy ≢ minus_one) × (c ≡ pos 0) × (s'.man ≡ man') × Installed i (k_phy2lin phy) s s'
      ⊎ (phy ≡ minus_one) × (c ≡ minus_1) × (s' ≡ record s { fat = marked; man = man' })

  rf_alloc_clu-Allocates : Allocates (memman_alloc_4k s.man) (rf_alloc_clu i s)
  unfolding rf_alloc_clu
  rf_alloc_clu-Allocates = elim (Bool-cases ((memman_alloc_4k s.man).0 == minus_one)) [
    | inl none_left ↦ rw none_left (inr (ground arith, refl, refl))
    | inr got ↦ rw got (
        inl (
          ground arith,
          refl,
          refl,
          install-Installed (memman_alloc_4k s.man).0
              (record s { fat = marked; man = (memman_alloc_4k s.man).1 }) refl refl,
        ))
  ]

-- The outcome of the search for a free entry.
abbrev pub Searches : Ram → ℤ × Ram → Type 0
Searches s (c, s') =
    (((j : ℕ) → j < length s.fat → next s.fat j ≢ 0) × (c ≡ enomem) × (s' ≡ s))
    ⊎ ((i : ℕ) × FirstFree s.fat i
        × (memman_alloc_4k s.man).0 ≢ minus_one
        × (c ≡ pos i)
        × (s'.man ≡ (memman_alloc_4k s.man).1)
        × Installed i (k_phy2lin (memman_alloc_4k s.man).0) s s')
    ⊎ ((i : ℕ) × FirstFree s.fat i
        × ((memman_alloc_4k s.man).0 ≡ minus_one)
        × (c ≡ enomem)
        × (s' ≡ record s { fat = set_next s.fat i last; man = (memman_alloc_4k s.man).1 }))

abbrev resume : ℕ → ℤ × Ram → ℤ × Ram
resume i (c, s') = if is_minus_1 c then (enomem, s') else (pos i, s')

resume-Searches :
    (s : Ram) (i : ℕ) (f : FirstFree s.fat i) (r : ℤ × Ram)
    → Allocates i s f.0 (memman_alloc_4k s.man) r
    → Searches s (resume i r)
resume-Searches s i f (c, s') (inl a) = rw a.1 (inr (inl (i, f, a.0, refl, a.2, a.3)))
resume-Searches s i f (c, s') (inr a) = rw a.1 (inr (inr (i, f, a.0, refl, a.2)))

abbrev find_in : Ram → Option ℕ → ℤ × Ram
find_in s none = (enomem, s)
find_in s (some i) = resume i (rf_alloc_clu i s)

find-Searches : (s : Ram) (o : Option ℕ) → FoundFree s.fat o → Searches s (find_in s o)
find-Searches s none f = inl (f, refl, refl)
find-Searches s (some i) f =
    resume-Searches s i f (rf_alloc_clu i s) (rf_alloc_clu-Allocates i s f.0)

-- The search either finds no free entry and returns -ENOMEM over an unchanged state; or it takes the
-- first free entry, which becomes the last of a chain with a zero-filled page that the page
-- allocator has just handed out, while all other entries and bytes stay as they were; or no page is
-- left, and it returns -ENOMEM with that entry marked as in use all the same.
pub rf_find_first_free_alloc_lem : (s : Ram) → Searches s (rf_find_first_free_alloc s)
unfolding rf_find_first_free_alloc
rf_find_first_free_alloc_lem s = find-Searches s (first_free s.fat) (first_free-FoundFree s.fat)
