-- ===== src/Paging/Write.antt =====
-- Writing an entry of a table, and entering a new table in the directory.
use exp_memfs.Base.{
  ◌==◌, if◌then◌else◌, ==_iff, Bool-cases, ℕ, ◌^◌, ◌<◌, ◌≡◌, refl, sym, ap, ◌∙◌, ◌≢◌, ◌⊎◌, inl, inr,
  true, false, ◌&&◌, none, arith,
}
use exp_memfs.Paging.{frame, slot, is_odd}
use exp_memfs.Paging.Space.{
  leaf, look, IsPage, Tables, upd, clear, upd-other, upd-same_page, clear-slot,
}

frame-IsPage : (x : ℕ) → frame x < 2 ^ 30 → IsPage (frame x)
frame-IsPage x h = omega arith

absurd_eq : (a b : ℕ) → (a == b) ≡ false → a ≢ b
absurd_eq a b h e = ground arith

pub Tables-cong :
    (w w' : ℕ → ℕ) (d : ℕ)
    → ((i : ℕ) → i < 1024 → w' (slot d i) ≡ w (slot d i))
    → Tables w d
    → Tables w' d
Tables-cong w w' d e t = record {
  dir = t.dir;
  small = λ i h p. rw (e i h) (t.small i h (on i h p));
  not_dir = λ i h p q. t.not_dir i h (on i h p) (ap frame (sym (e i h)) ∙ q);
  apart = λ i j h h' p p' q.
      t.apart i j h h' (on i h p) (on j h' p') (ap frame (sym (e i h)) ∙ q ∙ ap frame (e j h'));
}
  where
    on : (i : ℕ) → i < 1024 → is_odd (w' (slot d i)) ≡ true → is_odd (w (slot d i)) ≡ true
    on i h p = ap is_odd (sym (e i h)) ∙ p

module _ (w : ℕ → ℕ) (d i0 j0 v : ℕ) (t : Tables w d) (hi : i0 < 1024) (hj : j0 < 1024)
    (on : is_odd (w (slot d i0)) ≡ true) where
  abbrev tbl : ℕ
  tbl = frame (w (slot d i0))

  abbrev w1 : ℕ → ℕ
  w1 = upd w (slot tbl j0) v

  tbl-IsPage : IsPage tbl
  tbl-IsPage = frame-IsPage (w (slot d i0)) (t.small i0 hi on)

  -- The directory stays as it was.
  pub dir_kept : (i : ℕ) → i < 1024 → w1 (slot d i) ≡ w (slot d i)
  dir_kept i h = upd-other w v tbl d j0 i tbl-IsPage t.dir hj h (t.not_dir i0 hi on)

  entry_at :
      (i j : ℕ)
      → i < 1024
      → j < 1024
      → is_odd (w (slot d i)) ≡ true
      → w1 (slot (frame (w (slot d i))) j)
        ≡ (if (i == i0) && (j == j0) then v else w (slot (frame (w (slot d i))) j))
  entry_at i j h m p = elim (Bool-cases (i == i0)) [
    | inl e ↦ rw e (rw ((==_iff i i0).0 e) (upd-same_page w v tbl j0 j tbl-IsPage hj m))
    | inr e ↦ rw e (
        upd-other w v tbl (frame (w (slot d i))) j0 j tbl-IsPage
          (frame-IsPage (w (slot d i)) (t.small i h p)) hj m
          (λ q. absurd_eq i i0 e (sym (t.apart i0 i hi h on p q))))
  ]

  pub look-write :
      (i j : ℕ)
      → i < 1024
      → j < 1024
      → look w1 d i j ≡ (if (i == i0) && (j == j0) then leaf v else look w d i j)
  look-write i j h m = elim (Bool-cases (is_odd (w (slot d i)))) [
    | inl p ↦ ground (arith, dir_kept i h, entry_at i j h m p)
    | inr p ↦ ground (arith, dir_kept i h, ==_iff i i0)
  ]

  pub write-Tables : Tables w1 d
  write-Tables = Tables-cong w w1 d dir_kept t

module _ (w : ℕ → ℕ) (d i0 p v : ℕ) (t : Tables w d) (hi : i0 < 1024)
    (off : is_odd (w (slot d i0)) ≡ false) (page : IsPage p) (new : p ≢ d)
    (unused : (i : ℕ) → i < 1024 → is_odd (w (slot d i)) ≡ true → frame (w (slot d i)) ≢ p)
    (names : frame v ≡ p) (on : is_odd v ≡ true) where
  abbrev w2 : ℕ → ℕ
  w2 = upd (clear w p) (slot d i0) v

  dir_entry : (i : ℕ) → i < 1024 → w2 (slot d i) ≡ (if i == i0 then v else w (slot d i))
  dir_entry i h =
      upd-same_page (clear w p) v d i0 i t.dir hi h
      ∙ ap (λ x. if i == i0 then v else x) (clear-slot w p d i page t.dir h ∙ ground (arith, new))

  -- A table other than the new one keeps its entries.
  kept : (q j : ℕ) → IsPage q → q ≢ d → q ≢ p → j < 1024 → w2 (slot q j) ≡ w (slot q j)
  kept q j hq nd np h =
      upd-other (clear w p) v d q i0 j t.dir hq hi h (λ e. nd (sym e))
      ∙ clear-slot w p q j page hq h
      ∙ ground (arith, np)

  empty : (j : ℕ) → j < 1024 → w2 (slot p j) ≡ 0
  empty j h =
      upd-other (clear w p) v d p i0 j t.dir page hi h (λ e. new (sym e))
      ∙ clear-slot w p p j page page h
      ∙ ground arith

  -- The entries of the directory, old and new.
  pub view :
      (i : ℕ)
      → i < 1024
      → ((i ≡ i0) × (w2 (slot d i) ≡ v)) ⊎ ((i ≢ i0) × (w2 (slot d i) ≡ w (slot d i)))
  view i h = elim (Bool-cases (i == i0)) [
    | inl e ↦ inl ((==_iff i i0).0 e, dir_entry i h ∙ rw e refl)
    | inr e ↦ inr (absurd_eq i i0 e, dir_entry i h ∙ rw e refl)
  ]

  pub at_new : w2 (slot d i0) ≡ v
  at_new = dir_entry i0 hi ∙ ground arith

  look_at_new : (j : ℕ) → j < 1024 → look w2 d i0 j ≡ look w d i0 j
  look_at_new j m =
      ap (λ x. if is_odd x then leaf (w2 (slot (frame x) j)) else none) at_new
      ∙ rw (on, names, empty j m) (rw off refl)

  look_at_old :
      (i j : ℕ) → i < 1024 → j < 1024 → w2 (slot d i) ≡ w (slot d i) → look w2 d i j ≡ look w d i j
  look_at_old i j h m e = elim (Bool-cases (is_odd (w (slot d i)))) [
    | inl q ↦ ground (
      arith,
      e,
      kept (frame (w (slot d i))) j (frame-IsPage (w (slot d i)) (t.small i h q)) (t.not_dir i h q)
          (unused i h q) m,
    )
    | inr q ↦ ground (arith, e)
  ]

  pub look-new : (i j : ℕ) → i < 1024 → j < 1024 → look w2 d i j ≡ look w d i j
  look-new i j h m = elim (view i h) [
    | inl (e, _) ↦ rw e (look_at_new j m)
    | inr (_, e) ↦ look_at_old i j h m e
  ]

  pub new-Tables : Tables w2 d
  new-Tables = record {
    dir = t.dir;
    small = λ i h q. elim (view i h) [
      | inl (_, e) ↦ omega (arith, ap frame e, names)
      | inr (_, e) ↦ omega (arith, ap frame e, t.small i h (ap is_odd (sym e) ∙ q))
    ];
    not_dir = λ i h q c. elim (view i h) [
      | inl (_, e) ↦ new (sym names ∙ sym (ap frame e) ∙ c)
      | inr (_, e) ↦ t.not_dir i h (ap is_odd (sym e) ∙ q) (sym (ap frame e) ∙ c)
    ];
    apart = λ i j h m q r c. apart_in i j h m q r c (view i h) (view j m);
  }
    where
      apart_in :
          (i j : ℕ)
          → i < 1024
          → j < 1024
          → is_odd (w2 (slot d i)) ≡ true
          → is_odd (w2 (slot d j)) ≡ true
          → frame (w2 (slot d i)) ≡ frame (w2 (slot d j))
          → ((i ≡ i0) × (w2 (slot d i) ≡ v)) ⊎ ((i ≢ i0) × (w2 (slot d i) ≡ w (slot d i)))
          → ((j ≡ i0) × (w2 (slot d j) ≡ v)) ⊎ ((j ≢ i0) × (w2 (slot d j) ≡ w (slot d j)))
          → i ≡ j
      apart_in i j h m q r c (inl (e, _)) (inl (f, _)) = e ∙ sym f
      apart_in i j h m q r c (inl (_, e)) (inr (_, f)) =
          absurd
            (unused j m (ap is_odd (sym f) ∙ r) (sym (ap frame f) ∙ sym c ∙ ap frame e ∙ names))
      apart_in i j h m q r c (inr (_, e)) (inl (_, f)) =
          absurd (unused i h (ap is_odd (sym e) ∙ q) (sym (ap frame e) ∙ c ∙ ap frame f ∙ names))
      apart_in i j h m q r c (inr (_, e)) (inr (_, f)) =
          t.apart i j h m (ap is_odd (sym e) ∙ q) (ap is_odd (sym f) ∙ r)
            (sym (ap frame e) ∙ c ∙ ap frame f)
