-- ===== src/Fat32/NameTrip.antt =====
-- Names in records: what `GetNameFromRecord` reads of what `CreateRecord` of kernel/base.c wrote.
use exp_memfs.Base.{
  leb, ◌==◌, if◌then◌else◌, length, get_or, take, drop, replicate, ok, ℕ, zero, suc, ◌+◌, ◌-◌, ◌≤◌,
  ◌<◌, ◌≡◌, refl, sym, ap, ◌∙◌, Bool, true, false, not, ◌&&◌, List, [], ◌∷◌, ◌++◌, map, arith,
}
use mathlib.Core.Path.{ap₂}
use mathlib.Core.List.{append-nil}
use exp_memfs.Str.Compare.{text}
use exp_memfs.Fat32.{Sector}
use exp_memfs.Fat32.Name.{
  clean, upper, lower, base_of, rest_of, pad, ext_of, format_file_name_and_ext,
  format_dir_name_and_ext, put_byte, put_text, is_dir_type, create_record, bytes_at, lower_base,
  all_blank, cut_blanks, point_ext, put_name, get_name_from_record,
}

-- A byte of a name that is kept: no NUL, blank, point or capital letter.
abbrev pub is_plain : ℕ → Bool
is_plain c = not (c == 0) && not (c == b' ') && not (c == b'.') && not (leb b'A' c && leb c b'Z')

abbrev pub Plain : List ℕ → Type 0
Plain [] = Unit {0}
Plain (c ∷ s) = (is_plain c ≡ true) × Plain s

lower-upper : (c : ℕ) → is_plain c ≡ true → lower (upper c) ≡ c
lower-upper c h = ground (arith, h)

upper_no_blank : (c : ℕ) → is_plain c ≡ true → (upper c == b' ') ≡ false
upper_no_blank c h = ground (arith, h)

upper_no_nul : (c : ℕ) → is_plain c ≡ true → (upper c == 0) ≡ false
upper_no_nul c h = ground (arith, h)

no_point : (c : ℕ) → is_plain c ≡ true → (c == b'.') ≡ false
no_point c h = ground (arith, h)

no_blank : (c : ℕ) → is_plain c ≡ true → (c == b' ') ≡ false
no_blank c h = ground (arith, h)

base_of_nothing : (k : ℕ) → base_of k [] ≡ pad k []
base_of_nothing zero = refl
base_of_nothing (suc k) = ap (λ s. b' ' ∷ s) (base_of_nothing k)

base_of-append :
    (k : ℕ) (base ext : List ℕ)
    → Plain base
    → length base ≤ k
    → base_of k (base ++ b'.' ∷ ext) ≡ pad k (map upper base)
base_of-append zero [] ext p h = refl
base_of-append zero (c ∷ base) ext p h = absurd (omega (arith, h))
base_of-append (suc k) [] ext p h = ap (λ s. b' ' ∷ s) (base_of_nothing k)
base_of-append (suc k) (c ∷ base) ext (q, p) h =
    rw (no_point c q) (ap (λ s. upper c ∷ s) (base_of-append k base ext p (omega (arith, h))))

rest_of-append :
    (k : ℕ) (base ext : List ℕ)
    → Plain base
    → length base ≤ k
    → rest_of k (base ++ b'.' ∷ ext) ≡ b'.' ∷ ext
rest_of-append zero [] ext p h = refl
rest_of-append zero (c ∷ base) ext p h = absurd (omega (arith, h))
rest_of-append (suc k) [] ext p h = refl
rest_of-append (suc k) (c ∷ base) ext (q, p) h =
    rw (no_point c q) (rest_of-append k base ext p (omega (arith, h)))

lower_base-pad : (k : ℕ) (base : List ℕ) → Plain base → lower_base (pad k (map upper base)) ≡ base
lower_base-pad zero [] p = refl
lower_base-pad zero (c ∷ base) (q, p) =
    rw (upper_no_blank c q) (ap₂ (λ x s. x ∷ s) (lower-upper c q) (lower_base-pad zero base p))
lower_base-pad (suc k) [] p = refl
lower_base-pad (suc k) (c ∷ base) (q, p) =
    rw (upper_no_blank c q) (ap₂ (λ x s. x ∷ s) (lower-upper c q) (lower_base-pad k base p))

map-lower-upper : (s : List ℕ) → Plain s → map lower (map upper s) ≡ s
map-lower-upper [] p = refl
map-lower-upper (c ∷ s) (q, p) = ap₂ (λ x r. x ∷ r) (lower-upper c q) (map-lower-upper s p)

map-pad : (k : ℕ) (s : List ℕ) → map lower (pad k s) ≡ pad k (map lower s)
map-pad zero s = refl
map-pad (suc k) [] = ap (λ r. b' ' ∷ r) (map-pad k [])
map-pad (suc k) (c ∷ s) = ap (λ r. lower c ∷ r) (map-pad k s)

all_blank-pad : (k : ℕ) → all_blank (pad k []) ≡ true
all_blank-pad zero = refl
all_blank-pad (suc k) = all_blank-pad k

cut_blanks-pad :
    (k : ℕ) (s : List ℕ)
    → Plain s
    → length s ≤ k
    → cut_blanks (pad k s) ≡ s ++ replicate (k - length s) 0
cut_blanks-pad zero [] p h = refl
cut_blanks-pad zero (c ∷ s) p h = absurd (omega (arith, h))
cut_blanks-pad (suc k) [] p h =
    rw (all_blank-pad k)
      (ap (λ r. 0 ∷ r) (cut_blanks-pad k [] tt (omega arith)) ∙ ap (λ n. replicate n 0) more)
  where
    more : suc (k - 0) ≡ suc k - 0
    more = omega arith
cut_blanks-pad (suc k) (c ∷ s) (q, p) h =
    rw (no_blank c q) (
      ap (λ r. c ∷ r) (cut_blanks-pad k s p (omega (arith, h)) ∙ ap (λ n. s ++ replicate n 0) same))
  where
    same : k - length s ≡ suc k - suc (length s)
    same = omega arith

text-append : (s z d : List ℕ) → Plain s → text ((s ++ z) ++ d) ≡ s ++ text (z ++ d)
text-append [] z d p = refl
text-append (c ∷ s) z d (q, p) = rw (no_nul q) (ap (λ r. c ∷ r) (text-append s z d p))
  where
    no_nul : is_plain c ≡ true → (c == 0) ≡ false
    no_nul h = ground (arith, h)

text_nothing : (m n k : ℕ) → text (replicate m 0 ++ drop n (replicate k 0)) ≡ []
text_nothing zero zero zero = refl
text_nothing zero zero (suc k) = refl
text_nothing zero (suc n) zero = refl
text_nothing zero (suc n) (suc k) = text_nothing zero n k
text_nothing (suc m) n k = refl

-- The bytes in front of `o` are left.
put_text-front : (r : Sector) (o : ℕ) (s : List ℕ) (x : ℕ) → x < o → put_text r o s x ≡ r x
put_text-front r o [] x h = ground (arith, h)
put_text-front r o (c ∷ s) x h =
    put_text-front (put_byte r o c) (o + 1) s x (omega (arith, h)) ∙ ground (arith, h)

bytes_at-put_text : (r : Sector) (o : ℕ) (s : List ℕ) → bytes_at (put_text r o s) o (length s) ≡ s
bytes_at-put_text r o [] = refl
bytes_at-put_text r o (c ∷ s) =
    ap₂ (λ x t. x ∷ t) (put_text-front (put_byte r o c) (o + 1) s o (omega arith) ∙ ground arith)
      (bytes_at-put_text (put_byte r o c) (o + 1) s)

pub bytes_at-same :
    (r r' : Sector) (o n : ℕ)
    → ((x : ℕ) → x < o + n → r x ≡ r' x)
    → bytes_at r o n ≡ bytes_at r' o n
bytes_at-same r r' o zero h = refl
bytes_at-same r r' o (suc n) h =
    ap₂ (λ x t. x ∷ t) (h o (omega arith))
      (bytes_at-same r r' (o + 1) n (λ x k. h x (omega (arith, k))))

-- The two parts of a name.
abbrev parts : List ℕ → ℕ → List ℕ × List ℕ
parts filename type =
    if is_dir_type type then format_dir_name_and_ext filename else format_file_name_and_ext filename

create_record-front :
    (filename : List ℕ) (type start size : ℕ) (r : Sector) (x : ℕ)
    → x < 11
    → create_record filename type start size r x
      ≡ put_text
          (put_text
            (put_byte r 12 (if is_dir_type type then 0x08 else 0x18))
            0
            (parts filename type).0)
          8
          (parts filename type).1
          x
unfolding create_record
create_record-front filename type start size r x h = ground (arith, h)

fields :
    (filename name ext : List ℕ) (type start size : ℕ) (r : Sector)
    → parts filename type ≡ (name, ext)
    → length name ≡ 8
    → length ext ≡ 3
    → (bytes_at (create_record filename type start size r) 0 8 ≡ name)
      × (bytes_at (create_record filename type start size r) 8 3 ≡ ext)
fields filename name ext type start size r e l m = (
  bytes_at-same made (put_text (first name) 8 ext) 0 8 (λ x h. front x (omega (arith, h)))
      ∙ bytes_at-same (put_text (first name) 8 ext) (first name) 0 8
          (λ x h. put_text-front (first name) 8 ext x (omega (arith, h)))
      ∙ ap (bytes_at (first name) 0) (sym l)
      ∙ bytes_at-put_text (put_byte r 12 (if is_dir_type type then 0x08 else 0x18)) 0 name,
  bytes_at-same made (put_text (first name) 8 ext) 8 3 (λ x h. front x (omega (arith, h)))
      ∙ ap (bytes_at (put_text (first name) 8 ext) 8) (sym m)
      ∙ bytes_at-put_text (first name) 8 ext,
)
  where
    made : Sector
    made = create_record filename type start size r

    first : List ℕ → Sector
    first n = put_text (put_byte r 12 (if is_dir_type type then 0x08 else 0x18)) 0 n

    front : (x : ℕ) → x < 11 → made x ≡ put_text (first name) 8 ext x
    front x h =
        create_record-front filename type start size r x h
        ∙ ap (λ (n, t). put_text (first n) 8 t x) e

read_back :
    (filename name ext : List ℕ) (type start size : ℕ) (r : Sector)
    → parts filename type ≡ (name, ext)
    → length name ≡ 8
    → length ext ≡ 3
    → get_name_from_record (create_record filename type start size r) clean
      ≡ put_name (lower_base name) (map lower ext) clean
unfolding get_name_from_record
read_back filename name ext type start size r e l m =
    let (a, b) = fields filename name ext type start size r e l m in
    ap₂ (λ n t. put_name (lower_base n) (map lower t) clean) a b

length-pad : (k : ℕ) (s : List ℕ) → length s ≤ k → length (pad k s) ≡ k
length-pad zero [] h = refl
length-pad zero (c ∷ s) h = absurd (omega (arith, h))
length-pad (suc k) [] h = ap suc (length-pad k [] (omega arith))
length-pad (suc k) (c ∷ s) h = ap suc (length-pad k s (omega (arith, h)))

length-map-upper : (s : List ℕ) → length (map upper s) ≡ length s
length-map-upper [] = refl
length-map-upper (c ∷ s) = ap suc (length-map-upper s)

take_all : (n : ℕ) (s : List ℕ) → length s ≤ n → take n s ≡ s
take_all zero [] h = refl
take_all zero (c ∷ s) h = absurd (omega (arith, h))
take_all (suc n) [] h = refl
take_all (suc n) (c ∷ s) h = ap (λ r. c ∷ r) (take_all n s (omega (arith, h)))

-- The names that a record can hold: for a file a point with up to 8 bytes in front of it and up to 3
-- behind it, and for a directory up to 8 bytes.
pub data Fits : ℕ → List ℕ → Type 0 where
  file :
      {type : ℕ} (c e : ℕ) (base ext : List ℕ)
      → is_dir_type type ≡ false
      → Plain (c ∷ base)
      → length base < 8
      → Plain (e ∷ ext)
      → length ext < 3
      → Fits type ((c ∷ base) ++ b'.' ∷ (e ∷ ext))
  dir :
      {type : ℕ} (c : ℕ) (base : List ℕ)
      → is_dir_type type ≡ true
      → Plain (c ∷ base)
      → length base < 8
      → Fits type (c ∷ base)

-- The record has the name.
abbrev pub HasName : Sector → List ℕ → Type 0
HasName r name = (full : List ℕ) × (get_name_from_record r clean ≡ ok full) × (text full ≡ name)

parts_file :
    (type : ℕ) (base ext : List ℕ)
    → is_dir_type type ≡ false
    → Plain base
    → length base ≤ 8
    → parts (base ++ b'.' ∷ ext) type ≡ (pad 8 (map upper base), pad 3 (map upper ext))
unfolding format_file_name_and_ext
parts_file type base ext t p h =
    rw t
      (ap₂ (λ n r. (n, ext_of r)) (base_of-append 8 base ext p h) (rest_of-append 8 base ext p h))

parts_dir :
    (type : ℕ) (base : List ℕ)
    → is_dir_type type ≡ true
    → length base ≤ 8
    → parts base type ≡ (pad 8 (map upper base), pad 3 [])
unfolding format_dir_name_and_ext
parts_dir type base t h = rw t (ap (λ b. (pad 8 (map upper b), pad 3 [])) (take_all 8 base h))

-- A record that `CreateRecord` makes for a name that fits has that name: `GetNameFromRecord` gives it
-- back into a cleared buffer, in small letters, whatever stood in the record.
pub get_name_from_record-create_record :
    (filename : List ℕ) (type start size : ℕ) (r : Sector)
    → Fits type filename
    → HasName (create_record filename type start size r) filename
get_name_from_record-create_record filename type start size r (file c e base ext t p h q k) = (
  (c ∷ base) ++ point_ext (pad 3 (e ∷ ext)) ++ drop (length base + 5) clean,
  read_back filename (pad 8 (map upper (c ∷ base))) (pad 3 (map upper (e ∷ ext))) type start size r
        (parts_file type (c ∷ base) (e ∷ ext) t p (omega (arith, h)))
        (length-pad 8 (map upper (c ∷ base)) (omega (arith, h, length-map-upper (c ∷ base))))
        (length-pad 3 (map upper (e ∷ ext)) (omega (arith, k, length-map-upper (e ∷ ext))))
      ∙ ap₂ (λ n x. put_name n x clean) (lower_base-pad 8 (c ∷ base) p)
          (map-pad 3 (map upper (e ∷ ext)) ∙ ap (pad 3) (map-lower-upper (e ∷ ext) q)),
  text-append (c ∷ base) (point_ext (pad 3 (e ∷ ext))) (drop (length base + 5) clean) p
      ∙ ap (λ s. (c ∷ base) ++ s) behind,
)
  where
    behind : text (point_ext (pad 3 (e ∷ ext)) ++ drop (length base + 5) clean) ≡ b'.' ∷ (e ∷ ext)
    behind =
        ap
          (λ b. text (
            ((if b then 0 else b'.') ∷ cut_blanks (pad 3 (e ∷ ext)))
            ++ drop (length base + 5) clean))
          (ap (λ b. b && all_blank (pad 2 ext)) (no_blank e q.0))
        ∙ ap (λ s. b'.' ∷ s)
            (ap (λ s. text (s ++ drop (length base + 5) clean))
                (cut_blanks-pad 3 (e ∷ ext) q (omega (arith, k)))
              ∙ text-append (e ∷ ext) (replicate (3 - length (e ∷ ext)) 0)
                  (drop (length base + 5) clean) q
              ∙ ap (λ s. (e ∷ ext) ++ s) (text_nothing (3 - length (e ∷ ext)) (length base + 5) 256)
              ∙ append-nil (e ∷ ext))
get_name_from_record-create_record filename type start size r (dir c base t p h) = (
  (c ∷ base) ++ point_ext (pad 3 []) ++ drop (length base + 5) clean,
  read_back filename (pad 8 (map upper (c ∷ base))) (pad 3 []) type start size r
        (parts_dir type (c ∷ base) t (omega (arith, h)))
        (length-pad 8 (map upper (c ∷ base)) (omega (arith, h, length-map-upper (c ∷ base)))) refl
      ∙ ap (λ n. put_name n (pad 3 []) clean) (lower_base-pad 8 (c ∷ base) p),
  text-append (c ∷ base) (point_ext (pad 3 [])) (drop (length base + 5) clean) p
      ∙ append-nil (c ∷ base),
)

-- A name that fits does not begin with a NUL, and neither does its record.
pub create_record-used :
    (filename : List ℕ) (type start size : ℕ) (r : Sector)
    → Fits type filename
    → (create_record filename type start size r 0 == 0) ≡ false
create_record-used filename type start size r (file c e base ext t (v, p) h q k) =
    ap (λ s. get_or s 0 0 == 0)
      (fields filename (pad 8 (map upper (c ∷ base))) (pad 3 (map upper (e ∷ ext))) type start size
        r (parts_file type (c ∷ base) (e ∷ ext) t (v, p) (omega (arith, h)))
        (length-pad 8 (map upper (c ∷ base)) (omega (arith, h, length-map-upper (c ∷ base))))
        (length-pad 3 (map upper (e ∷ ext)) (omega (arith, k, length-map-upper (e ∷ ext))))).0
    ∙ upper_no_nul c v
create_record-used filename type start size r (dir c base t (v, p) h) =
    ap (λ s. get_or s 0 0 == 0)
      (fields filename (pad 8 (map upper (c ∷ base))) (pad 3 []) type start size r
        (parts_dir type (c ∷ base) t (omega (arith, h)))
        (length-pad 8 (map upper (c ∷ base)) (omega (arith, h, length-map-upper (c ∷ base))))
        refl).0
    ∙ upper_no_nul c v
