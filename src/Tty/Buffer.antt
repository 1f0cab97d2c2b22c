-- ===== src/Tty/Buffer.antt =====
-- The buffer of a terminal of kernel/tty.c as two queues of keys, one to be shown and one to be read.
use exp_memfs.Base.{
  ltb, ◌==◌, lt→ltb, length, get_or, set, take, drop, length-set, sub32, ok, ℕ, zero, suc, ◌%◌, ◌≤◌,
  ◌<◌, ◌≡◌, refl, sym, ap, ◌∙◌, true, false, none, some, List, [], ◌∷◌, ◌++◌, map, arith,
}
use mathlib.Core.Path.{ap₂, subst⁻¹}
use exp_memfs.Window.{next, steps, window, steps-suc, window-set}
use exp_memfs.Tty.{Tty, tty_in_bytes, put_key, taken, tty_dev_write, read_keys}

-- The keys that are not shown yet, and those that are not read yet.
abbrev pub to_show : Tty → List ℕ
to_show t = window t.ibuf tty_in_bytes t.ibuf_tail t.ibuf_cnt

abbrev pub to_read : Tty → List ℕ
to_read t = window t.ibuf tty_in_bytes t.ibuf_read t.ibuf_read_cnt

pub record IsTty (t : Tty) : Type 0 where
  pub long : length t.ibuf ≡ tty_in_bytes
  pub few : t.ibuf_cnt ≤ tty_in_bytes
  pub unread : t.ibuf_read_cnt ≤ tty_in_bytes
  pub tail : t.ibuf_tail < tty_in_bytes
  pub read : t.ibuf_read < tty_in_bytes
  pub head : t.ibuf_head ≡ steps tty_in_bytes t.ibuf_tail t.ibuf_cnt
  pub behind : t.ibuf_head ≡ steps tty_in_bytes t.ibuf_read t.ibuf_read_cnt

abbrev pub char_of : ℕ → ℕ
char_of x = x % 256

-- A key that is put in goes behind both queues.
abbrev pub added : Tty → ℕ → Tty
added t x = record t {
  ibuf = set t.ibuf t.ibuf_head x;
  ibuf_head = next tty_in_bytes t.ibuf_head;
  ibuf_cnt = suc t.ibuf_cnt;
  ibuf_read_cnt = suc t.ibuf_read_cnt;
}

pub put_key-added :
    (t : Tty) (x : ℕ)
    → t.ibuf_cnt < tty_in_bytes
    → t.ibuf_read_cnt < tty_in_bytes
    → put_key t x ≡ added t x
unfolding put_key
put_key-added t x h r = rw (room) (
    ap₂
      (λ a b. record t {
        ibuf = set t.ibuf t.ibuf_head x;
        ibuf_head = next tty_in_bytes t.ibuf_head;
        ibuf_cnt = a;
        ibuf_read_cnt = b;
      })
      (omega arith) (omega (arith, r)))
  where
    room : ltb t.ibuf_cnt tty_in_bytes ≡ true
    room = lt→ltb t.ibuf_cnt tty_in_bytes h

pub added-IsTty :
    (t : Tty) (x : ℕ)
    → IsTty t
    → t.ibuf_cnt < tty_in_bytes
    → t.ibuf_read_cnt < tty_in_bytes
    → IsTty (added t x)
added-IsTty t x i h r = record {
  long = length-set t.ibuf t.ibuf_head x ∙ i.long;
  few = omega (arith, h);
  unread = omega (arith, r);
  tail = i.tail;
  read = i.read;
  head =
      ap (next tty_in_bytes) i.head ∙ sym (steps-suc tty_in_bytes t.ibuf_tail t.ibuf_cnt i.tail h);
  behind =
      ap (next tty_in_bytes) i.behind
      ∙ sym (steps-suc tty_in_bytes t.ibuf_read t.ibuf_read_cnt i.read r);
}

pub added-to_show :
    (t : Tty) (x : ℕ)
    → IsTty t
    → t.ibuf_cnt < tty_in_bytes
    → to_show (added t x) ≡ to_show t ++ (x ∷ [])
added-to_show t x i h =
    ap (λ q. window (set t.ibuf q x) tty_in_bytes t.ibuf_tail (suc t.ibuf_cnt)) i.head
    ∙ window-set t.ibuf tty_in_bytes t.ibuf_tail t.ibuf_cnt x (omega (arith, i.long)) i.tail h

pub added-to_read :
    (t : Tty) (x : ℕ)
    → IsTty t
    → t.ibuf_read_cnt < tty_in_bytes
    → to_read (added t x) ≡ to_read t ++ (x ∷ [])
added-to_read t x i h =
    ap (λ q. window (set t.ibuf q x) tty_in_bytes t.ibuf_read (suc t.ibuf_read_cnt)) i.behind
    ∙ window-set t.ibuf tty_in_bytes t.ibuf_read t.ibuf_read_cnt x (omega (arith, i.long)) i.read h

-- Nothing is to be shown.
pub tty_dev_write-none : (t : Tty) → t.ibuf_cnt ≡ 0 → tty_dev_write t ≡ ok (none, t)
unfolding tty_dev_write
tty_dev_write-none t e = rw e refl

pub tty_dev_write-some :
    (t : Tty) (n : ℕ)
    → t.ibuf_cnt ≡ suc n
    → (get_or t.ibuf t.ibuf_tail 0 % 256 == b'\x08') ≡ false
    → tty_dev_write t ≡ ok (some (char_of (get_or t.ibuf t.ibuf_tail 0)), taken t)
unfolding tty_dev_write
tty_dev_write-some t n e h = rw (some_left, h) refl
  where
    some_left : (t.ibuf_cnt == 0) ≡ false
    some_left = ground (arith, e)

pub to_show-none : (t : Tty) → t.ibuf_cnt ≡ 0 → to_show t ≡ []
unfolding window
to_show-none t e = ap (window t.ibuf tty_in_bytes t.ibuf_tail) e

pub to_show-some :
    (t : Tty) (n : ℕ)
    → t.ibuf_cnt ≡ suc n
    → to_show t ≡ get_or t.ibuf t.ibuf_tail 0 ∷ to_show (taken t)
unfolding window
to_show-some t n e =
    ap (window t.ibuf tty_in_bytes t.ibuf_tail) e
    ∙ ap
        (λ k.
          get_or t.ibuf t.ibuf_tail 0
          ∷ window t.ibuf tty_in_bytes (next tty_in_bytes t.ibuf_tail) k)
        (omega (arith, e))

next_below : (h : ℕ) → h < tty_in_bytes → next tty_in_bytes h < tty_in_bytes
next_below h l = ground arith

-- The place behind a window that begins one further on.
steps-next :
    (h k n : ℕ) → k ≡ suc n → steps tty_in_bytes h k ≡ steps tty_in_bytes (next tty_in_bytes h) n
unfolding steps
steps-next h k n e = ap (steps tty_in_bytes h) e

pub taken-IsTty : (t : Tty) (n : ℕ) → t.ibuf_cnt ≡ suc n → IsTty t → IsTty (taken t)
taken-IsTty t n e i = record {
  long = i.long;
  few = omega (arith, i.few);
  unread = i.unread;
  tail = next_below t.ibuf_tail i.tail;
  read = i.read;
  head =
      i.head
      ∙ steps-next t.ibuf_tail t.ibuf_cnt n e
      ∙ ap (steps tty_in_bytes (next tty_in_bytes t.ibuf_tail)) (omega (arith, e));
  behind = i.behind;
}

-- One key read.
abbrev advanced : Tty → Tty
advanced t = record t {
  ibuf_read = next tty_in_bytes t.ibuf_read;
  ibuf_read_cnt = sub32 t.ibuf_read_cnt 1;
}

down : (k n : ℕ) → k ≡ suc n → k ≤ tty_in_bytes → sub32 k 1 ≡ n
down k n e h = omega (arith, e, h)

advanced-IsTty : (t : Tty) (n : ℕ) → t.ibuf_read_cnt ≡ suc n → IsTty t → IsTty (advanced t)
advanced-IsTty t n e i = record {
  long = i.long;
  few = i.few;
  unread = omega (arith, i.unread, down t.ibuf_read_cnt n e i.unread, e);
  tail = i.tail;
  read = next_below t.ibuf_read i.read;
  head = i.head;
  behind =
      i.behind
      ∙ steps-next t.ibuf_read t.ibuf_read_cnt n e
      ∙ ap (steps tty_in_bytes (next tty_in_bytes t.ibuf_read))
          (sym (down t.ibuf_read_cnt n e i.unread));
}

to_read-none : (t : Tty) → t.ibuf_read_cnt ≡ 0 → to_read t ≡ []
unfolding window
to_read-none t e = ap (window t.ibuf tty_in_bytes t.ibuf_read) e

to_read-some :
    (t : Tty) (n : ℕ)
    → t.ibuf_read_cnt ≡ suc n
    → IsTty t
    → to_read t ≡ get_or t.ibuf t.ibuf_read 0 ∷ to_read (advanced t)
unfolding window
to_read-some t n e i =
    ap (window t.ibuf tty_in_bytes t.ibuf_read) e
    ∙ ap
        (λ k.
          get_or t.ibuf t.ibuf_read 0
          ∷ window t.ibuf tty_in_bytes (next tty_in_bytes t.ibuf_read) k)
        (sym (down t.ibuf_read_cnt n e i.unread))

-- What a read comes to, for the keys `qr` to be read.
pub record Reads (n : ℕ) (t : Tty) (qr : List ℕ) (r : List ℕ × Tty) : Type 0 where
  pub chars : r.0 ≡ map char_of (take n qr)
  pub inv : IsTty r.1
  pub rest : to_read r.1 ≡ drop n qr
  pub show_same : to_show r.1 ≡ to_show t

read_keys-none : (n : ℕ) (t : Tty) → t.ibuf_read_cnt ≡ 0 → read_keys (suc n) t ≡ ([], t)
unfolding read_keys
read_keys-none n t e = rw (read_keys, e) refl

read_keys-some :
    (n : ℕ) (t : Tty) (k : ℕ)
    → t.ibuf_read_cnt ≡ suc k
    → read_keys (suc n) t ≡ (
      get_or t.ibuf t.ibuf_read 0 % 256 ∷ (read_keys n (advanced t)).0,
      (read_keys n (advanced t)).1,
    )
unfolding read_keys
read_keys-some n t k e = rw (read_keys, some_left) refl
  where
    some_left : (t.ibuf_read_cnt == 0) ≡ false
    some_left = ground (arith, e)

pub read_keys-Reads : (n : ℕ) (t : Tty) → IsTty t → Reads n t (to_read t) (read_keys n t)
unfolding read_keys
read_keys-Reads zero t i = record { chars = refl; inv = i; rest = refl; show_same = refl }
read_keys-Reads (suc n) t i =
    go t.ibuf_read_cnt refl (λ k e. read_keys-Reads n (advanced t) (advanced-IsTty t k e i))
  where
    go :
        (c : ℕ)
        → t.ibuf_read_cnt ≡ c
        → ((k : ℕ)
            → t.ibuf_read_cnt ≡ suc k
            → Reads n (advanced t) (to_read (advanced t)) (read_keys n (advanced t)))
        → Reads (suc n) t (to_read t) (read_keys (suc n) t)
    go zero e f = subst⁻¹ (Reads (suc n) t (to_read t)) (read_keys-none n t e) (
        subst⁻¹ (λ q. Reads (suc n) t q ([], t)) (to_read-none t e)
          (record { chars = refl; inv = i; rest = to_read-none t e; show_same = refl }))
    go (suc k) e f =
        let r = f k e in
        subst⁻¹ (Reads (suc n) t (to_read t)) (read_keys-some n t k e) (
          subst⁻¹
            (λ q. Reads (suc n) t q (
              get_or t.ibuf t.ibuf_read 0 % 256 ∷ (read_keys n (advanced t)).0,
              (read_keys n (advanced t)).1,
            ))
            (to_read-some t k e i)
            (record {
              chars = ap (λ cs. get_or t.ibuf t.ibuf_read 0 % 256 ∷ cs) r.chars;
              inv = r.inv;
              rest = r.rest;
              show_same = r.show_same;
            }))
