-- ===== src/Tty/Serve.antt =====
-- What is shown of the keys of kernel/tty.c, and what is read.
use exp_memfs.Base.{
  ◌==◌, length, get_or, take, drop, ◌>>=◌, Outcome, ok, ℕ, zero, suc, ◌%◌, ◌<◌, ◌≡◌, refl, sym, ap,
  ◌∙◌, false, Option, none, some, List, [], ◌∷◌, ◌++◌, map, arith,
}
use mathlib.Core.Path.{ap₂, subst, subst⁻¹}
use exp_memfs.Window.{length-window}
use exp_memfs.Tty.{Tty, tty_in_bytes, put_key, taken, tty_dev_write, read_keys}
use exp_memfs.Tty.Buffer.{
  to_show, to_read, IsTty, char_of, added, put_key-added, added-IsTty, added-to_show, added-to_read,
  tty_dev_write-none, tty_dev_write-some, to_show-none, to_show-some, taken-IsTty, read_keys-Reads,
}

-- What happens to a terminal, in order.
pub data Event : Type 0 where
  types : ℕ → Event
  shows : Event
  reads : ℕ → Event

-- What comes of it: a character for the screen, or the characters of a read.
pub data Output : Type 0 where
  shown : ℕ → Output
  got : List ℕ → Output

abbrev pub emit_char : Option ℕ → Outcome (List Output) → Outcome (List Output)
emit_char none r = r
emit_char (some ch) r = r >>= λ os. ok (shown ch ∷ os)

unfoldable pub run : List Event → Tty → Outcome (List Output)
run [] t = ok []
run (types x ∷ es) t = run es (put_key t x)
run (shows ∷ es) t = tty_dev_write t >>= λ (o, t'). emit_char o (run es t')
run (reads n ∷ es) t = run es (read_keys n t).1 >>= λ os. ok (got (read_keys n t).0 ∷ os)

-- The same for two queues of keys.
unfoldable pub serve : List Event → List ℕ → List ℕ → List Output
serve [] qs qr = []
serve (types x ∷ es) qs qr = serve es (qs ++ (x ∷ [])) (qr ++ (x ∷ []))
serve (shows ∷ es) [] qr = serve es [] qr
serve (shows ∷ es) (x ∷ qs) qr = shown (char_of x) ∷ serve es qs qr
serve (reads n ∷ es) qs qr = got (map char_of (take n qr)) ∷ serve es qs (drop n qr)

-- No key is a backspace, and there is room for it in both queues.
abbrev pub Fits : List Event → List ℕ → List ℕ → Type 0
Fits [] qs qr = Unit {0}
Fits (types x ∷ es) qs qr =
    ((x % 256 == b'\x08') ≡ false)
    × (length qs < tty_in_bytes)
    × (length qr < tty_in_bytes)
    × Fits es (qs ++ (x ∷ [])) (qr ++ (x ∷ []))
Fits (shows ∷ es) [] qr = Fits es [] qr
Fits (shows ∷ es) (x ∷ qs) qr = Fits es qs qr
Fits (reads n ∷ es) qs qr = Fits es qs (drop n qr)

abbrev pub Plain : List ℕ → Type 0
Plain [] = Unit {0}
Plain (x ∷ xs) = ((x % 256 == b'\x08') ≡ false) × Plain xs

Plain-append :
    (xs : List ℕ) (x : ℕ) → Plain xs → (x % 256 == b'\x08') ≡ false → Plain (xs ++ (x ∷ []))
Plain-append [] x p e = (e, tt)
Plain-append (y ∷ xs) x (h, p) e = (h, Plain-append xs x p e)

-- For a terminal in order, keys that are no backspace, and never more than 256 keys that are not yet
-- shown or not yet read: however the typing, the showing and the reading follow one another, nothing
-- goes wrong, and the screen and the reader each get the keys, cut to a byte, in the order in which they
-- were typed, each key once.
pub typed_shown_read :
    (es : List Event) (t : Tty)
    → IsTty t
    → Plain (to_show t)
    → Fits es (to_show t) (to_read t)
    → run es t ≡ ok (serve es (to_show t) (to_read t))
unfolding run serve
typed_shown_read [] t i p f = refl
typed_shown_read (types x ∷ es) t i p (plain, ls, lr, f) =
    ap (run es) (put_key-added t x room unread)
    ∙ typed_shown_read es (added t x) (added-IsTty t x i room unread)
        (subst⁻¹ Plain (added-to_show t x i room) (Plain-append (to_show t) x p plain))
        (subst⁻¹ (λ q. Fits es q (to_read (added t x))) (added-to_show t x i room)
          (subst⁻¹ (Fits es (to_show t ++ (x ∷ []))) (added-to_read t x i unread) f))
    ∙ ap₂ (λ a b. ok (serve es a b)) (added-to_show t x i room) (added-to_read t x i unread)
  where
    room : t.ibuf_cnt < tty_in_bytes
    room = omega (arith, ls, length-window t.ibuf tty_in_bytes t.ibuf_tail t.ibuf_cnt)

    unread : t.ibuf_read_cnt < tty_in_bytes
    unread = omega (arith, lr, length-window t.ibuf tty_in_bytes t.ibuf_read t.ibuf_read_cnt)
typed_shown_read (shows ∷ es) t i p f =
    go t.ibuf_cnt refl
      (λ e. typed_shown_read es t i p (
        subst⁻¹ (λ q. Fits es q (to_read t)) (to_show-none t e)
          (subst (λ q. Fits (shows ∷ es) q (to_read t)) (to_show-none t e) f)))
      (λ n e pq fq. typed_shown_read es (taken t) (taken-IsTty t n e i) pq fq)
  where
    go :
        (c : ℕ)
        → t.ibuf_cnt ≡ c
        → (t.ibuf_cnt ≡ 0 → run es t ≡ ok (serve es (to_show t) (to_read t)))
        → ((n : ℕ)
            → t.ibuf_cnt ≡ suc n
            → Plain (to_show (taken t))
            → Fits es (to_show (taken t)) (to_read t)
            → run es (taken t) ≡ ok (serve es (to_show (taken t)) (to_read t)))
        → run (shows ∷ es) t ≡ ok (serve (shows ∷ es) (to_show t) (to_read t))
    go zero e now later =
        ap (λ o. o >>= λ (c, t'). emit_char c (run es t')) (tty_dev_write-none t e)
        ∙ now e
        ∙ ap (λ q. ok (serve es q (to_read t))) (to_show-none t e)
        ∙ ap (λ q. ok (serve (shows ∷ es) q (to_read t))) (sym (to_show-none t e))
    go (suc n) e now later =
        let plain = subst Plain (to_show-some t n e) p in
        ap (λ o. o >>= λ (c, t'). emit_char c (run es t')) (tty_dev_write-some t n e plain.0)
        ∙ ap (emit_char (some (char_of (get_or t.ibuf t.ibuf_tail 0)))) (
            later n e plain.1 (subst (λ q. Fits (shows ∷ es) q (to_read t)) (to_show-some t n e) f))
        ∙ ap (λ q. ok (serve (shows ∷ es) q (to_read t))) (sym (to_show-some t n e))
typed_shown_read (reads n ∷ es) t i p f =
    let r = read_keys-Reads n t i in
    ap (λ o. o >>= λ os. ok (got (read_keys n t).0 ∷ os))
      (typed_shown_read es (read_keys n t).1 r.inv (subst⁻¹ Plain r.show_same p) (
          subst⁻¹ (λ q. Fits es q (to_read (read_keys n t).1)) r.show_same
            (subst⁻¹ (Fits es (to_show t)) r.rest f))
        ∙ ap₂ (λ a b. ok (serve es a b)) r.show_same r.rest)
    ∙ ap (λ cs. ok (got cs ∷ serve es (to_show t) (drop n (to_read t)))) r.chars
