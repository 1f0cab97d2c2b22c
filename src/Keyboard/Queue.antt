-- ===== src/Keyboard/Queue.antt =====
-- The keyboard's buffer as a bounded queue.
use exp_memfs.Base.{
  ltb, ◌==◌, if◌then◌else◌, Bool-cases, length, get_or, set, length-set, ℕ, zero, suc, ◌≤◌, ◌<◌,
  ◌≡◌, refl, sym, ap, ◌∙◌, inl, inr, true, false, none, some, List, [], ◌∷◌, ◌++◌, arith,
}
use exp_memfs.Window.{next, steps, window, length-window, steps-suc, window-set}
use exp_memfs.Keyboard.{KbInput, kb_in_bytes, kb_handler, get_byte_from_kb_buf}

-- The bytes that wait.
abbrev pub waiting : KbInput → List ℕ
waiting k = window k.buf kb_in_bytes k.p_tail k.count

pub record IsRing (k : KbInput) : Type 0 where
  pub long : length k.buf ≡ kb_in_bytes
  pub few : k.count ≤ kb_in_bytes
  pub tail : k.p_tail < kb_in_bytes
  pub head : k.p_head ≡ steps kb_in_bytes k.p_tail k.count

-- The calls, in the order in which they happen.
pub data Event : Type 0 where
  arrives : ℕ → Event
  reads : Event

-- The bytes that the readers get.
unfoldable pub run : List Event → KbInput → List ℕ
run [] k = []
run (arrives x ∷ es) k = run es (kb_handler k x)
run (reads ∷ es) k = elim (get_byte_from_kb_buf k) [
  | none ↦ run es k
  | some (x, k') ↦ x ∷ run es k'
]

-- The same for a queue of at most `kb_in_bytes` bytes.
unfoldable pub serve : List Event → List ℕ → List ℕ
serve [] q = []
serve (arrives x ∷ es) q = serve es (if ltb (length q) kb_in_bytes then q ++ (x ∷ []) else q)
serve (reads ∷ es) [] = serve es []
serve (reads ∷ es) (x ∷ q) = x ∷ serve es q

kb_handler-room :
    (k : KbInput) (x : ℕ)
    → ltb k.count kb_in_bytes ≡ true
    → kb_handler k x ≡ record {
      p_head = next kb_in_bytes k.p_head;
      p_tail = k.p_tail;
      count = suc k.count;
      buf = set k.buf k.p_head x;
    }
unfolding kb_handler
kb_handler-room k x h = rw h (
    ap
      (λ n. record {
        p_head = next kb_in_bytes k.p_head;
        p_tail = k.p_tail;
        count = n;
        buf = set k.buf k.p_head x;
      })
      (omega arith))

kb_handler-full : (k : KbInput) (x : ℕ) → ltb k.count kb_in_bytes ≡ false → kb_handler k x ≡ k
unfolding kb_handler
kb_handler-full k x h = rw h refl

kb_handler-IsRing : (k : KbInput) (x : ℕ) → IsRing k → IsRing (kb_handler k x)
kb_handler-IsRing k x r = elim (Bool-cases (ltb k.count kb_in_bytes)) [
  | inl h ↦ rw (kb_handler-room k x h) (record {
    long = length-set k.buf k.p_head x ∙ r.long;
    few = ground (arith, h);
    tail = r.tail;
    head =
        ap (next kb_in_bytes) r.head
        ∙ sym (steps-suc kb_in_bytes k.p_tail k.count r.tail (ground (arith, h)));
  })
  | inr h ↦ rw (kb_handler-full k x h) r
]

-- A byte that arrives waits behind the others, if there is room.
kb_handler-waiting :
    (k : KbInput) (x : ℕ)
    → IsRing k
    → waiting (kb_handler k x)
      ≡ (if ltb (length (waiting k)) kb_in_bytes then waiting k ++ (x ∷ []) else waiting k)
kb_handler-waiting k x r = elim (Bool-cases (ltb k.count kb_in_bytes)) [
  | inl h ↦
      rw (kb_handler-room k x h, length-window k.buf kb_in_bytes k.p_tail k.count, h)
        (ap (λ q. window (set k.buf q x) kb_in_bytes k.p_tail (suc k.count)) r.head
          ∙ window-set k.buf kb_in_bytes k.p_tail k.count x (omega (arith, r.long)) r.tail
              (ground (arith, h)))
  | inr h ↦ rw (kb_handler-full k x h, length-window k.buf kb_in_bytes k.p_tail k.count, h) refl
]

get_byte-none : (k : KbInput) → k.count ≡ 0 → get_byte_from_kb_buf k ≡ none
unfolding get_byte_from_kb_buf
get_byte-none k e = ground (arith, e)

-- The buffer after a byte was read.
abbrev rest : KbInput → ℕ → KbInput
rest k n = record k { p_tail = next kb_in_bytes k.p_tail; count = n }

get_byte-some :
    (k : KbInput) (n : ℕ)
    → k.count ≡ suc n
    → get_byte_from_kb_buf k ≡ some (get_or k.buf k.p_tail 0, rest k n)
unfolding get_byte_from_kb_buf
get_byte-some k n e =
    rw (e, there) (ap (λ m. some (get_or k.buf k.p_tail 0, rest k m)) (omega arith))
  where
    there : (suc n == 0) ≡ false
    there = ground arith

rest-IsRing : (k : KbInput) (n : ℕ) → k.count ≡ suc n → IsRing k → IsRing (rest k n)
unfolding steps
rest-IsRing k n e r = record {
  long = r.long;
  few = omega (arith, e, r.few);
  tail = ground (arith, r.tail);
  head = r.head ∙ ap (steps kb_in_bytes k.p_tail) e;
}

waiting-some :
    (k : KbInput) (n : ℕ)
    → k.count ≡ suc n
    → waiting k ≡ get_or k.buf k.p_tail 0 ∷ waiting (rest k n)
unfolding window
waiting-some k n e = ap (window k.buf kb_in_bytes k.p_tail) e

waiting-none : (k : KbInput) → k.count ≡ 0 → waiting k ≡ []
unfolding window
waiting-none k e = ap (window k.buf kb_in_bytes k.p_tail) e

-- For a buffer in order, no sequence of bytes that arrive and of reads tells `kb_handler` and
-- `get_byte_from_kb_buf` from a queue that holds 320 bytes and drops what arrives when it is full.
pub run-eq-serve : (es : List Event) (k : KbInput) → IsRing k → run es k ≡ serve es (waiting k)
unfolding run serve
run-eq-serve [] k r = refl
run-eq-serve (arrives x ∷ es) k r =
    run-eq-serve es (kb_handler k x) (kb_handler-IsRing k x r)
    ∙ ap (serve es) (kb_handler-waiting k x r)
run-eq-serve (reads ∷ es) k r =
    go k.count refl (run-eq-serve es k r) (λ n e. run-eq-serve es (rest k n) (rest-IsRing k n e r))
  where
    go :
        (c : ℕ)
        → k.count ≡ c
        → run es k ≡ serve es (waiting k)
        → ((n : ℕ) → k.count ≡ suc n → run es (rest k n) ≡ serve es (waiting (rest k n)))
        → run (reads ∷ es) k ≡ serve (reads ∷ es) (waiting k)
    go zero e now later =
        rw (run, get_byte-none k e, waiting-none k e) (now ∙ ap (serve es) (waiting-none k e))
    go (suc n) e now later =
        rw (run, get_byte-some k n e, waiting-some k n e)
          (ap (λ q. get_or k.buf k.p_tail 0 ∷ q) (later n e))
