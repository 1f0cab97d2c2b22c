-- ===== src/Hd/Fifo.antt =====
-- The queue of requests of kernel/hd.c as a list.
use exp_memfs.Base.{
  ◌==◌, mem, ℕ, ◌≡◌, refl, sym, ap, ◌∙◌, ◌≢◌, true, false, none, some, List, [], ◌∷◌, ◌++◌, arith,
}
use exp_memfs.Hd.{Nodes, HdQueue, init_hd_queue, link_to, in_hd_queue, out_hd_queue}

-- The requests behind `p`, the last of which is `r`.
abbrev pub Links : Nodes → ℕ → List ℕ → ℕ → Type 0
Links h p [] r = (p ≡ r) × ((h p).next ≡ 0)
Links h p (q ∷ ps) r = (q ≢ 0) × ((h p).next ≡ q) × Links h q ps r

-- The queue holds these requests, the oldest first.
abbrev pub Holds : Nodes → HdQueue → List ℕ → Type 0
Holds h q [] = q ≡ init_hd_queue
Holds h q (p ∷ ps) = (q.front ≡ p) × (p ≢ 0) × (q.rear ≢ 0) × Links h p ps q.rear

Links-last : (h : Nodes) (p r : ℕ) (ps : List ℕ) → Links h p ps r → (h r).next ≡ 0
Links-last h p r [] (e, z) = ap (λ x. (h x).next) (sym e) ∙ z
Links-last h p r (q ∷ ps) (_, _, l) = Links-last h q r ps l

Links-ne : (h : Nodes) (p q r : ℕ) (ps : List ℕ) → Links h p (q ∷ ps) r → p ≢ r
Links-ne h p q r ps (n, e, l) eq = n (sym e ∙ ap (λ x. (h x).next) eq ∙ Links-last h q r ps l)

-- The memory after request `p` was put behind `r`.
abbrev put_behind : Nodes → ℕ → ℕ → Nodes
put_behind h r p = link_to (link_to h p 0) r p

==-self : (p : ℕ) → (p == p) ≡ true
==-self p = ground arith

link_to_self : (h : Nodes) (p x : ℕ) → (link_to h p x p).next ≡ x
link_to_self h p x = rw (==-self p) refl

link_to-ne : (h : Nodes) (p q x : ℕ) → (q == p) ≡ false → link_to h p x q ≡ h q
link_to-ne h p q x e = rw e refl

ne→false : (a b : ℕ) → a ≢ b → (a == b) ≡ false
ne→false a b n = ground arith

put_behind-next :
    (h : Nodes) (p r x : ℕ) → p ≢ r → (x == p) ≡ false → (put_behind h r x p).next ≡ (h p).next
put_behind-next h p r x n m =
    ap (λ i. i.next)
      (link_to-ne (link_to h x 0) r p x (ne→false p r n) ∙ link_to-ne h x p 0 (ground (arith, m)))

put_behind-new : (h : Nodes) (r x : ℕ) → (x == r) ≡ false → (put_behind h r x x).next ≡ 0
put_behind-new h r x m = ap (λ i. i.next) (link_to-ne (link_to h x 0) r x x m) ∙ link_to_self h x 0

mem_head : (x p : ℕ) (ps : List ℕ) → mem x (p ∷ ps) ≡ false → (x == p) ≡ false
mem_head x p ps m = ground (arith, m)

mem_rest : (x p : ℕ) (ps : List ℕ) → mem x (p ∷ ps) ≡ false → mem x ps ≡ false
mem_rest x p ps m = ground (arith, m)

Links-in :
    (h : Nodes) (p r x : ℕ) (ps : List ℕ)
    → Links h p ps r
    → x ≢ 0
    → mem x (p ∷ ps) ≡ false
    → Links (put_behind h r x) p (ps ++ (x ∷ [])) x
Links-in h p r x [] (e, z) n m = (
  n,
  ap (λ q. (put_behind h r x q).next) e ∙ link_to_self (link_to h x 0) r x,
  (refl, put_behind-new h r x (ap (λ q. x == q) (sym e) ∙ mem_head x p [] m)),
)
Links-in h p r x (q ∷ ps) (n0, e, l) n m = (
  n0,
  put_behind-next h p r x (Links-ne h p q r ps (n0, e, l)) (mem_head x p (q ∷ ps) m) ∙ e,
  Links-in h q r x ps l n (mem_rest x p (q ∷ ps) m),
)

-- A request that is not in the queue yet goes behind the others.
pub in_hd_queue-Holds :
    (h : Nodes) (q : HdQueue) (ps : List ℕ) (x : ℕ)
    → Holds h q ps
    → x ≢ 0
    → mem x ps ≡ false
    → Holds (in_hd_queue q h x).1 (in_hd_queue q h x).0 (ps ++ (x ∷ []))
unfolding in_hd_queue
in_hd_queue-Holds h q [] x e n m = rw e (refl, n, n, (refl, link_to_self h x 0))
in_hd_queue-Holds h q (p ∷ ps) x (f, np, nr, l) n m =
    rw (ne→false q.rear 0 nr) (f, np, n, Links-in h p q.rear x ps l n m)

pub out_hd_queue-none : (h : Nodes) (q : HdQueue) → Holds h q [] → out_hd_queue q h ≡ none
unfolding out_hd_queue
out_hd_queue-none h q e = rw e refl

-- The oldest request comes out, and the others stay.
pub out_hd_queue-some :
    (h : Nodes) (q : HdQueue) (p : ℕ) (ps : List ℕ)
    → Holds h q (p ∷ ps)
    → (q' : HdQueue) × (out_hd_queue q h ≡ some (p, q')) × Holds h q' ps
unfolding out_hd_queue
out_hd_queue-some h q p [] (f, np, nr, (e, z)) =
    (init_hd_queue, rw (ne→false q.rear 0 nr, f, sym e, ==-self p) refl, refl)
out_hd_queue-some h q p (x ∷ ps) (f, np, nr, (n, e, l)) = (
  record q { front = x },
  rw (ne→false q.rear 0 nr, f, ne→false p q.rear (Links-ne h p x q.rear ps (n, e, l)), e) refl,
  (refl, n, nr, l),
)

-- What happens to the queue, in order: a request comes in, or the service asks for one.
pub data Event : Type 0 where
  comes : ℕ → Event
  asks : Event

-- The requests that the service gets.
unfoldable pub run : List Event → HdQueue → Nodes → List ℕ
run [] q h = []
run (comes x ∷ es) q h = run es (in_hd_queue q h x).0 (in_hd_queue q h x).1
run (asks ∷ es) q h = elim (out_hd_queue q h) [ none ↦ run es q h | some (p, q') ↦ p ∷ run es q' h ]

-- The same for a list of requests, the oldest first.
unfoldable pub serve : List Event → List ℕ → List ℕ
serve [] ps = []
serve (comes x ∷ es) ps = serve es (ps ++ (x ∷ []))
serve (asks ∷ es) [] = serve es []
serve (asks ∷ es) (p ∷ ps) = p ∷ serve es ps

-- No request comes in while it is in the queue, and none is NULL.
abbrev pub Fresh : List Event → List ℕ → Type 0
Fresh [] ps = Unit {0}
Fresh (comes x ∷ es) ps = (x ≢ 0) × (mem x ps ≡ false) × Fresh es (ps ++ (x ∷ []))
Fresh (asks ∷ es) [] = Fresh es []
Fresh (asks ∷ es) (p ∷ ps) = Fresh es ps

-- As long as no request comes in twice before it is taken out, and none is NULL, the service gets the
-- requests in the order in which they came in, each of them once, from a queue in which the requests
-- `ps` are linked.
pub hd_queue_serves :
    (es : List Event) (h : Nodes) (q : HdQueue) (ps : List ℕ)
    → Holds h q ps
    → Fresh es ps
    → run es q h ≡ serve es ps
unfolding run serve
hd_queue_serves [] h q ps l f = refl
hd_queue_serves (comes x ∷ es) h q ps l (n, m, f) =
    hd_queue_serves es (in_hd_queue q h x).1 (in_hd_queue q h x).0 (ps ++ (x ∷ []))
      (in_hd_queue-Holds h q ps x l n m) f
hd_queue_serves (asks ∷ es) h q [] l f =
    rw (run, out_hd_queue-none h q l) (hd_queue_serves es h q [] l f)
hd_queue_serves (asks ∷ es) h q (p ∷ ps) l f =
    let (q', e, l') = out_hd_queue-some h q p ps l in
    rw (run, e) (ap (λ r. p ∷ r) (hd_queue_serves es h q' ps l' f))
