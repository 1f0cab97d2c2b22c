-- ===== src/Hd/Service.antt =====
-- Requests that wait for the disk, kernel/hd.c: `hd_rdwt_sched` up to the call of `sched`, and the
-- inner loop of `hd_service`.
use exp_memfs.Base.{
  ◌==◌, if◌then◌else◌, length, ◌>>=◌, Outcome, ok, no_fuel, pos, ℕ, zero, suc, ◌+◌, ◌*◌, ◌/◌, ◌%◌,
  ◌<◌, ◌≡◌, refl, ap, ◌∙◌, Bool, true, false, ◌||◌, none, some, List, [], ◌∷◌, arith,
}
use exp_memfs.Proc.{Stat, ready, sleeping}
use exp_memfs.Hd.{
  sector_size, RwInfo, Nodes, HdQueue, init_hd_queue, HdInfo, Ports, Drive, in_hd_queue,
  out_hd_queue, hd_rdwt_real, cmd_of, transfer, Message,
}
use exp_memfs.Hd.Fifo.{Holds, out_hd_queue-none, out_hd_queue-some}
use exp_memfs.Hd.Transfer.{sectors, transfer-whole}

pub record Service (D : Type 0) : Type 0 where
  pub hdque : HdQueue
  pub nodes : Nodes
  pub drive : Drive D
  pub stat : ℕ → Stat

abbrev pub set_stat : (ℕ → Stat) → ℕ → Stat → ℕ → Stat
set_stat f pid x q = if q == pid then x else f q

-- The request is filled in at `p`, which is on the stack of the process.
abbrev pub set_request : Nodes → ℕ → Message → ℕ → ℕ → Nodes
set_request h p m kbuf pid q =
    if q == p then record (h q) { msg = m; kbuf = kbuf; proc = pid } else h q

module _ {D : Type 0} where
  abbrev pub enqueue : Service D → HdQueue × Nodes → Service D
  enqueue s (q, h) = record s { hdque = q; nodes = h }

  -- Process `pid` puts its request in the queue and sleeps; `p` and `buffer` are what the memory gave.
  unfoldable pub hd_rdwt_sched : Service D → ℕ → Message → ℕ → ℕ → Service D
  unfolding in_hd_queue
  hd_rdwt_sched s p m buffer pid =
      record (enqueue s (in_hd_queue s.hdque (set_request s.nodes p m buffer pid) p)) {
        stat = set_stat s.stat pid sleeping;
      }

module _ {D : Type 0} (port : Ports D) (info : ℕ → HdInfo) where
  abbrev pub woken : Service D → HdQueue → ℕ → Drive D → Service D
  woken s q pid d = record s { hdque = q; drive = d; stat = set_stat s.stat pid ready }

  -- The inner loop of `hd_service`.
  unfoldable pub hd_service : ℕ → Service D → Outcome (Service D)
  unfolding hd_rdwt_real out_hd_queue
  hd_service zero s = no_fuel
  hd_service (suc fuel) s = elim (out_hd_queue s.hdque s.nodes) [
    | none ↦ ok s
    | some (p, q) ↦ hd_rdwt_real port info (s.nodes p) s.drive >>= λ d.
        hd_service fuel (woken s q (s.nodes p).proc d)
  ]

  -- The drive after the transfer of a request of whole sectors.
  abbrev pub moved : RwInfo → Drive D → Drive D
  moved p d =
      sectors port p.msg.is_read (p.msg.cnt / sector_size) p.kbuf
        (record d { disk = port.hd_cmd_out (cmd_of info p.msg) d.disk })

  hd_rdwt_real-moved :
      (p : RwInfo) (d : Drive D)
      → p.msg.cnt % 512 ≡ 0
      → ((e : D) → port.waitfor e ≡ true)
      → hd_rdwt_real port info p d ≡ ok (moved p d)
  unfolding hd_rdwt_real
  hd_rdwt_real-moved p d c w =
      ap
        (λ l.
          transfer port (p.msg.cnt / 512 + 2) p.msg.is_read (pos l) p.kbuf
            (record d { disk = port.hd_cmd_out (cmd_of info p.msg) d.disk }))
        split
      ∙ transfer-whole port p.msg.is_read (p.msg.cnt / 512) (p.msg.cnt / 512 + 2) p.kbuf
          (record d { disk = port.hd_cmd_out (cmd_of info p.msg) d.disk }) (omega arith) (λ _. w)
    where
      split : p.msg.cnt ≡ 512 * (p.msg.cnt / 512)
      split = omega (arith, c)

  -- The drive and the processes after the requests `ps` in their order.
  abbrev pub all_moved : Nodes → List ℕ → Drive D → Drive D
  all_moved h [] d = d
  all_moved h (p ∷ ps) d = all_moved h ps (moved (h p) d)

  abbrev pub all_woken : Nodes → List ℕ → (ℕ → Stat) → ℕ → Stat
  all_woken h [] f = f
  all_woken h (p ∷ ps) f = all_woken h ps (set_stat f (h p).proc ready)

  abbrev pub Whole : Nodes → List ℕ → Type 0
  Whole h [] = Unit {0}
  Whole h (p ∷ ps) = ((h p).msg.cnt % 512 ≡ 0) × Whole h ps

  hd_service-Holds :
      (ps : List ℕ) (fuel : ℕ) (s : Service D)
      → Holds s.nodes s.hdque ps
      → Whole s.nodes ps
      → ((e : D) → port.waitfor e ≡ true)
      → length ps < fuel
      → hd_service fuel s
        ≡ ok (record {
          hdque = init_hd_queue;
          nodes = s.nodes;
          drive = all_moved s.nodes ps s.drive;
          stat = all_woken s.nodes ps s.stat;
        })
  unfolding hd_service
  hd_service-Holds ps zero s l c w f = absurd (omega arith)
  hd_service-Holds [] (suc fuel) s l c w f =
      rw (hd_service, out_hd_queue-none s.nodes s.hdque l) (ap (λ q. ok (record s { hdque = q })) l)
  hd_service-Holds (p ∷ ps) (suc fuel) s l (c, cs) w f =
      let (q, e, l') = out_hd_queue-some s.nodes s.hdque p ps l in
      rw (hd_service, e, hd_rdwt_real-moved (s.nodes p) s.drive c w)
        (hd_service-Holds ps fuel (woken s q (s.nodes p).proc (moved (s.nodes p) s.drive)) l' cs w
          (omega arith))

  -- The process of one of the requests.
  abbrev pub is_of : Nodes → ℕ → List ℕ → Bool
  is_of h pid [] = false
  is_of h pid (p ∷ ps) = pid == (h p).proc || is_of h pid ps

  all_woken-eq :
      (h : Nodes) (ps : List ℕ) (f : ℕ → Stat) (pid : ℕ)
      → all_woken h ps f pid ≡ (if is_of h pid ps then ready else f pid)
  all_woken-eq h [] f pid = refl
  all_woken-eq h (p ∷ ps) f pid =
      all_woken-eq h ps (set_stat f (h p).proc ready) pid
      ∙ both (pid == (h p).proc) (is_of h pid ps)
    where
      both :
          (a b : Bool)
          → (if b then ready else if a then ready else f pid) ≡ (if a || b then ready else f pid)
      both true true = refl
      both true false = refl
      both false b = refl

  -- Every process that waits for the disk gets on: with the requests `ps` in the queue, all of whole
  -- sectors, and a disk that is ready whenever it is asked for data, the service comes to an empty
  -- queue within one round more than there are requests, the requests transferred in their order; the
  -- processes of the requests are then ready, and the others as they were.
  pub hd_service_wakes :
      (ps : List ℕ) (s : Service D)
      → Holds s.nodes s.hdque ps
      → Whole s.nodes ps
      → ((e : D) → port.waitfor e ≡ true)
      → (s' : Service D) × (hd_service (suc (length ps)) s ≡ ok s')
        × (s'.hdque ≡ init_hd_queue)
        × (s'.drive ≡ all_moved s.nodes ps s.drive)
        × ((pid : ℕ) → s'.stat pid ≡ (if is_of s.nodes pid ps then ready else s.stat pid))
  hd_service_wakes ps s l c w = (
    record {
      hdque = init_hd_queue;
      nodes = s.nodes;
      drive = all_moved s.nodes ps s.drive;
      stat = all_woken s.nodes ps s.stat;
    },
    hd_service-Holds ps (suc (length ps)) s l c w (omega arith),
    refl,
    refl,
    all_woken-eq s.nodes ps s.stat,
  )
