-- ===== src/Hd/Tests.antt =====
-- The disk driver at small runs: a disk whose sectors hold one byte, counted up by each read.
use exp_memfs.Base.{
  ◌==◌, if◌then◌else◌, replicate, ok, fault, ℕ, ◌+◌, ◌*◌, ◌≡◌, refl, true, [], ◌∷◌, arith,
}
use exp_memfs.Proc.{ready, sleeping}
use exp_memfs.Ramfs.File.{poke}
use exp_memfs.Hd.{RwInfo, Nodes, init_hd_queue, HdInfo, Ports, Drive, hd_rdwt_real, cmd_of}
use exp_memfs.Hd.Fifo.{comes, asks, run, serve, hd_queue_serves}
use exp_memfs.Hd.Transfer.{given, hd_rdwt_real_reads, hd_rdwt_real_part}
use exp_memfs.Hd.Service.{Service, hd_service, hd_service_wakes, is_of, all_moved}

abbrev counter : Ports ℕ
counter = record {
  hd_cmd_out = λ c n. c.lba_low;
  insw = λ n. (replicate 512 n, n + 1);
  outsw = λ w n. n;
  waitfor = λ n. true;
}

abbrev info : ℕ → HdInfo
info drive = record { primary = λ i. 100 * i; logical = λ i. 0 }

abbrev request : ℕ → RwInfo
request cnt = record {
  msg = record { is_read = true; device = 1; position = 2048; cnt = cnt };
  kbuf = 0x1000;
  proc = 5;
  next = 0;
}

abbrev nodes : Nodes
nodes p = if p == 40 then request 512 else record (request 1024) { proc = 6 }

abbrev drive : Drive ℕ
drive = record { mem = λ x. 0; disk = 0; hdbuf = [] }

hd_queue_serves_example :
    run (comes 40 ∷ comes 41 ∷ asks ∷ comes 40 ∷ asks ∷ asks ∷ []) init_hd_queue nodes
    ≡ serve (comes 40 ∷ comes 41 ∷ asks ∷ comes 40 ∷ asks ∷ asks ∷ []) []
hd_queue_serves_example =
    hd_queue_serves (comes 40 ∷ comes 41 ∷ asks ∷ comes 40 ∷ asks ∷ asks ∷ []) nodes init_hd_queue
      [] refl
      (
        (λ e. absurd (omega (arith, e))),
        refl,
        ((λ e. absurd (omega (arith, e))), refl, ((λ e. absurd (omega (arith, e))), refl, tt)),
      )

in_order : serve (comes 40 ∷ comes 41 ∷ asks ∷ comes 40 ∷ asks ∷ asks ∷ []) [] ≡ 40 ∷ 41 ∷ 40 ∷ []
unfolding serve
in_order = refl

hd_rdwt_real_reads_example :
    (d' : Drive ℕ) × (hd_rdwt_real counter info (request 1024) drive ≡ ok d')
    × (d'.mem ≡ poke drive.mem 0x1000 (given counter 2 (cmd_of info (request 1024).msg).lba_low).0)
    × (d'.disk ≡ (given counter 2 (cmd_of info (request 1024).msg).lba_low).1)
hd_rdwt_real_reads_example =
    hd_rdwt_real_reads counter info (request 1024) drive 2 refl refl (omega arith) (λ e. refl)

first_sector : (cmd_of info (request 1024).msg).lba_low ≡ 104
unfolding cmd_of
first_sector = refl

hd_rdwt_real_part_example : hd_rdwt_real counter info (request 700) drive ≡ fault
hd_rdwt_real_part_example =
    hd_rdwt_real_part counter info (request 700) drive refl (λ e. absurd (omega (arith, e)))

-- Two requests, of process 5 and of process 6, which both sleep.
abbrev linked : Nodes
linked p =
    if p == 40 then record (request 512) { next = 41 } else record (request 1024) { proc = 6 }

abbrev waiting : Service ℕ
waiting = record {
  hdque = record { front = 40; rear = 41 };
  nodes = linked;
  drive = drive;
  stat = λ pid. sleeping;
}

hd_service_wakes_example :
    (s' : Service ℕ) × (hd_service counter info 3 waiting ≡ ok s')
    × (s'.hdque ≡ init_hd_queue)
    × (s'.drive ≡ all_moved counter info linked (40 ∷ 41 ∷ []) drive)
    × ((pid : ℕ)
        → s'.stat pid ≡ (if is_of counter info linked pid (40 ∷ 41 ∷ []) then ready else sleeping))
hd_service_wakes_example =
    hd_service_wakes counter info (40 ∷ 41 ∷ []) waiting
      (
        refl,
        (λ e. absurd (omega (arith, e))),
        (λ e. absurd (omega (arith, e))),
        ((λ e. absurd (omega (arith, e))), refl, (refl, refl)),
      )
      (refl, (refl, tt)) (λ e. refl)
