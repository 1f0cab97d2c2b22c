-- ===== src/Hd.antt =====
-- The disk driver, kernel/hd.c: the queue of requests, the transfer of a request, and the service that
-- takes the requests out. Pointers are addresses, NULL is 0, and `Nodes` is the memory of the requests.
-- The ports are arguments. A write past the end of the sectors of a request is a fault, as `memcpy` gets
-- a negative count there.
pub mod Fifo
pub mod Transfer
pub mod Service
mod Tests
use exp_memfs.Base.{
  ltb, leb, ◌==◌, if◌then◌else◌, ltb→lt, lt→ltb, leb→le, ==_iff, Bool-cases, Option-cases, length,
  get_or, set, take, drop, replicate, erase_at, insert_at, length-append, length-set,
  get_or-set_self, get_or-set_ne, length-insert_at, take-append-drop, length-take, length-drop,
  u32_mod, add32, sub32, minus_one, sub_ℕ, ◌>>=◌, ◌>>◌, assert, Outcome, ok, panic, fault, no_fuel,
  ℤ, pos, negsuc, ℕ, zero, suc, ◌+◌, ◌-◌, ◌*◌, ◌/◌, ◌%◌, ◌^◌, ◌≤◌, ◌<◌, ◌≡◌, refl, sym, ap, ◌∙◌,
  ◌≢◌, ◌↔◌, ◌⊎◌, inl, inr, Bool, true, false, not, ◌&&◌, ◌||◌, Option, none, some, List, [], ◌∷◌,
  ◌++◌, map, arith,
}
use Prim.Native.Nat.{bit_or}
use exp_memfs.Ramfs.File.{poke, slice}

abbrev pub sector_size : ℕ
sector_size = 512

-- The members of `MESSAGE` that the driver reads; `is_read` is `type == DEV_READ`.
pub record Message : Type 0 where
  pub is_read : Bool
  pub device : ℕ
  pub position : ℕ
  pub cnt : ℕ

pub record RwInfo : Type 0 where
  pub msg : Message
  pub kbuf : ℕ
  pub proc : ℕ
  pub next : ℕ

abbrev pub Nodes : Type 0
Nodes = ℕ → RwInfo

pub record HdQueue : Type 0 where
  pub front : ℕ
  pub rear : ℕ

abbrev pub init_hd_queue : HdQueue
init_hd_queue = record { front = 0; rear = 0 }

-- `p->next = x`
abbrev pub link_to : Nodes → ℕ → ℕ → Nodes
link_to h p x q = if q == p then record (h q) { next = x } else h q

unfoldable pub in_hd_queue : HdQueue → Nodes → ℕ → HdQueue × Nodes
in_hd_queue q h p =
    if q.rear == 0
    then (record { front = p; rear = p }, link_to h p 0)
    else (record q { rear = p }, link_to (link_to h p 0) q.rear p)

unfoldable pub out_hd_queue : HdQueue → Nodes → Option (ℕ × HdQueue)
out_hd_queue q h =
    if q.rear == 0
    then none
    else some (
      q.front,
      if q.front == q.rear then init_hd_queue else record q { front = (h q.front).next },
    )

-- `struct hd_cmd`
pub record HdCmd : Type 0 where
  pub features : ℕ
  pub count : ℕ
  pub lba_low : ℕ
  pub lba_mid : ℕ
  pub lba_high : ℕ
  pub device : ℕ
  pub command : ℕ

-- The first sectors of the partitions, of `struct hd_info`.
pub record HdInfo : Type 0 where
  pub primary : ℕ → ℕ
  pub logical : ℕ → ℕ

abbrev pub max_prim : ℕ
max_prim = 9

abbrev pub minor_hd1a : ℕ
minor_hd1a = 16

-- `DRV_OF_DEV`
abbrev pub drv_of_dev : ℕ → ℕ
drv_of_dev dev = if leb dev max_prim then dev / 5 else (dev - minor_hd1a) / 64

-- The first sector of a request, for a device below 9 or from 16 on; those between name no partition.
abbrev pub sect_nr_of : (ℕ → HdInfo) → Message → ℕ
sect_nr_of info m = add32 (m.position / 2 ^ 9 % 2 ^ 32) (
    if ltb m.device max_prim
    then (info (drv_of_dev m.device)).primary m.device
    else (info (drv_of_dev m.device)).logical ((m.device - minor_hd1a) % 64))

-- `MAKE_DEVICE_REG(1, drive, x)`, in the 8 bits of the register.
abbrev pub device_reg : ℕ → ℕ → ℕ
device_reg drive x = bit_or (bit_or (2 ^ 6) (drive * 2 ^ 4)) (bit_or (x % 16) 0xA0) % 256

-- The command for `hd_cmd_out`.
unfoldable pub cmd_of : (ℕ → HdInfo) → Message → HdCmd
cmd_of info m = record {
  features = 0;
  count = (m.cnt + sector_size - 1) / sector_size % 256;
  lba_low = sect_nr_of info m % 256;
  lba_mid = sect_nr_of info m / 2 ^ 8 % 256;
  lba_high = sect_nr_of info m / 2 ^ 16 % 256;
  device = device_reg (drv_of_dev m.device) (sect_nr_of info m / 2 ^ 24 % 16);
  command = if m.is_read then 0x20 else 0x30;
}

-- The ports of the disk: `hd_cmd_out`, `insw` and `outsw` of a sector, each with the interrupt that
-- the code waits for, and whether `waitfor` finds the disk ready for data.
pub record Ports (D : Type 0) : Type 0 where
  pub hd_cmd_out : HdCmd → D → D
  pub insw : D → List ℕ × D
  pub outsw : List ℕ → D → D
  pub waitfor : D → Bool

-- The memory, the disk, and the static buffer for a sector.
pub record Drive (D : Type 0) : Type 0 where
  pub mem : ℕ → ℕ
  pub disk : D
  pub hdbuf : List ℕ

module _ {D : Type 0} (port : Ports D) where
  abbrev pub read_sector : ℕ → ℕ → Drive D → Drive D
  read_sector bytes la d =
      let (w, disk1) = port.insw d.disk in
      record { mem = poke d.mem la (take bytes w); disk = disk1; hdbuf = w }

  abbrev pub write_sector : ℕ → ℕ → Drive D → Drive D
  write_sector bytes la d =
      let w = slice d.mem la bytes ++ drop bytes d.hdbuf in
      record { mem = d.mem; disk = port.outsw w d.disk; hdbuf = w }

  -- The loop over the sectors of a request, which has `bytes_left` bytes to go.
  unfoldable pub transfer : ℕ → Bool → ℤ → ℕ → Drive D → Outcome (Drive D)
  transfer zero is_read bytes_left la d = no_fuel
  transfer (suc fuel) is_read (pos zero) la d = ok d
  transfer (suc fuel) true (negsuc n) la d = fault
  transfer (suc fuel) false (negsuc n) la d = if port.waitfor d.disk then fault else panic
  transfer (suc fuel) true (pos (suc n)) la d =
      transfer fuel true (sub_ℕ (suc n) sector_size) (add32 la sector_size)
        (read_sector (if ltb sector_size (suc n) then sector_size else suc n) la d)
  transfer (suc fuel) false (pos (suc n)) la d =
      let rest =
        transfer fuel false (sub_ℕ (suc n) sector_size) (add32 la sector_size)
          (write_sector (if ltb sector_size (suc n) then sector_size else suc n) la d) in
      if port.waitfor d.disk then rest else panic

  -- `hd_rdwt_real`; a round of its loop takes a sector, and the last ones find 0 or less.
  unfoldable pub hd_rdwt_real : (ℕ → HdInfo) → RwInfo → Drive D → Outcome (Drive D)
  unfolding cmd_of transfer
  hd_rdwt_real info p d =
      transfer (p.msg.cnt / sector_size + 2) p.msg.is_read (pos p.msg.cnt) p.kbuf
        (record d { disk = port.hd_cmd_out (cmd_of info p.msg) d.disk })
