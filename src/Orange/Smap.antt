-- ===== src/Orange/Smap.antt =====
-- The map of sectors of kernel/fs.c: `alloc_smap_bit`, on the bytes of the sectors. The sector numbers
-- are `int`s that stay in their range, and the number of the first data sector is not 0.
use exp_memfs.Base.{◌==◌, if◌then◌else◌, ℕ, zero, suc, ◌+◌, ◌-◌, ◌*◌, ◌&&◌, List, [], ◌∷◌}
use exp_memfs.Orange.Imap.{MapDisk, write_map, first_zero, set_bit}

-- The bits from `k` on of a byte are set, until `n` of them are, in at most `m` rounds; the byte, and
-- how many bits are left.
unfoldable pub set_run : ℕ → ℕ → ℕ → ℕ → ℕ × ℕ
set_run zero k n b = (b, n)
set_run (suc m) k n b =
    let further = set_run m (suc k) (n - 1) (set_bit b k) in
    if n == 1 then (set_bit b k, 0) else further

-- The bytes of a sector, `free_sect_nr`, and `nr_sects_to_alloc`.
pub record Run : Type 0 where
  pub bytes : List ℕ
  pub free_sect_nr : ℕ
  pub left : ℕ

abbrev pub keep_byte : ℕ → Run → Run
keep_byte b r = record r { bytes = b ∷ r.bytes }

-- The loop over the bytes of a sector; `nr` is the number of the first bit of the next byte, and
-- `start` the number of the first data sector.
unfoldable pub fill_sector : ℕ → ℕ → ℕ → ℕ → List ℕ → Run
unfolding set_run
fill_sector start nr free n [] = record { bytes = []; free_sect_nr = free; left = n }
fill_sector start nr free n (b ∷ bs) =
    let k = if free == 0 then first_zero b else 0 in
    let free' = if free == 0 then nr + k + start - 1 else free in
    let (b', n') = set_run (8 - k) k n b in
    let skipped = fill_sector start (nr + 8) free n bs in
    let further = fill_sector start (nr + 8) free' n' bs in
    if n == 0
    then record { bytes = b ∷ bs; free_sect_nr = free; left = n }
    else if free == 0 && b == 0xFF
    then keep_byte b skipped
    else keep_byte b' further

-- The sector is written if a free bit was found in it or before it.
abbrev pub write_run : MapDisk → ℕ → ℕ → Run → MapDisk
write_run s dev nr r = if r.free_sect_nr == 0 then s else write_map s dev nr r.bytes

-- The loop over the sectors of the map, `count` of them from sector `i` on.
unfoldable pub fill_map : ℕ → ℕ → ℕ → ℕ → ℕ → MapDisk → ℕ × MapDisk
unfolding fill_sector
fill_map zero dev i free n s = (free, s)
fill_map (suc count) dev i free n s =
    let sb = s.super_block dev in
    let blk = 1 + 1 + sb.nr_imap_sects + i in
    let r = fill_sector sb.n_1st_sect (i * 512 * 8) free n (s.sect dev blk) in
    let s' = write_run s dev blk r in
    let further = fill_map count dev (suc i) r.free_sect_nr r.left s' in
    if r.left == 0 then (r.free_sect_nr, s') else further

unfoldable pub alloc_smap_bit : MapDisk → ℕ → ℕ → ℕ × MapDisk
unfolding fill_map
alloc_smap_bit s dev nr_sects_to_alloc =
    fill_map (s.super_block dev).nr_smap_sects dev 0 0 nr_sects_to_alloc s
