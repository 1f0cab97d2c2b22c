-- ===== src/Orange/Imap.antt =====
-- The map of inodes of kernel/fs.c: `alloc_imap_bit`, and the part of `do_unlink` that frees a bit. A
-- sector is the list of its bytes.
use exp_memfs.Base.{
  ◌==◌, if◌then◌else◌, get_or, set, Outcome, ok, panic, ℕ, zero, suc, ◌+◌, ◌-◌, ◌*◌, ◌/◌, ◌%◌, ◌^◌,
  true, false, ◌&&◌, Option, none, some, List, [], ◌∷◌,
}
use Prim.Native.Nat.{bit_or, bit_and}
use exp_memfs.Orange.{SuperBlock}

-- The super block and the bytes of the sectors of each device.
pub record MapDisk : Type 0 where
  pub super_block : ℕ → SuperBlock
  pub sect : ℕ → ℕ → List ℕ

abbrev pub write_map : MapDisk → ℕ → ℕ → List ℕ → MapDisk
write_map s dev nr bytes = record s {
  sect = λ d n. if d == dev && n == nr then bytes else s.sect d n;
}

-- `for (k = 0; ((b >> k) & 1) != 0; k++)`, for at most `n` rounds; a byte other than 0xFF has a 0.
abbrev pub skip_ones : ℕ → ℕ → ℕ
skip_ones zero b = 0
skip_ones (suc n) b = if b % 2 == 0 then 0 else suc (skip_ones n (b / 2))

abbrev pub first_zero : ℕ → ℕ
first_zero b = skip_ones 8 b

abbrev pub set_bit : ℕ → ℕ → ℕ
set_bit b k = bit_or b (2 ^ k)

-- The loop over the bytes of the sector, from byte `j` on: the number of the bit, and the bytes.
-- `none`: every bit is 1.
unfoldable pub take_bit : ℕ → List ℕ → Option (ℕ × List ℕ)
take_bit j [] = none
take_bit j (b ∷ bs) =
    let further = take_bit (suc j) bs in
    if b == 0xFF
    then elim further [ none ↦ none | some (nr, bs') ↦ some (nr, b ∷ bs') ]
    else some (j * 8 + first_zero b, set_bit b (first_zero b) ∷ bs)

-- `alloc_imap_bit`, which returns behind the first sector of the map.
unfoldable pub alloc_imap_bit : MapDisk → ℕ → Outcome (ℕ × MapDisk)
unfolding take_bit
alloc_imap_bit s dev = elim ((s.super_block dev).nr_imap_sects == 0) [
  | true ↦ panic
  | false ↦ elim (take_bit 0 (s.sect dev 2)) [
    | none ↦ ok (0, s)
    | some (nr, bytes) ↦ ok (nr, write_map s dev 2 bytes)
  ]
]

-- `b & ~(1 << k)`
abbrev pub clear_bit : ℕ → ℕ → ℕ
clear_bit b k = bit_and b (255 - 2 ^ k)

-- The part of `do_unlink` for the map of inodes.
unfoldable pub free_imap_bit : MapDisk → ℕ → ℕ → MapDisk
free_imap_bit s dev inode_nr =
    let bytes = s.sect dev 2 in
    let byte_idx = inode_nr / 8 % 512 in
    write_map s dev 2 (set bytes byte_idx (clear_bit (get_or bytes byte_idx 0) (inode_nr % 8)))
