-- ===== src/Ramfs/Tests.antt =====
-- The theorems on the RAM file system at a small table: cluster 0 is the root, clusters 1 and 2 are
-- a file of 5000 bytes, entry 3 is free.
use exp_memfs.Base.{
  ltb, if◌then◌else◌, Bool-cases, length, ok, pos, ℕ, zero, suc, ◌+◌, ◌/◌, ◌%◌, ◌≤◌, ◌<◌, ◌≡◌, refl,
  inl, inr, none, some, List, [], ◌∷◌, arith,
}
use exp_memfs.Memman.{Memman}
use exp_memfs.Ramfs.{
  Ram, Fat, Inode, Ref, rf_f, last, cluster_size, seek, page, rf_find_first_free_alloc,
}
use exp_memfs.Ramfs.Clusters.{Searches, rf_find_first_free_alloc_lem}
use exp_memfs.Ramfs.File.{Sys, set_pos, advance_file, rf_read, rf_write}
use exp_memfs.Ramfs.File.Content.{content, byte_at}
use exp_memfs.Ramfs.File.Put.{Separate}
use exp_memfs.Ramfs.File.Read.{IsOpen, Covers, rf_read_lem, rf_read_past_end}
use exp_memfs.Ramfs.File.Write.{rf_write_lem}

abbrev root_page : ℕ
root_page = 0xC1000000

abbrev first_page : ℕ
first_page = 0xC1001000

abbrev second_page : ℕ
second_page = 0xC1005000

abbrev pub table : List Fat
table =
    record { next_cluster = last; addr = root_page }
    ∷ record { next_cluster = 2; addr = first_page }
    ∷ record { next_cluster = last; addr = second_page }
    ∷ record { next_cluster = 0; addr = 0 }
    ∷ []

abbrev file : Inode
file = record {
  name = b'f' ∷ [];
  record_type = rf_f;
  p_size = 100;
  p_link_cnt = 104;
  open_cnt = 1;
  start_cluster = 1;
}

abbrev pages_left : Memman
pages_left = record {
  maxfrees = 1;
  lostsize = 0;
  losts = 0;
  free = record { addr = 0x1006000; size = 0x10000 } ∷ [];
}

abbrev ram : Ram
ram = record {
  man = pages_left;
  fat = table;
  mem = λ x. x % 251;
  recs = λ a i. file;
  cell = λ q. 5000;
}

abbrev pub entry : Ref
entry = (root_page, 1)

abbrev pub at : ℕ → Sys
at p = record {
  ram = ram;
  table = record { fd_mode = 2; fd_pos = p; fd_ram = some entry; flag = 1; dev_index = 5 } ∷ [];
  filp = some 0 ∷ none ∷ [];
  cwd = b'/' ∷ [];
}

pub at-IsOpen : (p : ℕ) → IsOpen (at p) 0 0 p entry
at-IsOpen p = record { slot = refl; node = refl; mode = refl; place = refl }

pub file-Covers : (n : ℕ) → n ≤ 8192 → Covers table 1 n
unfolding seek
file-Covers n h zero l = omega arith
file-Covers n h (suc zero) l = omega arith
file-Covers n h (suc (suc i)) l = absurd (omega arith)

page_of :
    (x : ℕ)
    → x < 8192
    → page table (seek table 1 (x / cluster_size))
      ≡ (if ltb x 4096 then first_page else second_page)
page_of x h = elim (Bool-cases (ltb x 4096)) [
  | inl low ↦ rw (low, below (ground arith)) (unfold seek in refl)
  | inr high ↦ rw (high, above (ground arith)) (unfold seek in refl)
]
  where
    below : x < 4096 → x / cluster_size ≡ 0
    below l = omega arith

    above : 4096 ≤ x → x / cluster_size ≡ 1
    above l = omega arith

file-Separate : Separate table 1 4100
file-Separate x y h k e = ground (arith, page_of x, page_of y)

rf_find_first_free_alloc_lem_example : Searches ram (rf_find_first_free_alloc ram)
rf_find_first_free_alloc_lem_example = rf_find_first_free_alloc_lem ram

-- Ten bytes across the boundary between the two clusters.
rf_read_lem_example :
    rf_read (at 4090) 0 10 ≡ ok (pos 10, content ram 1 4090 10, set_pos (at 4090) 0 4100)
rf_read_lem_example =
    rf_read_lem (at 4090) 0 0 4090 10 entry (at-IsOpen 4090) (omega arith) (omega arith)
      (file-Covers 4100 (omega arith))

-- A file of 5000 bytes gives 8000.
rf_read_past_end_example :
    (rf_read (at 0) 0 8000 ≡ ok (pos 8000, content ram 1 0 8000, set_pos (at 0) 0 8000))
    × (5000 < 0 + length (content ram 1 0 8000))
rf_read_past_end_example =
    rf_read_past_end (at 0) 0 0 0 8000 entry (at-IsOpen 0) (omega arith) (omega arith)
      (file-Covers 8000 (omega arith))

-- Four bytes across the boundary, looked at on the far side of it.
rf_write_lem_example :
    (ram' : Ram) × (rf_write (at 4094) 0 (1 ∷ 2 ∷ 3 ∷ 4 ∷ [])
      ≡ ok (pos 4, advance_file (at 4094) 0 entry 4094 4 ram'))
    × (ram'.fat ≡ table)
    × (byte_at ram' 1 4096 ≡ 3)
rf_write_lem_example =
    rf_write_lem (at 4094) 0 0 4094 4100 entry (1 ∷ 2 ∷ 3 ∷ 4 ∷ []) 4096 (at-IsOpen 4094)
      (omega arith) (omega arith) (file-Covers 4100 (omega arith)) file-Separate (omega arith)
