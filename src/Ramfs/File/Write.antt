-- ===== src/Ramfs/File/Write.antt =====
-- `rf_write` of kernel/ramfs.c over a file that has its clusters.
use exp_memfs.Base.{
  ltb, leb, ◌==◌, if◌then◌else◌, ltb→lt, Bool-cases, length, get_or, take, drop, take-append-drop,
  length-take, length-drop, ◌>>=◌, ok, pos, ℕ, zero, suc, ◌+◌, ◌-◌, ◌*◌, ◌/◌, ◌%◌, ◌≤◌, ◌<◌, ◌≡◌,
  refl, sym, ap, ◌∙◌, ◌≢◌, inl, inr, false, ◌&&◌, some, List, arith,
}
use mathlib.Core.Path.{ap₂}
use native.Mathlib.Nat.{zero-add}
use exp_memfs.Ramfs.{Ram, Ref, cluster_size, last, next, page, seek}
use exp_memfs.Ramfs.Dir.{deref}
use exp_memfs.Ramfs.File.{
  Sys, pointed, not_null, advance_file, poke, extend, seek_write, write_loop, rf_write,
}
use exp_memfs.Ramfs.File.Content.{byte_at, seek-suc}
use exp_memfs.Ramfs.File.Put.{put, put-append, poke-put, Separate, put-addr_of}
use exp_memfs.Ramfs.File.Read.{IsOpen, Covers}

extend-next : (s : Ram) (c : ℕ) → next s.fat c ≢ last → extend s c ≡ (some (next s.fat c), s)
unfolding extend
extend-next s c h = ground arith

seek_write-seek :
    (k : ℕ) (s : Ram) (c : ℕ)
    → ((i : ℕ) → i ≤ k → seek s.fat c i ≢ last)
    → seek_write k s c ≡ (some (seek s.fat c k), s)
unfolding seek_write seek
seek_write-seek zero s c h = refl
seek_write-seek (suc k) s c h =
    rw (seek_write, here, extend-next s c (h 1 (omega arith)), extend-next s c (h 1 (omega arith)))
      (seek_write-seek k s (next s.fat c) (λ i l. h (suc i) (omega arith)))
  where
    here : (c == last) ≡ false
    here = ground (arith, h 0)

module _ (s : Ram) (c n : ℕ) (has : Covers s.fat c n) where
  -- The copy to the end of the cluster, and the rest behind it.
  whole :
      (m : ℕ → ℕ) (j off q : ℕ) (bytes : List ℕ)
      → off < cluster_size
      → q ≡ j * cluster_size + off
      → cluster_size - off ≤ length bytes
      → put s.fat c
          (poke m (page s.fat (seek s.fat c j) + off) (take (cluster_size - off) bytes))
          (q + (cluster_size - off))
          (drop (cluster_size - off) bytes)
        ≡ put s.fat c m q bytes
  whole m j off q bytes o e h =
      let front = cluster_size - off in
      let len = length-take front bytes h in
      ap (λ z. put s.fat c z (q + front) (drop front bytes))
        (poke-put s.fat c m j off q (take front bytes) (omega (arith, len)) e)
      ∙ ap (λ k. put s.fat c (put s.fat c m q (take front bytes)) (q + k) (drop front bytes))
          (sym len)
      ∙ sym (put-append s.fat c m q (take front bytes) (drop front bytes))
      ∙ ap (put s.fat c m q) (take-append-drop front bytes)

  write_loop-put :
      (fuel : ℕ) (m : ℕ → ℕ) (j off q : ℕ) (bytes : List ℕ) (w : ℕ)
      → off < cluster_size
      → q ≡ j * cluster_size + off
      → q + length bytes ≤ n
      → length bytes < fuel
      → write_loop fuel (record s { mem = m }) (seek s.fat c j) off bytes w
        ≡ ok (w + length bytes, record s { mem = put s.fat c m q bytes })
  unfolding write_loop
  write_loop-put zero m j off q bytes w o e h f = absurd (omega arith)
  write_loop-put (suc fuel) m j off q bytes w o e h f =
      elim (Bool-cases (ltb cluster_size (off + length bytes))) [
        | inr fits ↦
            rw (write_loop, fits)
              (ap (λ z. ok (w + length bytes, record s { mem = z }))
                (poke-put s.fat c m j off q bytes (ground arith) e))
        | inl more ↦
            let front = cluster_size - off in
            let long : cluster_size < off + length bytes =
              ltb→lt cluster_size (off + length bytes) more in
            let m1 = poke m (page s.fat (seek s.fat c j) + off) (take front bytes) in
            let s1 = record s { mem = m1 } in
            let step =
              extend-next s1 (seek s.fat c j)
                (rw (← seek-suc s.fat c j) (has (suc j) (ground arith))) in
            rw (write_loop, more, step, step, ← seek-suc s.fat c j)
              (write_loop-put fuel m1 (suc j) 0 (q + front) (drop front bytes) (w + front)
                  (omega arith) (omega arith) (omega (arith, length-drop front bytes))
                  (omega (arith, length-drop front bytes))
                ∙ ap₂ (λ l z. ok (l, record s { mem = z })) (omega (arith, length-drop front bytes))
                    (whole m j off q bytes o e (omega arith)))
      ]

-- The whole call, as a state.
pub rf_write-put :
    (s : Sys) (fd k p n : ℕ) (r : Ref) (bytes : List ℕ)
    → IsOpen s fd k p r
    → 0 < length bytes
    → p + length bytes ≤ n
    → Covers s.ram.fat (deref s.ram r).start_cluster n
    → rf_write s fd bytes
      ≡ ok (
        pos (length bytes),
        advance_file s k r p
            (length bytes)
            (record s.ram { mem = put s.ram.fat (deref s.ram r).start_cluster s.ram.mem p bytes }),
      )
unfolding rf_write
rf_write-put s fd k p n r bytes o h fits has =
    rw
      (
        rf_write, ◌>>=◌, pointed, o.slot, not_null, o.node, o.mode, o.place, found, o.place, found,
        loop,
      )
      (rw o.node)
  where
    c : ℕ
    c = (deref s.ram r).start_cluster

    found :
        seek_write (p / cluster_size) s.ram c ≡ (some (seek s.ram.fat c (p / cluster_size)), s.ram)
    found = seek_write-seek (p / cluster_size) s.ram c (λ i m. has i (omega arith))

    loop :
        write_loop
          (suc (length bytes))
          s.ram
          (seek s.ram.fat c (p / cluster_size))
          (p % cluster_size)
          bytes
          0
        ≡ ok (length bytes, record s.ram { mem = put s.ram.fat c s.ram.mem p bytes })
    loop =
        write_loop-put s.ram c n has (suc (length bytes)) s.ram.mem (p / cluster_size)
          (p % cluster_size) p bytes 0 (omega arith) (omega arith) (omega arith) (omega arith)
        ∙ ap (λ z. ok (z, record s.ram { mem = put s.ram.fat c s.ram.mem p bytes }))
            (zero-add (length bytes))

-- Writing a non-empty run of bytes to an open file whose chain already has clusters for its first
-- `n` bytes, those of the run included, each byte at an address of its own, never runs out of
-- rounds: it returns the full count and moves the position, and the size where it grows, behind the
-- run; each of the first `n` bytes of the file is then the run's where the run covers it, and as it
-- was elsewhere, and the cluster table is unchanged.
pub rf_write_lem :
    (s : Sys) (fd k p n : ℕ) (r : Ref) (bytes : List ℕ) (x : ℕ)
    → IsOpen s fd k p r
    → 0 < length bytes
    → p + length bytes ≤ n
    → Covers s.ram.fat (deref s.ram r).start_cluster n
    → Separate s.ram.fat (deref s.ram r).start_cluster n
    → x < n
    → (ram' : Ram) × (rf_write s fd bytes
        ≡ ok (pos (length bytes), advance_file s k r p (length bytes) ram'))
      × (ram'.fat ≡ s.ram.fat)
      × (byte_at ram' (deref s.ram r).start_cluster x ≡ (
          if leb p x && ltb x (p + length bytes)
          then get_or bytes (x - p) 0
          else byte_at s.ram (deref s.ram r).start_cluster x))
rf_write_lem s fd k p n r bytes x o h fits has apart l = (
  record s.ram { mem = put s.ram.fat (deref s.ram r).start_cluster s.ram.mem p bytes },
  rf_write-put s fd k p n r bytes o h fits has,
  refl,
  put-addr_of s.ram.fat (deref s.ram r).start_cluster n apart s.ram.mem p bytes x fits l,
)
