-- ===== src/Hd/Transfer.antt =====
-- The transfer of a request by `hd_rdwt_real` of kernel/hd.c.
use exp_memfs.Base.{
  ltb, if◌then◌else◌, length, get_or, take, length-append, add32, sub_ℕ, ok, fault, pos, negsuc, ℕ,
  zero, suc, ◌+◌, ◌-◌, ◌*◌, ◌/◌, ◌%◌, ◌^◌, ◌<◌, ◌≡◌, refl, ap, ◌∙◌, ◌≢◌, Bool, true, false, List,
  [], ◌∷◌, ◌++◌, arith,
}
use mathlib.Core.Bool.{true≢false}
use mathlib.Core.Path.{fun_ext, ap₂}
use exp_memfs.Ramfs.File.{poke}
use exp_memfs.Hd.{
  sector_size, RwInfo, HdInfo, cmd_of, Ports, Drive, read_sector, write_sector, transfer,
  hd_rdwt_real,
}

get_or-append :
    (xs ys : List ℕ) (i : ℕ)
    → get_or (xs ++ ys) i 0
      ≡ (if ltb i (length xs) then get_or xs i 0 else get_or ys (i - length xs) 0)
get_or-append [] ys i = ground arith
get_or-append (x ∷ xs) ys zero = ground arith
get_or-append (x ∷ xs) ys (suc i) = ground (arith, get_or-append xs ys i)

-- Bytes that are written behind others.
poke-append :
    (m : ℕ → ℕ) (a : ℕ) (xs ys : List ℕ)
    → poke (poke m a xs) (a + length xs) ys ≡ poke m a (xs ++ ys)
poke-append m a xs ys =
    fun_ext (λ x. ground (arith, get_or-append xs ys (x - a), length-append xs ys))

take-all : (xs : List ℕ) (n : ℕ) → length xs ≡ n → take n xs ≡ xs
take-all [] zero e = refl
take-all [] (suc n) e = refl
take-all (x ∷ xs) zero e = absurd (omega (arith, e))
take-all (x ∷ xs) (suc n) e = ap (λ r. x ∷ r) (take-all xs n (omega (arith, e)))

many : (n : ℕ) → 512 * suc n ≡ suc (512 * n + 511)
many n = omega arith

whole_left : (n : ℕ) → sub_ℕ (suc (512 * n + 511)) 512 ≡ pos (512 * n)
whole_left n = ground arith

whole_chunk : (n : ℕ) → (if ltb 512 (suc (512 * n + 511)) then 512 else suc (512 * n + 511)) ≡ 512
whole_chunk n = ground arith

module _ {D : Type 0} (port : Ports D) where
  -- A round of the loop, with so many bytes to go.
  abbrev pub one : Bool → ℕ → ℕ → Drive D → Drive D
  one true k la d = read_sector port k la d
  one false k la d = write_sector port k la d

  -- `n` whole sectors.
  abbrev pub sectors : Bool → ℕ → ℕ → Drive D → Drive D
  sectors b zero la d = d
  sectors b (suc n) la d = sectors b n (add32 la sector_size) (one b sector_size la d)

  transfer-step :
      (b : Bool) (fuel m la : ℕ) (d : Drive D)
      → (b ≡ false → (e : D) → port.waitfor e ≡ true)
      → transfer port (suc fuel) b (pos (suc m)) la d
        ≡ transfer port fuel b
            (sub_ℕ (suc m) 512)
            (add32 la sector_size)
            (one b (if ltb 512 (suc m) then 512 else suc m) la d)
  unfolding transfer
  transfer-step true fuel m la d w = refl
  transfer-step false fuel m la d w = rw (w refl d.disk) refl

  transfer-suc :
      (b : Bool) (fuel n la : ℕ) (d : Drive D)
      → (b ≡ false → (e : D) → port.waitfor e ≡ true)
      → transfer port (suc fuel) b (pos (512 * suc n)) la d
        ≡ transfer port fuel b (pos (512 * n)) (add32 la sector_size) (one b sector_size la d)
  transfer-suc b fuel n la d w =
      ap (λ k. transfer port (suc fuel) b (pos k) la d) (many n)
      ∙ transfer-step b fuel (512 * n + 511) la d w
      ∙ ap₂ (λ l k. transfer port fuel b l (add32 la sector_size) (one b k la d)) (whole_left n)
          (whole_chunk n)

  pub transfer-whole :
      (b : Bool) (n fuel la : ℕ) (d : Drive D)
      → n < fuel
      → (b ≡ false → (e : D) → port.waitfor e ≡ true)
      → transfer port fuel b (pos (512 * n)) la d ≡ ok (sectors b n la d)
  unfolding transfer
  transfer-whole b n zero la d h w = absurd (omega arith)
  transfer-whole true zero (suc fuel) la d h w = refl
  transfer-whole false zero (suc fuel) la d h w = refl
  transfer-whole b (suc n) (suc fuel) la d h w =
      transfer-suc b fuel n la d w
      ∙ transfer-whole b n fuel (add32 la sector_size) (one b sector_size la d) (omega arith) w

  -- A rest of less than a sector, which the last round takes below 0.
  transfer-rest :
      (k fuel la : ℕ) (d : Drive D)
      → suc k < 512
      → transfer port (suc (suc fuel)) true (pos (suc k)) la d ≡ fault
  unfolding transfer
  transfer-rest k fuel la d h =
      ap
        (λ l.
          transfer port (suc fuel) true l (add32 la sector_size)
            (one true (if ltb 512 (suc k) then 512 else suc k) la d))
        below
    where
      below : sub_ℕ (suc k) 512 ≡ negsuc (512 - suc k - 1)
      below = ground arith

  transfer-part :
      (n k fuel la : ℕ) (d : Drive D)
      → suc k < 512
      → suc n < fuel
      → transfer port fuel true (pos (512 * n + suc k)) la d ≡ fault
  transfer-part n k zero la d h f = absurd (omega arith)
  transfer-part n k (suc zero) la d h f = absurd (omega arith)
  transfer-part zero k (suc (suc fuel)) la d h f =
      ap (λ c. transfer port (suc (suc fuel)) true (pos c) la d) here ∙ transfer-rest k fuel la d h
    where
      here : 512 * 0 + suc k ≡ suc k
      here = omega arith
  transfer-part (suc n) k (suc (suc fuel)) la d h f =
      ap (λ c. transfer port (suc (suc fuel)) true (pos c) la d) here
      ∙ transfer-step true (suc fuel) (512 * n + suc k + 511) la d (λ q. absurd (true≢false q))
      ∙ ap
          (λ l. transfer port (suc fuel) true l (add32 la sector_size) (
            one true
              (if ltb 512 (suc (512 * n + suc k + 511)) then 512 else suc (512 * n + suc k + 511))
              la d))
          left
      ∙ transfer-part n k (suc fuel) (add32 la sector_size)
          (one true
            (if ltb 512 (suc (512 * n + suc k + 511)) then 512 else suc (512 * n + suc k + 511)) la
            d)
          h (omega arith)
    where
      here : 512 * suc n + suc k ≡ suc (512 * n + suc k + 511)
      here = omega arith

      left : sub_ℕ (suc (512 * n + suc k + 511)) 512 ≡ pos (512 * n + suc k)
      left = ground arith

  -- The bytes that the disk gives for `n` sectors, and the disk behind them.
  abbrev pub given : ℕ → D → List ℕ × D
  given zero e = ([], e)
  given (suc n) e = ((port.insw e).0 ++ (given n (port.insw e).1).0, (given n (port.insw e).1).1)

  length-given :
      (n : ℕ) (e : D)
      → ((e : D) → length (port.insw e).0 ≡ sector_size)
      → length (given n e).0 ≡ 512 * n
  length-given zero e s = omega arith
  length-given (suc n) e s =
      length-append (port.insw e).0 (given n (port.insw e).1).0
      ∙ omega (arith, s e, length-given n (port.insw e).1 s)

  sectors-given :
      (n la : ℕ) (d : Drive D)
      → ((e : D) → length (port.insw e).0 ≡ sector_size)
      → la + 512 * n < 2 ^ 32
      → ((sectors true n la d).mem ≡ poke d.mem la (given n d.disk).0)
        × ((sectors true n la d).disk ≡ (given n d.disk).1)
  sectors-given zero la d s h = (fun_ext (λ x. ground arith), refl)
  sectors-given (suc n) la d s h =
      let (m, e) =
        sectors-given n (add32 la sector_size) (one true sector_size la d) s (omega arith) in
      (
        m
            ∙ ap₂ (λ w a. poke (poke d.mem la w) a (given n (port.insw d.disk).1).0)
                (take-all (port.insw d.disk).0 512 (s d.disk)) (omega (arith, s d.disk))
            ∙ poke-append d.mem la (port.insw d.disk).0 (given n (port.insw d.disk).1).0,
        e,
      )

  -- A read of `n` whole sectors into a buffer that does not go round the end of the addresses returns,
  -- with the bytes of the disk's sectors one behind the other in the buffer and nothing else of the
  -- memory changed, if the disk gives 512 bytes for each sector after the command.
  pub hd_rdwt_real_reads :
      (info : ℕ → HdInfo) (p : RwInfo) (d : Drive D) (n : ℕ)
      → p.msg.is_read ≡ true
      → p.msg.cnt ≡ 512 * n
      → p.kbuf + 512 * n < 2 ^ 32
      → ((e : D) → length (port.insw e).0 ≡ sector_size)
      → (d' : Drive D) × (hd_rdwt_real port info p d ≡ ok d')
        × (d'.mem ≡ poke d.mem p.kbuf (given n (port.hd_cmd_out (cmd_of info p.msg) d.disk)).0)
        × (d'.disk ≡ (given n (port.hd_cmd_out (cmd_of info p.msg) d.disk)).1)
  unfolding hd_rdwt_real
  hd_rdwt_real_reads info p d n r c h s =
      let d1 = record d { disk = port.hd_cmd_out (cmd_of info p.msg) d.disk } in
      let (m, e) = sectors-given n p.kbuf d1 s h in
      (
        sectors true n p.kbuf d1,
        ap₂ (λ b k. transfer port (k / 512 + 2) b (pos k) p.kbuf d1) r c
            ∙ transfer-whole true n (512 * n / 512 + 2) p.kbuf d1 (omega arith)
                (λ q. absurd (true≢false q)),
        m,
        e,
      )

  -- A read of a number of bytes that is not a multiple of 512 is a fault: behind the last, partial
  -- sector the bytes left are not 0 but negative, and one more sector is waited for and copied with
  -- that count.
  pub hd_rdwt_real_part :
      (info : ℕ → HdInfo) (p : RwInfo) (d : Drive D)
      → p.msg.is_read ≡ true
      → p.msg.cnt % 512 ≢ 0
      → hd_rdwt_real port info p d ≡ fault
  unfolding hd_rdwt_real
  hd_rdwt_real_part info p d r c =
      let d1 = record d { disk = port.hd_cmd_out (cmd_of info p.msg) d.disk } in
      ap₂ (λ b l. transfer port (p.msg.cnt / 512 + 2) b (pos l) p.kbuf d1) r split
      ∙ transfer-part (p.msg.cnt / 512) (p.msg.cnt % 512 - 1) (p.msg.cnt / 512 + 2) p.kbuf d1
          (omega (arith, c)) (omega arith)
    where
      split : p.msg.cnt ≡ 512 * (p.msg.cnt / 512) + suc (p.msg.cnt % 512 - 1)
      split = omega (arith, c)
