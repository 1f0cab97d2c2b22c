-- ===== src/Tty/Tests.antt =====
-- A terminal at small runs.
use exp_memfs.Base.{replicate, ok, fault, ◌≡◌, refl, List, [], ◌∷◌, arith}
use exp_memfs.Window.{steps, window}
use exp_memfs.Tty.{Tty, tty_in_bytes, init_tty, put_key, tty_dev_write, in_process}
use exp_memfs.Tty.Buffer.{IsTty}
use exp_memfs.Tty.Serve.{types, shows, reads, shown, got, run, serve, typed_shown_read, Event}

abbrev fresh_tty : Tty
fresh_tty = init_tty (replicate tty_in_bytes 0)

fresh_tty-IsTty : IsTty fresh_tty
unfolding steps
fresh_tty-IsTty = record {
  long = refl;
  few = omega arith;
  unread = omega arith;
  tail = omega arith;
  read = omega arith;
  head = refl;
  behind = refl;
}

-- Two keys are typed, one of them is shown, and both are read.
abbrev two_keys : List Event
two_keys = types b'l' ∷ types b's' ∷ shows ∷ reads 5 ∷ shows ∷ []

typed_shown_read_example : run two_keys fresh_tty ≡ ok (serve two_keys [] [])
unfolding window
typed_shown_read_example =
    typed_shown_read two_keys fresh_tty fresh_tty-IsTty tt
      (refl, omega arith, omega arith, (refl, omega arith, omega arith, tt))

ls_shown : serve two_keys [] [] ≡ shown b'l' ∷ got (b'l' ∷ b's' ∷ []) ∷ shown b's' ∷ []
unfolding serve
ls_shown = refl

-- A backspace at the end of the buffer, where it is the only key: the pointer goes in front.
backspace_faults :
    tty_dev_write
      (put_key (record fresh_tty { ibuf_head = 255; ibuf_tail = 255; ibuf_read = 255 }) 8)
    ≡ fault
unfolding tty_dev_write put_key
backspace_faults = refl

-- Enter ends the wait of a read.
enter_ends : (in_process (record fresh_tty { status = 5 }) 0x103).0.status ≡ 1
unfolding in_process put_key
enter_ends = refl
