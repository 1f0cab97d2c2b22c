-- ===== src/Spinlock/Tests.antt =====
-- The spin lock taken by one processor while another one spins.
use exp_memfs.Base.{◌≤◌, ◌≡◌, refl}
use exp_memfs.Spinlock.{Spinlock, initlock, acquire_round}
use exp_memfs.Spinlock.Exclusion.{Runs, start, enters, spins, exclusion}

abbrev contended : Spinlock
unfolding acquire_round initlock
contended = (acquire_round (acquire_round initlock).1).1

contended-Runs : Runs contended 1
unfolding acquire_round initlock contended
contended-Runs = spins (acquire_round initlock).1 1 (enters initlock 0 start refl) refl

exclusion_example : (contended.locked ≡ 1) × (1 ≤ 1)
exclusion_example = exclusion contended 1 contended-Runs
