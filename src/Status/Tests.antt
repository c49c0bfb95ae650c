-- ===== src/Status/Tests.antt =====
-- pkg/status over a disk with a content for each path.
use viking_ftpd.Prelude.{
  ◌≡◌, Option, none, some, Bytes, codes, equal, equal_iff, equal_refl, if◌then◌else◌, if_true,
  if_false, Bool-cases, inl, inr, ◌≢◌, refl,
}
use viking_ftpd.Vfs.Session.{ok}
use viking_ftpd.Status.Writer.{StatusFiles, atomic_write}
use viking_ftpd.Status.Atomic.{IsDisk, IsAllOrNothing, atomic_write-IsAllOrNothing}
use viking_ftpd.Status.Writer.{Surroundings, Metrics}
use viking_ftpd.Status.Heartbeat.{
  Heart, new_heart, Steps, here, then_step, start_heartbeat, write_running, shut_down, see_stop,
  write_stop,
}
use viking_ftpd.Status.Heartbeat.Ended.{EndsWell, reached-EndsWell}

data Fault : Type 0 where
  full : Fault

abbrev Disk : Type 0
Disk = Bytes → Option Bytes

abbrev put : Bytes → Option Bytes → Disk → Disk
put p c d q = if equal p q then c else d q

abbrev read : Bytes → Disk → Option Bytes
read p d = d p

abbrev disk : StatusFiles Disk Fault
disk = record {
  write_file = λ p c d. (ok tt, put p (some c) d);
  rename = λ p q d. (ok tt, put q (d p) d);
  remove = λ p d. put p none d;
}

put_other : (p q : Bytes) (c : Option Bytes) (d : Disk) → p ≢ q → put p c d q ≡ d q
put_other p q c d h = elim (Bool-cases (equal p q)) [
  | inl same ↦ absurd (h ((equal_iff p q).0 same))
  | inr other ↦ if_false other c (d q)
]

disk-IsDisk : IsDisk disk read
disk-IsDisk = record {
  write_same = λ p c d h. if_true (equal_refl p) (some c) (d p);
  write_other = λ p q c d h. put_other p q (some c) d h;
  rename_moves = λ p q d h. if_true (equal_refl q) (d p) (d q);
  rename_fails = λ p q r d e h. absurd (cc);
  remove_other = λ p q d h. put_other p q none d h;
}

atomic_write-IsAllOrNothing_example :
    IsAllOrNothing disk read
      (codes "/running")
      (codes "x")
      (λ p. none)
      (atomic_write disk (codes "/running") (codes "x") (λ p. none))
atomic_write-IsAllOrNothing_example =
    atomic_write-IsAllOrNothing disk read disk-IsDisk (codes "/running") (codes "x") (λ p. none)

abbrev env : Surroundings
env = record {
  now = 1700000000000000000;
  human = codes "Tue Nov 14 22:13:20 2023";
  pid = 7;
  version = codes "dev";
  alloc = 0;
  sys = 0;
  goroutines = 3;
  gc_cpu_fraction = codes "0.000000";
}

abbrev idle : Metrics
idle = record { active = 0; total = 0; start_time = 0 }

-- the heartbeat writes once, and Shutdown begins while it waits for the next tick
closed_down : (h : Heart) × Steps new_heart h
closed_down = (
  _,
  then_step
      (then_step
        (then_step
          (then_step (then_step here (start_heartbeat new_heart refl refl))
            (write_running _ env idle refl))
          (shut_down _ refl))
        (see_stop _ refl refl))
      (write_stop _ env (codes "signal_terminated") 9 refl (inr refl)),
)

reached-EndsWell_example :
    EndsWell env idle (codes "signal_terminated") 9 closed_down.0 closed_down.0.closing
reached-EndsWell_example =
    reached-EndsWell env idle (codes "signal_terminated") 9 closed_down.0 closed_down.1
