-- ===== src/Vfs/Counting.antt =====
-- A disk that only counts its changes, for the tests of pkg/vfs and of the servers over it.
use viking_ftpd.Prelude.{ℕ, suc, false, [], Bytes, if◌then◌else◌}
use viking_ftpd.Vfs.Bits.{is_write_flag}
use viking_ftpd.Vfs.Session.{ok, err, Afero}

pub data Fault : Type 0 where
  no_permission missing : Fault

-- the number of changes is the disk's state; a file handle is its path
abbrev pub counting : Afero ℕ Bytes ℕ Fault
counting = record {
  err_permission = Fault.no_permission;
  stat = λ p d. (err Fault.missing, d);
  open_file = λ p flag mode d. (ok p, if is_write_flag flag then suc d else d);
  open_reading = λ p d. (ok p, d);
  mkdir = λ p mode d. (ok tt, suc d);
  mkdir_all = λ p mode d. (ok tt, suc d);
  remove = λ p d. (ok tt, suc d);
  remove_all = λ p d. (ok tt, suc d);
  rename = λ p q d. (ok tt, suc d);
  chmod = λ p mode d. (ok tt, suc d);
  chown = λ p uid gid d. (ok tt, suc d);
  chtimes = λ p a m d. (ok tt, suc d);
  file_stat = λ h d. (ok (record { name = h; size = 5; is_dir = false }), d);
  readdir = λ h d. (ok [], d);
  truncate = λ h n d. (ok tt, suc d);
  close = λ h d. d;
}
