-- ===== src/Sftp/Handlers.antt =====
-- pkg/sftpserver/handlers.go: the handlers of the request server, over the FS of a session.
use viking_ftpd.Prelude.{
  ℕ, ◌-◌, ◌%◌, ◌^◌, Bool, ◌||◌, List, [], ◌∷◌, if◌then◌else◌, ltb, Bytes, codes, equal, ℤ, pos,
  negsuc,
}
use viking_ftpd.Vfs.Bits.{bit_and}
use viking_ftpd.Vfs.Listing.{FileInfo}
use viking_ftpd.Vfs.Session.{Outcome, ok, err, Fs, World, on_disk}
use viking_ftpd.Vfs.Operations.{
  stat, open_reading, open_file, read_dir_sorted, mkdir, remove, rename, chmod, chtimes, closed,
}
use viking_ftpd.Sftp.Flags.{FileOpenFlags, to_os_file_flags}

-- The statuses of sftp.ErrSSHFx that the handlers answer with.
pub data SftpError : Type 0 where
  no_such_file permission_denied failure op_unsupported : SftpError

-- errors.Is(err, os.ErrNotExist), errors.Is(err, os.ErrPermission) and time.Unix(s, 0)
pub record Surroundings (T E : Type 0) : Type 0 where
  pub is_not_exist : E → Bool
  pub is_permission : E → Bool
  pub unix : ℕ → T

-- translateError on an error that is not nil
unfoldable pub translate_error : {T E : Type 0} → Surroundings T E → E → SftpError
translate_error env e =
    if env.is_not_exist e
    then SftpError.no_such_file
    else (if env.is_permission e then SftpError.permission_denied else SftpError.failure)

-- What the handlers read of sftp.Request; the sizes and times are unsigned.
pub record SftpRequest : Type 0 where
  pub method : Bytes
  pub filepath : Bytes
  pub target : Bytes
  pub pflags : FileOpenFlags
  pub has_size : Bool
  pub has_permissions : Bool
  pub has_acmodtime : Bool
  pub size : ℕ
  pub mode : ℕ
  pub atime : ℕ
  pub mtime : ℕ

-- int64 of a uint64
abbrev pub to_int64 : ℕ → ℤ
to_int64 n = let m = n % 2 ^ 64 in if ltb m (2 ^ 63) then pos m else negsuc (2 ^ 64 - m - 1)

-- `if err := …; err != nil { return … }`, or on to the rest
abbrev pub then_next :
    {X S W E : Type 0}
    → Outcome X (Unit {0}) × World S W E
    → (World S W E → Outcome X (Unit {0}) × World S W E)
    → Outcome X (Unit {0}) × World S W E
then_next (ok x, w) next = next w
then_next (err e, w) next = (err e, w)

abbrev pub translated :
    {S W T E A : Type 0}
    → Surroundings T E
    → Outcome E A × World S W E
    → Outcome SftpError A × World S W E
translated env (ok x, w) = (ok x, w)
translated env (err e, w) = (err (translate_error env e), w)

-- listerAt{fi}
abbrev pub one_entry :
    {S W E : Type 0}
    → Outcome SftpError FileInfo × World S W E
    → Outcome SftpError (List FileInfo) × World S W E
one_entry (ok fi, w) = (ok (fi ∷ []), w)
one_entry (err e, w) = (err e, w)

module _ {S W H T E : Type 0} where
  -- Fileread
  unfoldable pub fileread :
      Surroundings T E
      → Fs S W H T E
      → SftpRequest
      → World S W E
      → Outcome SftpError H × World S W E
  fileread env f r w = translated env (open_reading f r.filepath w)

  -- openForWrite, which Filewrite and OpenFile call
  unfoldable pub open_for_write :
      Surroundings T E
      → Fs S W H T E
      → SftpRequest
      → World S W E
      → Outcome SftpError H × World S W E
  open_for_write env f r w =
      translated env (open_file f r.filepath (to_os_file_flags r.pflags) 511 w)

  -- Truncate and Close of the file that setstat opened
  abbrev pub truncated :
      Fs S W H T E → ℤ → Outcome E H × World S W E → Outcome E (Unit {0}) × World S W E
  truncated f n (ok file, w) =
      let (o, w1) = on_disk (f.fs.truncate file n) w in (o, closed f file w1)
  truncated f n (err e, w) = (err e, w)

  -- the three parts of setstat
  abbrev pub set_size :
      Surroundings T E
      → Fs S W H T E
      → SftpRequest
      → World S W E
      → Outcome SftpError (Unit {0}) × World S W E
  set_size env f r w =
      if r.has_size
      then translated env (truncated f (to_int64 r.size) (open_file f r.filepath 1 0 w))
      else (ok tt, w)

  abbrev pub set_permissions :
      Surroundings T E
      → Fs S W H T E
      → SftpRequest
      → World S W E
      → Outcome SftpError (Unit {0}) × World S W E
  set_permissions env f r w =
      if r.has_permissions
      then translated env (chmod f r.filepath (bit_and 32 r.mode 511) w)
      else (ok tt, w)

  abbrev pub set_times :
      Surroundings T E
      → Fs S W H T E
      → SftpRequest
      → World S W E
      → Outcome SftpError (Unit {0}) × World S W E
  set_times env f r w =
      if r.has_acmodtime
      then translated env (chtimes f r.filepath (env.unix r.atime) (env.unix r.mtime) w)
      else (ok tt, w)

  unfoldable pub setstat :
      Surroundings T E
      → Fs S W H T E
      → SftpRequest
      → World S W E
      → Outcome SftpError (Unit {0}) × World S W E
  setstat env f r w =
      then_next (set_size env f r w)
        (λ w1. then_next (set_permissions env f r w1) (λ w2. set_times env f r w2))

  -- Filecmd: any other method, and so Link and Symlink, is refused
  unfoldable pub filecmd :
      Surroundings T E
      → Fs S W H T E
      → SftpRequest
      → World S W E
      → Outcome SftpError (Unit {0}) × World S W E
  unfolding setstat
  filecmd env f r w =
      if equal r.method (codes "Setstat")
      then setstat env f r w
      else (if equal r.method (codes "Rename") || equal r.method (codes "PosixRename")
          then translated env (rename f r.filepath r.target w)
          else (if equal r.method (codes "Remove") || equal r.method (codes "Rmdir")
              then translated env (remove f r.filepath w)
              else (if equal r.method (codes "Mkdir")
                  then translated env (mkdir f r.filepath 493 w)
                  else (err SftpError.op_unsupported, w))))

  -- Filelist: any other method, and so Readlink, is refused
  unfoldable pub filelist :
      Surroundings T E
      → Fs S W H T E
      → SftpRequest
      → World S W E
      → Outcome SftpError (List FileInfo) × World S W E
  filelist env f r w =
      if equal r.method (codes "List")
      then translated env (read_dir_sorted f r.filepath w)
      else (if equal r.method (codes "Stat")
          then one_entry (translated env (stat f r.filepath w))
          else (err SftpError.op_unsupported, w))
