-- ===== src/Ftp/Client.antt =====
-- pkg/ftpserver/server.go: ftpClient, the filesystem that ftpserverlib sees.
use viking_ftpd.Prelude.{ℕ, List, if◌then◌else◌, Bytes, ℤ}
use viking_ftpd.Paths.{is_abs, clean, join}
use viking_ftpd.Vfs.Listing.{FileInfo}
use viking_ftpd.Vfs.Session.{Outcome, Fs, World}
use viking_ftpd.Vfs.Operations

-- type ftpClient; `path` is what cc.Path() answers, the working directory.
pub record FtpClient (S W H T E : Type 0) : Type 0 where
  pub fs : Fs S W H T E
  pub path : Bytes

-- resolvePath
unfoldable pub resolve_path : Bytes → Bytes → Bytes
unfolding is_abs clean join
resolve_path path name = if is_abs name then clean name else clean (join path name)

module _ {S W H T E : Type 0} (c : FtpClient S W H T E) where
  unfoldable pub read_dir : Bytes → World S W E → Outcome E (List FileInfo) × World S W E
  unfolding resolve_path
  read_dir name w = Operations.read_dir_sorted c.fs (resolve_path c.path name) w

  unfoldable pub open_reading : Bytes → World S W E → Outcome E H × World S W E
  unfolding resolve_path
  open_reading name w = Operations.open_reading c.fs (resolve_path c.path name) w

  unfoldable pub open_file : Bytes → ℕ → ℕ → World S W E → Outcome E H × World S W E
  unfolding resolve_path
  open_file name flag perm w = Operations.open_file c.fs (resolve_path c.path name) flag perm w

  unfoldable pub create : Bytes → World S W E → Outcome E H × World S W E
  unfolding resolve_path
  create name w = Operations.create c.fs (resolve_path c.path name) w

  unfoldable pub mkdir : Bytes → ℕ → World S W E → Outcome E (Unit {0}) × World S W E
  unfolding resolve_path
  mkdir name perm w = Operations.mkdir c.fs (resolve_path c.path name) perm w

  unfoldable pub mkdir_all : Bytes → ℕ → World S W E → Outcome E (Unit {0}) × World S W E
  unfolding resolve_path
  mkdir_all name perm w = Operations.mkdir_all c.fs (resolve_path c.path name) perm w

  unfoldable pub remove : Bytes → World S W E → Outcome E (Unit {0}) × World S W E
  unfolding resolve_path
  remove name w = Operations.remove c.fs (resolve_path c.path name) w

  unfoldable pub remove_all : Bytes → World S W E → Outcome E (Unit {0}) × World S W E
  unfolding resolve_path
  remove_all name w = Operations.remove_all c.fs (resolve_path c.path name) w

  unfoldable pub rename : Bytes → Bytes → World S W E → Outcome E (Unit {0}) × World S W E
  unfolding resolve_path
  rename old_name new_name w =
      Operations.rename c.fs (resolve_path c.path old_name) (resolve_path c.path new_name) w

  unfoldable pub stat : Bytes → World S W E → Outcome E FileInfo × World S W E
  unfolding resolve_path
  stat name w = Operations.stat c.fs (resolve_path c.path name) w

  unfoldable pub chmod : Bytes → ℕ → World S W E → Outcome E (Unit {0}) × World S W E
  unfolding resolve_path
  chmod name mode w = Operations.chmod c.fs (resolve_path c.path name) mode w

  unfoldable pub chown : Bytes → ℤ → ℤ → World S W E → Outcome E (Unit {0}) × World S W E
  unfolding resolve_path
  chown name uid gid w = Operations.chown c.fs (resolve_path c.path name) uid gid w

  unfoldable pub chtimes : Bytes → T → T → World S W E → Outcome E (Unit {0}) × World S W E
  unfolding resolve_path
  chtimes name atime mtime w = Operations.chtimes c.fs (resolve_path c.path name) atime mtime w
