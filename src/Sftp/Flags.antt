-- ===== src/Sftp/Flags.antt =====
-- pkg/sftpserver/handlers.go: the open flags of a request, as flags of os.OpenFile on Linux.
use viking_ftpd.Prelude.{ℕ, ◌+◌, ◌≡◌, arith, Bool, false, not, ◌&&◌, ◌||◌, if◌then◌else◌}
use viking_ftpd.Vfs.Bits.{bit, bit_and, is_write_flag}

-- sftp.FileOpenFlags
pub record FileOpenFlags : Type 0 where
  pub read : Bool
  pub write : Bool
  pub append : Bool
  pub creat : Bool
  pub trunc : Bool
  pub excl : Bool

-- flags |= value under a condition; the bits of `value` are not set yet
abbrev pub with_flag : Bool → ℕ → ℕ → ℕ
with_flag b value flags = if b then flags + value else flags

-- the access mode: os.O_RDWR, os.O_WRONLY or os.O_RDONLY
abbrev pub access_mode : FileOpenFlags → ℕ
access_mode p =
    if p.read && (p.write || p.append) then 2 else (if p.write || p.append then 1 else 0)

-- toOsFileFlags, with os.O_CREATE, os.O_TRUNC and os.O_EXCL
unfoldable pub to_os_file_flags : FileOpenFlags → ℕ
to_os_file_flags p =
    with_flag p.excl 128 (with_flag p.trunc 512 (with_flag p.creat 64 (access_mode p)))

-- The flags of os.OpenFile hold what the request asks for: WRONLY for writing or appending without
-- reading, RDWR with it, and CREATE, EXCL and TRUNC as asked; APPEND is never set. So pkg/vfs asks
-- for write permission exactly if the request writes, appends, creates or truncates.
pub to_os_file_flags-bit :
    (p : FileOpenFlags)
    → (bit 0 (to_os_file_flags p) ≡ ((p.write || p.append) && not p.read))
      × (bit 1 (to_os_file_flags p) ≡ ((p.write || p.append) && p.read))
      × (bit 6 (to_os_file_flags p) ≡ p.creat)
      × (bit 7 (to_os_file_flags p) ≡ p.excl)
      × (bit 9 (to_os_file_flags p) ≡ p.trunc)
      × (bit 10 (to_os_file_flags p) ≡ false)
      × (is_write_flag (to_os_file_flags p) ≡ (p.write || p.append || p.creat || p.trunc))
unfolding to_os_file_flags is_write_flag bit_and
to_os_file_flags-bit p = ground arith
