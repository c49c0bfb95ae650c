-- ===== src/Sftp/Login.antt =====
-- pkg/sftpserver/server.go: the password login, and the filesystem that a session gets.
use viking_ftpd.Prelude.{Bool, true, false, Option, none, some, Bytes, codes}
use viking_ftpd.Vfs.Session.{Afero, Authority, Fs}
use viking_ftpd.Vfs.Operations.{resolve_home}
use viking_ftpd.Users.Types.{User, Loaded}
use viking_ftpd.Authentication.Authenticator.{authenticate}

-- The status of LogAuth's line; a refused client is told no more than "authentication failed".
abbrev pub is_success : Option User → Bool
is_success none = false
is_success (some user) = true

-- passwordCallback over the program's Authenticator
unfoldable pub password_callback :
    (Bytes → Loaded User) → (Bytes → Bytes → Bool) → Bytes → Bytes → Bool
unfolding authenticate
password_callback load_user verify user pass =
    is_success (authenticate load_user verify user pass).answer

-- what serveSFTP hands to the request server: the handlers' FS and the start directory
pub record SftpSession (S W H T E : Type 0) : Type 0 where
  pub fs : Fs S W H T E
  pub start_directory : Bytes

module _ {S W H T E : Type 0} where
  abbrev pub session_in :
      Afero W H T E → Authority S → Bytes → Bytes × W → SftpSession S W H T E × W
  session_in jail authz user (home, d) = (
    record {
      fs = record { fs = jail; user = user; authz = authz; protocol = codes "sftp" };
      start_directory = home;
    },
    d,
  )

  -- serveSFTP; `jail` is the filesystem rooted at the directory
  unfoldable pub serve_sftp :
      Afero W H T E
      → Authority S
      → (Bytes → Bytes → Bytes)
      → Bytes
      → Bytes
      → W
      → SftpSession S W H T E × W
  unfolding resolve_home
  serve_sftp jail authz sprintf home_pattern user d =
      session_in jail authz user (resolve_home jail sprintf home_pattern user d)
