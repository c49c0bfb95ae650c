-- ===== src/Sftp/Server.antt =====
-- pkg/sftpserver/server.go: New. What golang.org/x/crypto/ssh does with the configuration is not
-- modelled; the configuration names the ways to log in that a client is offered.
use viking_ftpd.Prelude.{ℕ, Bool, not, ◌&&◌, if◌then◌else◌, is_nil, Bytes, ℤ}
use viking_ftpd.Vfs.Session.{Outcome, ok, err}
use viking_ftpd.Status.ConnMetrics.{ConnMetrics, set_start_time}
use viking_ftpd.Sftp.HostKey.{KeyFiles, KeyFormat, HostKeyError, load_or_generate_host_key}

-- type Config; the idle timeout is in nanoseconds
pub record SftpConfig : Type 0 where
  pub listen_addr : Bytes
  pub port : ℤ
  pub root_dir : Bytes
  pub home_pattern : Bytes
  pub host_key_file : Bytes
  pub idle_timeout : ℤ
  pub max_connections : ℤ

-- what New sets of ssh.ServerConfig
pub record SshConfig (K : Type 0) : Type 0 where
  pub max_auth_tries : ℕ
  pub offers_public_key : Bool
  pub host_key : K

-- type Server as New leaves it
pub record SftpServer (K : Type 0) : Type 0 where
  pub config : SftpConfig
  pub version : Bytes
  pub ssh_config : SshConfig K
  pub metrics : ConnMetrics

pub data NewError (E : Type 0) : Type 0 where
  no_root no_host_key_file : NewError E
  host_key : HostKeyError E → NewError E

module _ {W K S E : Type 0} (fs : KeyFiles W E) (ssh : KeyFormat K S E) where
  -- the public-key method needs the source of the characters and their homes
  abbrev pub ssh_config_of : SftpConfig → Bool → S → SshConfig S
  ssh_config_of config has_user_source key = record {
    max_auth_tries = 6;
    offers_public_key = has_user_source && not (is_nil config.home_pattern);
    host_key = key;
  }

  abbrev pub server_with :
      SftpConfig
      → Bool
      → Bytes
      → ℕ
      → Outcome (HostKeyError E) S × W
      → Outcome (NewError E) (SftpServer S) × W
  server_with config has_user_source version now (err e, d) = (err (NewError.host_key e), d)
  server_with config has_user_source version now (ok key, d) = (
    ok (record {
      config = config;
      version = version;
      ssh_config = ssh_config_of config has_user_source key;
      metrics = set_start_time now (record { active = 0; total = 0; start_time = 0 });
    }),
    d,
  )

  -- New, where `exists` says whether os.Stat succeeds
  unfoldable pub new_sftp_server :
      (Bytes → Bool)
      → Outcome E K
      → SftpConfig
      → Bool
      → Bytes
      → ℕ
      → W
      → Outcome (NewError E) (SftpServer S) × W
  unfolding load_or_generate_host_key
  new_sftp_server exists generated config has_user_source version now d =
      if not (exists config.root_dir)
      then (err NewError.no_root, d)
      else (if is_nil config.host_key_file
          then (err NewError.no_host_key_file, d)
          else server_with config has_user_source version now
              (load_or_generate_host_key fs ssh generated config.host_key_file d))
