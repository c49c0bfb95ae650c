-- ===== src/Command/Tests.antt =====
-- cmd/vkftpd at a concrete configuration.
use viking_ftpd.Prelude.{
  ℕ, ◌≡◌, refl, true, false, none, some, List, [], ◌∷◌, codes, equal, pos, negsuc,
}
use viking_ftpd.Paths.{is_abs}
use viking_ftpd.Vfs.Session.{ok}
use viking_ftpd.Sftp.HostKey.{KeyFiles, KeyFormat}
use viking_ftpd.Command.Config.{
  Config, load_config, with_paths, with_sftp, with_defaults, dir, validated,
}
use viking_ftpd.Command.Loading.{HasRanges, HasPaths, HasHostKey, load_config-IsUsable}
use viking_ftpd.Command.Main
use viking_ftpd.Command.Main.{
  Effect, create_authorizer, create_ftp, create_sftp, initialize_logging, listen_ftp, listen_sftp,
  stop_ftp, stop_sftp, shutdown_logging, create_status, write_start_file, start_heartbeat,
  shutdown_status, signalled, run, seconds, ftp_config, sftp_config,
}

abbrev written : Config
written = record {
  listen_addr = codes "0.0.0.0";
  port = pos 0;
  max_connections = pos 0;
  idle_timeout = pos 0;
  ftp_root_dir = codes "mud";
  home_pattern = codes "players/%s";
  pasv_first = pos 0;
  pasv_last = pos 0;
  pasv_address = [];
  pasv_ip_verify = false;
  tls_cert_file = [];
  tls_key_file = [];
  sftp_listen_addr = [];
  sftp_port = pos 2222;
  ssh_host_key_file = [];
  character_dir_path = codes "mud/characters";
  access_file_path = codes "/mud/access.o";
  character_cache_time = pos 0;
  access_cache_time = pos 0;
  access_log_path = [];
  app_log_path = codes "app.log";
  log_level = codes "info";
  max_log_size = pos 0;
  log_verify_interval = pos 0;
  status_dir = [];
}

-- what the program runs with
abbrev usable : Config
usable = with_defaults (
    with_sftp (dir (codes "/etc/vkftpd.json"))
      (with_paths (dir (codes "/etc/vkftpd.json")) written))

loads :
    load_config (λ p. some []) (λ text c. some written) (codes "/etc/vkftpd.json") written
    ≡ ok usable
unfolding load_config validated with_defaults with_sftp with_paths
loads = refl

load_config-IsUsable_example : HasRanges usable × HasPaths usable × HasHostKey usable
unfolding is_abs
load_config-IsUsable_example =
    load_config-IsUsable (λ p. some []) (λ text c. some written) (codes "/etc/vkftpd.json") written
      usable refl loads

-- a disk with a host key, and keys that are numbers
abbrev with_key : KeyFiles (Unit {0}) (Unit {0})
with_key = record {
  read_file = λ p d. ok (7 ∷ []);
  is_not_exist = λ e. true;
  permissions = λ p d. ok 384;
  write_file = λ p c m d. (ok tt, d);
}

abbrev any_key : KeyFormat ℕ ℕ (Unit {0})
any_key = record { parse = λ c. ok 7; marshal = λ k. ok []; signer_of = λ k. ok k }

-- both servers and the status files, up to a signal
abbrev terminated : Main.Surroundings ℕ (Unit {0})
terminated = record {
  cfg_file = codes "/etc/vkftpd.json";
  show_version = false;
  abs = λ p. some p;
  read_file = λ p. some [];
  unmarshal = λ text c. some (record written { status_dir = codes "status" });
  zero_config = written;
  exists = λ p. true;
  generated = ok 7;
  version = codes "dev";
  now = 5;
  initializes = true;
  makes_status = true;
  writes_start = true;
  ending = signalled (codes "terminated");
  ftp_stop = none;
  sftp_stop = none;
}

abbrev with_status_dir : Config
with_status_dir = record usable { status_dir = codes "/etc/status" }

abbrev expected : List Effect
expected =
    initialize_logging [] (codes "/etc/app.log") (codes "info") (pos 1000000) (pos 45000000000)
    ∷ create_authorizer (codes "/etc/mud/characters") (codes "/mud/access.o") (pos 60000000000)
    ∷ create_ftp (ftp_config with_status_dir)
    ∷ create_sftp (sftp_config with_status_dir)
    ∷ create_status (codes "/etc/status")
    ∷ write_start_file
    ∷ start_heartbeat
    ∷ listen_ftp
    ∷ listen_sftp
    ∷ shutdown_status (codes "signal_terminated")
    ∷ stop_ftp
    ∷ stop_sftp
    ∷ shutdown_logging
    ∷ []

runs : run with_key any_key terminated tt ≡ (expected, none)
unfolding run validated with_defaults with_sftp with_paths equal
runs = refl

-- an idle timeout of 300 years is negative in nanoseconds
idle_overflow : seconds (pos 9460800000) ≡ negsuc 8985944073709551615
unfolding seconds
idle_overflow = refl
