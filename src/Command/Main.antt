-- ===== src/Command/Main.antt =====
-- cmd/vkftpd/main.go: RunE, from the command line to the exit. What the calls of the other packages
-- answer, and what ends the program, are read from the Surroundings; a run is the list of the calls
-- that took effect, in order, and the error that it returns. The lines of the log are left out.
pub mod Orderly
pub mod Runs
use viking_ftpd.Prelude.{
  ℕ, ◌*◌, Bool, true, false, not, Option, none, some, List, [], ◌∷◌, ◌++◌, if◌then◌else◌, is_nil,
  Bytes, codes, ℤ, pos, negsuc, suc, ◌-◌, ◌^◌, ◌%◌,
}
use viking_ftpd.Paths.{is_abs}
use viking_ftpd.Vfs.Session.{Outcome, ok, err}
use viking_ftpd.Sftp.Handlers.{to_int64}
use viking_ftpd.Sftp.HostKey.{KeyFiles, KeyFormat}
use viking_ftpd.Sftp.Server.{SftpConfig, SftpServer, NewError, new_sftp_server}
use viking_ftpd.Ftp.Driver.{FtpConfig, FtpServer, new_server}
use viking_ftpd.Command.Config.{Config, ConfigError, load_config, lt_int}

-- `time.Duration(n)*time.Second`, in nanoseconds, with the overflow of int64
unfoldable pub seconds : ℤ → ℤ
seconds (pos n) = to_int64 (n * 1000000000)
seconds (negsuc n) = to_int64 (2 ^ 64 - suc n * 1000000000 % 2 ^ 64)

abbrev pub ftp_config : Config → FtpConfig
ftp_config c = record {
  listen_addr = c.listen_addr;
  port = c.port;
  root_dir = c.ftp_root_dir;
  home_pattern = c.home_pattern;
  tls_cert_file = c.tls_cert_file;
  tls_key_file = c.tls_key_file;
  pasv_first = c.pasv_first;
  pasv_last = c.pasv_last;
  pasv_address = c.pasv_address;
  pasv_ip_verify = c.pasv_ip_verify;
  idle_timeout = seconds c.idle_timeout;
  max_connections = c.max_connections;
}

abbrev pub sftp_config : Config → SftpConfig
sftp_config c = record {
  listen_addr = c.sftp_listen_addr;
  port = c.sftp_port;
  root_dir = c.ftp_root_dir;
  home_pattern = c.home_pattern;
  host_key_file = c.ssh_host_key_file;
  idle_timeout = seconds c.idle_timeout;
  max_connections = c.max_connections;
}

-- the calls that take effect; a creation stands for a call of New without an error
pub data Effect : Type 0 where
  initialize_logging : Bytes → Bytes → Bytes → ℤ → ℤ → Effect
  create_authorizer : Bytes → Bytes → ℤ → Effect
  create_ftp : FtpConfig → Effect
  create_sftp : SftpConfig → Effect
  create_status : Bytes → Effect
  write_start_file start_heartbeat : Effect
  listen_ftp listen_sftp stop_ftp stop_sftp : Effect
  shutdown_status : Bytes → Effect
  shutdown_logging : Effect

-- what the select receives: the answer of a ListenAndServe, or a signal
pub data Ending (E : Type 0) : Type 0 where
  returned : Option E → Ending E
  signalled : Bytes → Ending E

pub data MainError (E : Type 0) : Type 0 where
  no_config_file no_absolute_path logging_failed ftp_failed : MainError E
  status_failed start_file_failed : MainError E
  config_failed : ConfigError → MainError E
  sftp_failed : NewError E → MainError E
  server_failed stop_failed : E → MainError E

-- `cfg_file` and `show_version` are the flags; `abs` is filepath.Abs, `exists` whether os.Stat
-- succeeds; then whether logging.Initialize, status.New and WriteStartFile succeed, and the answers
-- of the two Stops.
pub record Surroundings (K E : Type 0) : Type 0 where
  pub cfg_file : Bytes
  pub show_version : Bool
  pub abs : Bytes → Option Bytes
  pub read_file : Bytes → Option Bytes
  pub unmarshal : Bytes → Config → Option Config
  pub zero_config : Config
  pub exists : Bytes → Bool
  pub generated : Outcome E K
  pub version : Bytes
  pub now : ℕ
  pub initializes : Bool
  pub makes_status : Bool
  pub writes_start : Bool
  pub ending : Ending E
  pub ftp_stop : Option E
  pub sftp_stop : Option E

-- the error that RunE returns, none for nil
abbrev pub Run : Type 0 → Type 0
Run E = List Effect × Option (MainError E)

module _ {E : Type 0} where
  abbrev pub failed : MainError E → Run E
  failed e = ([], some e)

  -- effects before a run, and behind it: the deferred calls
  abbrev pub after : List Effect → Run E → Run E
  after es r = (es ++ r.0, r.1)

  abbrev pub deferred : List Effect → Run E → Run E
  deferred es r = (r.0 ++ es, r.1)

  -- the reason in the stop file
  abbrev pub reason_of : Ending E → Bytes
  reason_of (returned none) = codes "server_stopped"
  reason_of (returned (some e)) = codes "server_error"
  reason_of (signalled sig) = codes "signal_" ++ sig

  -- stopErr: the first error
  abbrev pub stop_error : Bool → Option E → Option E → Option E
  stop_error has_sftp (some e) sftp_stop = some e
  stop_error true none sftp_stop = sftp_stop
  stop_error false none sftp_stop = none

  abbrev pub stopping : Option E → Option (MainError E)
  stopping none = none
  stopping (some e) = some (MainError.stop_failed e)

  abbrev pub error_of : Bool → Ending E → Option E → Option E → Option (MainError E)
  error_of has_sftp (returned none) ftp_stop sftp_stop = none
  error_of has_sftp (returned (some e)) ftp_stop sftp_stop = some (MainError.server_failed e)
  error_of has_sftp (signalled sig) ftp_stop sftp_stop =
      stopping (stop_error has_sftp ftp_stop sftp_stop)

-- statusWriter.Shutdown: sync.Once lets the first call through, and no later one
abbrev pub shutdown : Bool → Bytes → List Effect
shutdown done reason = if done then [] else shutdown_status reason ∷ []

abbrev pub when : Bool → List Effect → List Effect
when b es = if b then es else []

module _ {K E : Type 0} where
  -- from the goroutines of the servers on: stopServers, and Shutdown before it
  unfoldable pub serve : Surroundings K E → Bool → Bool → Run E
  serve env has_sftp has_status = (
    listen_ftp
        ∷ (when has_sftp (listen_sftp ∷ [])
            ++ (when has_status (shutdown false (reason_of env.ending))
                ++ (stop_ftp ∷ when has_sftp (stop_sftp ∷ [])))),
    error_of has_sftp env.ending env.ftp_stop env.sftp_stop,
  )

  -- the status writer, whose deferred Shutdown runs at the end
  unfoldable pub with_status : Surroundings K E → Config → Bool → Run E
  unfolding serve
  with_status env c has_sftp =
      if is_nil c.status_dir
      then serve env has_sftp false
      else (if not env.makes_status
          then failed MainError.status_failed
          else after (create_status c.status_dir ∷ []) (
              if not env.writes_start
              then failed MainError.start_file_failed
              else after (write_start_file ∷ start_heartbeat ∷ [])
                  (deferred (shutdown true (codes "unexpected_exit")) (serve env has_sftp true))))

module _ {W K S E : Type 0} (fs : KeyFiles W E) (ssh : KeyFormat K S E) where
  -- sftpserver.New
  abbrev pub sftp_server_of :
      Surroundings K E → Config → W → Outcome (NewError E) (SftpServer S) × W
  sftp_server_of env c d =
      new_sftp_server fs ssh env.exists env.generated (sftp_config c) true env.version env.now d

  abbrev pub with_sftp_server :
      Surroundings K E → Config → Outcome (NewError E) (SftpServer S) → Run E
  with_sftp_server env c (err e) = failed (MainError.sftp_failed e)
  with_sftp_server env c (ok server) =
      after (create_sftp (sftp_config c) ∷ []) (with_status env c true)

  abbrev pub with_ftp_server : Surroundings K E → Config → W → Option FtpServer → Run E
  with_ftp_server env c d none = failed MainError.ftp_failed
  with_ftp_server env c d (some server) = after (create_ftp (ftp_config c) ∷ []) (
      if lt_int (pos 0) c.sftp_port
      then with_sftp_server env c (sftp_server_of env c d).0
      else with_status env c false)

  -- behind LoadConfig; logging.Shutdown is deferred
  abbrev pub with_config : Surroundings K E → W → Outcome ConfigError Config → Run E
  with_config env d (err e) = failed (MainError.config_failed e)
  with_config env d (ok c) =
      if not env.initializes
      then failed MainError.logging_failed
      else after
          (initialize_logging c.access_log_path c.app_log_path c.log_level c.max_log_size
              (seconds c.log_verify_interval)
            ∷ create_authorizer c.character_dir_path c.access_file_path
                (seconds c.access_cache_time)
            ∷ [])
          (deferred (shutdown_logging ∷ [])
            (with_ftp_server env c d (new_server env.exists (ftp_config c) env.version env.now)))

  abbrev pub with_path : Surroundings K E → W → Option Bytes → Run E
  with_path env d none = failed MainError.no_absolute_path
  with_path env d (some path) =
      with_config env d (load_config env.read_file env.unmarshal path env.zero_config)

  -- RunE
  unfoldable pub run : Surroundings K E → W → Run E
  unfolding with_status new_server new_sftp_server load_config seconds is_abs
  run env d =
      if env.show_version
      then ([], none)
      else (if is_nil env.cfg_file
          then failed MainError.no_config_file
          else with_path env d
              (if is_abs env.cfg_file then some env.cfg_file else env.abs env.cfg_file))
