-- ===== src/Command/Config.antt =====
-- cmd/vkftpd/config.go. os.ReadFile and json.Unmarshal are parameters.
use viking_ftpd.Prelude.{
  ℕ, Bool, not, ◌&&◌, ◌||◌, Option, none, some, [], ◌∷◌, ◌==◌, if◌then◌else◌, is_nil, Bytes, codes,
  ℤ, pos, le_int, eq_int,
}
use viking_ftpd.Paths.{is_abs, clean, join}
use viking_ftpd.Vfs.Session.{Outcome, ok, err}

-- type Config
pub record Config : Type 0 where
  pub listen_addr : Bytes
  pub port : ℤ
  pub max_connections : ℤ
  pub idle_timeout : ℤ
  pub ftp_root_dir : Bytes
  pub home_pattern : Bytes
  pub pasv_first : ℤ
  pub pasv_last : ℤ
  pub pasv_address : Bytes
  pub pasv_ip_verify : Bool
  pub tls_cert_file : Bytes
  pub tls_key_file : Bytes
  pub sftp_listen_addr : Bytes
  pub sftp_port : ℤ
  pub ssh_host_key_file : Bytes
  pub character_dir_path : Bytes
  pub access_file_path : Bytes
  pub character_cache_time : ℤ
  pub access_cache_time : ℤ
  pub access_log_path : Bytes
  pub app_log_path : Bytes
  pub log_level : Bytes
  pub max_log_size : ℤ
  pub log_verify_interval : ℤ
  pub status_dir : Bytes

pub data ConfigError : Type 0 where
  unreadable unparsable sftp_port_range negative_idle_timeout pasv_range : ConfigError

-- the bytes up to the last "/", with it
unfoldable pub up_to_slash : Bytes → Bytes
up_to_slash [] = []
up_to_slash (c ∷ s) =
    let rest = up_to_slash s in if is_nil rest then (if c == b'/' then c ∷ [] else []) else c ∷ rest

-- filepath.Dir
unfoldable pub dir : Bytes → Bytes
unfolding up_to_slash clean
dir path = clean (up_to_slash path)

-- `if !filepath.IsAbs(p) { p = filepath.Join(configDir, p) }`
unfoldable pub absolute : Bytes → Bytes → Bytes
unfolding is_abs join
absolute config_dir p = if is_abs p then p else join config_dir p

-- the same for a path that may be left out
unfoldable pub absolute_if_given : Bytes → Bytes → Bytes
unfolding absolute
absolute_if_given config_dir p = if is_nil p then p else absolute config_dir p

-- the relative paths of the file
unfoldable pub with_paths : Bytes → Config → Config
unfolding absolute absolute_if_given
with_paths config_dir c = record c {
  ftp_root_dir = absolute config_dir c.ftp_root_dir;
  character_dir_path = absolute config_dir c.character_dir_path;
  access_file_path = absolute config_dir c.access_file_path;
  access_log_path = absolute_if_given config_dir c.access_log_path;
  app_log_path = absolute_if_given config_dir c.app_log_path;
  status_dir = absolute_if_given config_dir c.status_dir;
  tls_cert_file = absolute_if_given config_dir c.tls_cert_file;
  tls_key_file = absolute_if_given config_dir c.tls_key_file;
}

abbrev pub host_key_path : Bytes → Bytes → Bytes
host_key_path config_dir p =
    if is_nil p then join config_dir (codes "vkftpd_host_key") else absolute config_dir p

-- the SFTP defaults, with sftp_port set only
unfoldable pub with_sftp : Bytes → Config → Config
unfolding absolute join
with_sftp config_dir c = if eq_int c.sftp_port (pos 0) then c else record c {
  sftp_listen_addr = if is_nil c.sftp_listen_addr then c.listen_addr else c.sftp_listen_addr;
  ssh_host_key_file = host_key_path config_dir c.ssh_host_key_file;
}

-- `if x == 0 { x = d }`
abbrev pub or_default : ℕ → ℤ → ℤ
or_default d x = if eq_int x (pos 0) then pos d else x

unfoldable pub with_defaults : Config → Config
with_defaults c = record c {
  port = or_default 2121 c.port;
  pasv_first = or_default 50000 c.pasv_first;
  pasv_last = or_default 50100 c.pasv_last;
  max_connections = or_default 10 c.max_connections;
  idle_timeout = or_default 300 c.idle_timeout;
  character_cache_time = or_default 60 c.character_cache_time;
  access_cache_time = or_default 60 c.access_cache_time;
  max_log_size = or_default 1000000 c.max_log_size;
  log_verify_interval = or_default 45 c.log_verify_interval;
}

-- a < b
abbrev pub lt_int : ℤ → ℤ → Bool
lt_int a b = not (le_int b a)

unfoldable pub validated : Config → Outcome ConfigError Config
validated c =
    if not (eq_int c.sftp_port (pos 0))
      && (lt_int c.sftp_port (pos 1) || lt_int (pos 65535) c.sftp_port)
    then err ConfigError.sftp_port_range
    else (if lt_int c.idle_timeout (pos 0)
        then err ConfigError.negative_idle_timeout
        else (if lt_int c.pasv_first (pos 1)
              || (lt_int (pos 65535) c.pasv_last || lt_int c.pasv_last c.pasv_first)
            then err ConfigError.pasv_range
            else ok c))

abbrev pub parsed_config : Bytes → Option Config → Outcome ConfigError Config
parsed_config path none = err ConfigError.unparsable
parsed_config path (some c) =
    validated (with_defaults (with_sftp (dir path) (with_paths (dir path) c)))

abbrev pub config_of :
    (Bytes → Config → Option Config) → Bytes → Config → Option Bytes → Outcome ConfigError Config
config_of unmarshal path config none = err ConfigError.unreadable
config_of unmarshal path config (some text) = parsed_config path (unmarshal text config)

unfoldable pub load_config :
    (Bytes → Option Bytes)
    → (Bytes → Config → Option Config)
    → Bytes
    → Config
    → Outcome ConfigError Config
unfolding with_defaults with_sftp with_paths dir validated
load_config read_file unmarshal path config = config_of unmarshal path config (read_file path)
