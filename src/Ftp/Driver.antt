-- ===== src/Ftp/Driver.antt =====
-- pkg/ftpserver/server.go: ftpDriver, the calls that ftpserverlib makes of the program. Package
-- crypto/tls and the authenticator are parameters.
use viking_ftpd.Prelude.{
  ℕ, suc, Bool, true, false, ◌||◌, Option, none, some, [], ◌∷◌, ◌++◌, ◌==◌, if◌then◌else◌, is_nil,
  Bytes, codes, ◌/◌, ◌-◌, ℤ, pos, negsuc,
}
use viking_ftpd.Lpc.Decimal.{itoa}
use viking_ftpd.Vfs.Session.{Afero, Authority}
use viking_ftpd.Vfs.Operations.{resolve_home}
use viking_ftpd.Users.Types.{User}
use viking_ftpd.Status.ConnMetrics.{ConnMetrics, inc_active, dec_active, inc_total, set_start_time}
use viking_ftpd.Sftp.Connections.{over_max}
use viking_ftpd.Ftp.Client.{FtpClient}

-- type Config, but for a listener that is given; the idle timeout is in nanoseconds.
pub record FtpConfig : Type 0 where
  pub listen_addr : Bytes
  pub port : ℤ
  pub root_dir : Bytes
  pub home_pattern : Bytes
  pub tls_cert_file : Bytes
  pub tls_key_file : Bytes
  pub pasv_first : ℤ
  pub pasv_last : ℤ
  pub pasv_address : Bytes
  pub pasv_ip_verify : Bool
  pub idle_timeout : ℤ
  pub max_connections : ℤ

-- ClientConnected: whether the client is let in, and the counters. A refused client stays counted
-- as active up to ClientDisconnected.
unfoldable pub client_connected : ℕ → ConnMetrics → Bool × ConnMetrics
unfolding over_max
client_connected max m =
    let (active, m1) = inc_active m in
    if over_max max active then (false, m1) else (true, inc_total m1)

-- ClientDisconnected
abbrev pub client_disconnected : ConnMetrics → ConnMetrics
client_disconnected m = dec_active m

module _ {S W H T E : Type 0} where
  -- vfs.New and the working directory of a client that is let in
  abbrev pub client_of : Afero W H T E → Authority S → Bytes → Bytes × W → FtpClient S W H T E × W
  client_of jail authz user (home, d) = (
    record {
      fs = record { fs = jail; user = user; authz = authz; protocol = codes "ftp" };
      path = home;
    },
    d,
  )

  abbrev pub logged_in :
      Afero W H T E
      → Authority S
      → (Bytes → Bytes → Bytes)
      → FtpConfig
      → Bytes
      → Option User
      → W
      → Option (FtpClient S W H T E × W)
  logged_in jail authz sprintf config user none d = none
  logged_in jail authz sprintf config user (some u) d =
      some (client_of jail authz user (resolve_home jail sprintf config.home_pattern user d))

  -- AuthUser; `jail` is the filesystem rooted at the directory, and none is the error.
  unfoldable pub auth_user :
      (Bytes → Bytes → Option User)
      → Afero W H T E
      → Authority S
      → (Bytes → Bytes → Bytes)
      → FtpConfig
      → Bytes
      → Bytes
      → W
      → Option (FtpClient S W H T E × W)
  auth_user authenticate jail authz sprintf config user pass d =
      logged_in jail authz sprintf config user (authenticate user pass) d

-- What GetSettings sets of ftpserverlib.Settings from the configuration.
pub record Settings : Type 0 where
  pub listen_addr : Bytes
  pub first_port : ℤ
  pub last_port : ℤ
  pub idle_seconds : ℤ
  pub public_host : Bytes
  pub same_ip_required : Bool

-- a host with a colon stands in brackets
abbrev pub has_colon : Bytes → Bool
has_colon [] = false
has_colon (c ∷ s) = c == b':' || has_colon s

-- net.JoinHostPort
unfoldable pub join_host_port : Bytes → Bytes → Bytes
join_host_port host port =
    if has_colon host then b'[' ∷ (host ++ codes "]:" ++ port) else host ++ b':' ∷ port

-- Go's division of an int, which truncates towards 0
abbrev pub div_int : ℤ → ℕ → ℤ
div_int (pos n) d = pos (n / d)
div_int (negsuc n) d = let q = suc n / d in if q == 0 then pos 0 else negsuc (q - 1)

unfoldable pub get_settings : FtpConfig → Settings
unfolding join_host_port itoa
get_settings config = record {
  listen_addr = join_host_port config.listen_addr (itoa config.port);
  first_port = config.pasv_first;
  last_port = config.pasv_last;
  idle_seconds = div_int config.idle_timeout 1000000000;
  public_host = config.pasv_address;
  same_ip_required = config.pasv_ip_verify;
}

-- GetTLSConfig, with tls.LoadX509KeyPair; none is an error
unfoldable pub get_tls_config : {K : Type 0} → (Bytes → Bytes → Option K) → FtpConfig → Option K
get_tls_config load_key_pair config =
    if is_nil config.tls_cert_file || is_nil config.tls_key_file
    then none
    else load_key_pair config.tls_cert_file config.tls_key_file

-- type Server; the library's server holds no state of the program
pub record FtpServer : Type 0 where
  pub config : FtpConfig
  pub version : Bytes
  pub metrics : ConnMetrics

-- New, where `exists` says whether os.Stat succeeds; none is its error
unfoldable pub new_server : (Bytes → Bool) → FtpConfig → Bytes → ℕ → Option FtpServer
new_server exists config version now =
    if exists config.root_dir
    then some (record {
      config = config;
      version = version;
      metrics = set_start_time now (record { active = 0; total = 0; start_time = 0 });
    })
    else none
