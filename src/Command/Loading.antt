-- ===== src/Command/Loading.antt =====
-- cmd/vkftpd/config.go: what an accepted configuration promises.
use viking_ftpd.Prelude.{
  ℕ, zero, suc, ◌<◌, ◌≡◌, ◌⊎◌, refl, arith, Bool, true, false, not, ◌&&◌, ◌||◌, Option, none, some,
  ◌∷◌, [], if_true, if_false, is_nil, Bytes, codes, ℤ, pos, negsuc, le_int, eq_int, eq_int_iff,
  Bool-cases, Option-cases, inl, inr,
}
use mathlib.Core.Path.{subst}
use viking_ftpd.Paths.{is_abs, join}
use viking_ftpd.Paths.Joined.{clean-is_abs, join-is_abs}
use viking_ftpd.Vfs.Session.{ok}
use viking_ftpd.Command.Config.{
  Config, up_to_slash, dir, absolute, absolute_if_given, with_paths, host_key_path, with_sftp,
  or_default, with_defaults, lt_int, validated, parsed_config, load_config,
}

-- at least `m` and at most `n`
abbrev pub IsBetween : ℕ → ℕ → ℤ → Type 0
IsBetween m n x = (le_int (pos m) x ≡ true) × (le_int x (pos n) ≡ true)

-- left out, or absolute
abbrev pub IsOptional : Bytes → Type 0
IsOptional p = (p ≡ []) ⊎ (is_abs p ≡ true)

-- the numbers of a configuration that the servers are started with
pub record HasRanges (c : Config) : Type 0 where
  pub sftp : (c.sftp_port ≡ pos 0) ⊎ IsBetween 1 65535 c.sftp_port
  pub idle : le_int (pos 1) c.idle_timeout ≡ true
  pub first : IsBetween 1 65535 c.pasv_first
  pub last : IsBetween 1 65535 c.pasv_last
  pub ascending : le_int c.pasv_first c.pasv_last ≡ true
  pub limit : eq_int c.max_connections (pos 0) ≡ false
  pub command_port : eq_int c.port (pos 0) ≡ false

-- its paths
pub record HasPaths (c : Config) : Type 0 where
  pub root : is_abs c.ftp_root_dir ≡ true
  pub characters : is_abs c.character_dir_path ≡ true
  pub access : is_abs c.access_file_path ≡ true
  pub access_log : IsOptional c.access_log_path
  pub app_log : IsOptional c.app_log_path
  pub status : IsOptional c.status_dir
  pub cert : IsOptional c.tls_cert_file
  pub key : IsOptional c.tls_key_file

-- the host key's path, with SFTP on
abbrev pub HasHostKey : Config → Type 0
HasHostKey c = (c.sftp_port ≡ pos 0) ⊎ (is_abs c.ssh_host_key_file ≡ true)

-- the conditions that are tested at the end
abbrev sftp_bad : ℤ → Bool
sftp_bad x = not (eq_int x (pos 0)) && (lt_int x (pos 1) || lt_int (pos 65535) x)

abbrev range_bad : ℤ → ℤ → Bool
range_bad x y = lt_int x (pos 1) || (lt_int (pos 65535) y || lt_int y x)

sftp_accepted : (x : ℤ) → sftp_bad x ≡ false → (x ≡ pos 0) ⊎ IsBetween 1 65535 x
sftp_accepted (pos zero) h = inl refl
sftp_accepted (pos (suc n)) h = inr (ground arith)
sftp_accepted (negsuc n) h = absurd (ground arith)

idle_accepted :
    (x : ℤ) → lt_int (or_default 300 x) (pos 0) ≡ false → le_int (pos 1) (or_default 300 x) ≡ true
idle_accepted (pos zero) h = refl
idle_accepted (pos (suc n)) h = ground arith
idle_accepted (negsuc n) h = absurd (ground arith)

range_accepted :
    (x y : ℤ)
    → range_bad x y ≡ false
    → IsBetween 1 65535 x × IsBetween 1 65535 y × (le_int x y ≡ true)
range_accepted (pos m) (pos n) h = ground arith
range_accepted (pos m) (negsuc n) h = absurd (ground arith)
range_accepted (negsuc m) (pos n) h = absurd (ground arith)
range_accepted (negsuc m) (negsuc n) h = absurd (ground arith)

default-ne_zero : (d : ℕ) (x : ℤ) → 0 < d → eq_int (or_default d x) (pos 0) ≡ false
default-ne_zero d (pos zero) h = ground arith
default-ne_zero d (pos (suc n)) h = ground arith
default-ne_zero d (negsuc n) h = ground arith

-- what is returned was tested and is not changed
record IsTested (c d : Config) : Type 0 where
  same : c ≡ d
  sftp : sftp_bad c.sftp_port ≡ false
  idle : lt_int c.idle_timeout (pos 0) ≡ false
  range : range_bad c.pasv_first c.pasv_last ≡ false

validated-IsTested : (c d : Config) → validated c ≡ ok d → IsTested c d
unfolding validated
validated-IsTested c d h = elim (Bool-cases (sftp_bad c.sftp_port)) [
  | inl bad ↦ absurd (let x = rw bad at h in cc)
  | inr sftp ↦ elim (Bool-cases (lt_int c.idle_timeout (pos 0))) [
    | inl bad ↦ absurd (let x = rw (sftp, bad) at h in cc)
    | inr idle ↦ elim (Bool-cases (range_bad c.pasv_first c.pasv_last)) [
      | inl bad ↦ absurd (let x = rw (sftp, idle, bad) at h in cc)
      | inr range ↦
          let x = rw (sftp, idle, range) at h in
          record { same = cc; sftp = sftp; idle = idle; range = range }
    ]
  ]
]

-- after the defaults
tested-HasRanges :
    (c : Config)
    → sftp_bad c.sftp_port ≡ false
    → lt_int (or_default 300 c.idle_timeout) (pos 0) ≡ false
    → range_bad (or_default 50000 c.pasv_first) (or_default 50100 c.pasv_last) ≡ false
    → HasRanges (with_defaults c)
unfolding with_defaults
tested-HasRanges c g1 g2 g3 =
    let (first, last, ascending) =
      range_accepted (or_default 50000 c.pasv_first) (or_default 50100 c.pasv_last) g3 in
    record {
      sftp = sftp_accepted c.sftp_port g1;
      idle = idle_accepted c.idle_timeout g2;
      first = first;
      last = last;
      ascending = ascending;
      limit = default-ne_zero 10 c.max_connections (omega arith);
      command_port = default-ne_zero 2121 c.port (omega arith);
    }

validated-HasRanges : (c d : Config) → validated (with_defaults c) ≡ ok d → HasRanges d
unfolding with_defaults
validated-HasRanges c d h =
    let t = validated-IsTested (with_defaults c) d h in
    subst HasRanges t.same (tested-HasRanges c t.sftp t.idle t.range)

up_to_slash-is_abs : (p : Bytes) → is_abs p ≡ true → is_abs (up_to_slash p) ≡ true
unfolding up_to_slash is_abs
up_to_slash-is_abs [] h = absurd (cc)
up_to_slash-is_abs (c ∷ s) h = elim (Bool-cases (is_nil (up_to_slash s))) [
  | inl last ↦ rw (last, h) h
  | inr more ↦ rw more h
]

dir-is_abs : (p : Bytes) → is_abs p ≡ true → is_abs (dir p) ≡ true
unfolding dir
dir-is_abs p h = clean-is_abs (up_to_slash p) (up_to_slash-is_abs p h)

absolute-is_abs : (d p : Bytes) → is_abs d ≡ true → is_abs (absolute d p) ≡ true
unfolding absolute
absolute-is_abs d p h = elim (Bool-cases (is_abs p)) [
  | inl rooted ↦ rw (if_true rooted p (join d p)) rooted
  | inr relative ↦ rw (if_false relative p (join d p)) (join-is_abs d p h)
]

absolute_if_given-IsOptional : (d p : Bytes) → is_abs d ≡ true → IsOptional (absolute_if_given d p)
unfolding absolute_if_given
absolute_if_given-IsOptional d [] h = inl refl
absolute_if_given-IsOptional d (c ∷ p) h = inr (absolute-is_abs d (c ∷ p) h)

host_key_path-is_abs : (d p : Bytes) → is_abs d ≡ true → is_abs (host_key_path d p) ≡ true
host_key_path-is_abs d [] h = join-is_abs d (codes "vkftpd_host_key") h
host_key_path-is_abs d (c ∷ p) h = absolute-is_abs d (c ∷ p) h

with_paths-HasPaths : (d : Bytes) (c : Config) → is_abs d ≡ true → HasPaths (with_paths d c)
unfolding with_paths
with_paths-HasPaths d c h = record {
  root = absolute-is_abs d c.ftp_root_dir h;
  characters = absolute-is_abs d c.character_dir_path h;
  access = absolute-is_abs d c.access_file_path h;
  access_log = absolute_if_given-IsOptional d c.access_log_path h;
  app_log = absolute_if_given-IsOptional d c.app_log_path h;
  status = absolute_if_given-IsOptional d c.status_dir h;
  cert = absolute_if_given-IsOptional d c.tls_cert_file h;
  key = absolute_if_given-IsOptional d c.tls_key_file h;
}

with_sftp-HasPaths : (d : Bytes) (c : Config) → HasPaths c → HasPaths (with_sftp d c)
unfolding with_sftp
with_sftp-HasPaths d c f = elim (Bool-cases (eq_int c.sftp_port (pos 0))) [
  | inl off ↦ rw off f
  | inr on ↦ rw on record {
    root = f.root;
    characters = f.characters;
    access = f.access;
    access_log = f.access_log;
    app_log = f.app_log;
    status = f.status;
    cert = f.cert;
    key = f.key;
  }
]

with_defaults-HasPaths : (c : Config) → HasPaths c → HasPaths (with_defaults c)
unfolding with_defaults
with_defaults-HasPaths c f = record {
  root = f.root;
  characters = f.characters;
  access = f.access;
  access_log = f.access_log;
  app_log = f.app_log;
  status = f.status;
  cert = f.cert;
  key = f.key;
}

with_sftp-HasHostKey :
    (d : Bytes) (c : Config) → is_abs d ≡ true → HasHostKey (with_defaults (with_sftp d c))
unfolding with_sftp with_defaults
with_sftp-HasHostKey d c h = elim (Bool-cases (eq_int c.sftp_port (pos 0))) [
  | inl off ↦ rw off (inl ((eq_int_iff c.sftp_port (pos 0)).0 off))
  | inr on ↦ rw on (inr (host_key_path-is_abs d c.ssh_host_key_file h))
]

parsed_config-IsUsable :
    (path : Bytes) (o : Option Config) (d : Config)
    → is_abs path ≡ true
    → parsed_config path o ≡ ok d
    → HasRanges d × HasPaths d × HasHostKey d
parsed_config-IsUsable path none d h k = absurd (cc)
parsed_config-IsUsable path (some c) d h k =
    let rooted = dir-is_abs path h in
    let full = with_sftp (dir path) (with_paths (dir path) c) in
    let same = (validated-IsTested (with_defaults full) d k).same in
    let files =
      with_sftp-HasPaths (dir path) (with_paths (dir path) c)
        (with_paths-HasPaths (dir path) c rooted) in
    (
      validated-HasRanges full d k,
      subst HasPaths same (with_defaults-HasPaths full files),
      subst HasHostKey same (with_sftp-HasHostKey (dir path) (with_paths (dir path) c) rooted),
    )

-- A configuration that is accepted, from a file at an absolute path, has an SFTP port that is off or
-- in 1 to 65535, a positive idle timeout, an ascending range of passive ports in 1 to 65535, a
-- limit and a command port that are not 0; and each of its paths that is given is absolute, the
-- host key's if SFTP is on.
pub load_config-IsUsable :
    (read_file : Bytes → Option Bytes) (unmarshal : Bytes → Config → Option Config) (path : Bytes)
    (config d : Config)
    → is_abs path ≡ true
    → load_config read_file unmarshal path config ≡ ok d
    → HasRanges d × HasPaths d × HasHostKey d
unfolding load_config
load_config-IsUsable read_file unmarshal path config d h k = elim (Option-cases (read_file path)) [
  | inl no_file ↦ absurd (let x = rw no_file at k in cc)
  | inr (text, found) ↦ parsed_config-IsUsable path (unmarshal text config) d h (rw found at k)
]
