-- ===== src/Vfs/Session.antt =====
-- pkg/vfs/vfs.go: the FS of one session, and the two interfaces it stands on. The Authorizer
-- interface and afero.Fs are the records `Authority` and `Afero`, each with a state of its own.
use viking_ftpd.Prelude.{ℕ, Bool, List, [], ◌∷◌, ◌++◌, Bytes, ℤ}
use viking_ftpd.Vfs.Listing.{FileInfo}

pub data Outcome {ℓ κ} (E : Type ℓ) (A : Type κ) : Type (ℓ ⊔ κ) where
  ok : A → Outcome E A
  err : E → Outcome E A

-- The interface Authorizer: an answer may change the state `S`, as a cache's refresh does.
pub record Authority (S : Type 0) : Type 0 where
  pub can_read : Bytes → Bytes → S → Bool × S
  pub can_write : Bytes → Bytes → S → Bool × S

-- What the FS calls of afero.Fs, rooted at the jail, and of afero.File: `W` is the state of the
-- disk, `H` an open file, `T` a time and `E` Go's error. Modes and flags are their bits.
pub record Afero (W H T E : Type 0) : Type 0 where
  pub err_permission : E
  pub stat : Bytes → W → Outcome E FileInfo × W
  pub open_file : Bytes → ℕ → ℕ → W → Outcome E H × W
  pub open_reading : Bytes → W → Outcome E H × W
  pub mkdir : Bytes → ℕ → W → Outcome E (Unit {0}) × W
  pub mkdir_all : Bytes → ℕ → W → Outcome E (Unit {0}) × W
  pub remove : Bytes → W → Outcome E (Unit {0}) × W
  pub remove_all : Bytes → W → Outcome E (Unit {0}) × W
  pub rename : Bytes → Bytes → W → Outcome E (Unit {0}) × W
  pub chmod : Bytes → ℕ → W → Outcome E (Unit {0}) × W
  pub chown : Bytes → ℤ → ℤ → W → Outcome E (Unit {0}) × W
  pub chtimes : Bytes → T → T → W → Outcome E (Unit {0}) × W
  pub file_stat : H → W → Outcome E FileInfo × W
  pub readdir : H → W → Outcome E (List FileInfo) × W
  pub truncate : H → ℤ → W → Outcome E (Unit {0}) × W
  pub close : H → W → W

-- type FS struct
pub record Fs (S W H T E : Type 0) : Type 0 where
  pub fs : Afero W H T E
  pub user : Bytes
  pub authz : Authority S
  pub protocol : Bytes

-- the key-value pairs of an access-log line
pub data Detail (E : Type 0) : Type 0 where
  error : E → Detail E
  size : ℕ → Detail E
  mode : Bytes → Detail E
  count : ℕ → Detail E
  to : Bytes → Detail E
  protocol : Bytes → Detail E

pub data Status : Type 0 where
  denied failed success : Status

-- one call of AccessLogger.LogAccess; `failed` is the status "error"
pub record Line (E : Type 0) : Type 0 where
  pub operation : Bytes
  pub user : Bytes
  pub path : Bytes
  pub status : Status
  pub details : List (Detail E)

-- What an operation reads and changes; the latest line of the access log stands first.
pub record World (S W E : Type 0) : Type 0 where
  pub authority : S
  pub disk : W
  pub access_log : List (Line E)

-- a call of the wrapped filesystem
abbrev pub on_disk :
    {S W E A : Type 0} → (W → Outcome E A × W) → World S W E → Outcome E A × World S W E
on_disk call w = let (o, d) = call w.disk in (o, record w { disk = d })

module _ {S W H T E : Type 0} where
  -- the line that log writes
  abbrev pub line : Fs S W H T E → Bytes → Bytes → Status → List (Detail E) → Line E
  line f op path status kv = record {
    operation = op;
    user = f.user;
    path = path;
    status = status;
    details = kv ++ Detail.protocol f.protocol ∷ [];
  }

  abbrev pub log :
      Fs S W H T E → Bytes → Bytes → Status → List (Detail E) → World S W E → World S W E
  log f op path status kv w = record w { access_log = line f op path status kv ∷ w.access_log }

  abbrev pub may_read : Fs S W H T E → Bytes → World S W E → Bool × World S W E
  may_read f path w =
      let (allowed, s) = f.authz.can_read f.user path w.authority in
      (allowed, record w { authority = s })

  abbrev pub may_write : Fs S W H T E → Bytes → World S W E → Bool × World S W E
  may_write f path w =
      let (allowed, s) = f.authz.can_write f.user path w.authority in
      (allowed, record w { authority = s })

  -- the refusal that each operation writes out: a "denied" line and os.ErrPermission
  abbrev pub refuse :
      {A : Type 0}
      → Fs S W H T E
      → Bytes
      → Bytes
      → List (Detail E)
      → World S W E
      → Outcome E A × World S W E
  refuse f op path kv w = (
    err f.fs.err_permission,
    log f op path Status.denied (Detail.error f.fs.err_permission ∷ kv) w,
  )
