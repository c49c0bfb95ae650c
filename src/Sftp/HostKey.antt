-- ===== src/Sftp/HostKey.antt =====
-- pkg/sftpserver/hostkey.go: the host key of the SSH server. Package os, the generation of a key and
-- the encodings of golang.org/x/crypto/ssh are parameters.
pub mod Stable
use viking_ftpd.Prelude.{ℕ, ◌%◌, ◌≡◌, Bool, true, ◌==◌, if◌then◌else◌, Bytes}
use viking_ftpd.Vfs.Session.{Outcome, ok, err}

-- os.ReadFile, os.IsNotExist, the permissions that os.Stat reports, and os.WriteFile
pub record KeyFiles (W E : Type 0) : Type 0 where
  pub read_file : Bytes → W → Outcome E Bytes
  pub is_not_exist : E → Bool
  pub permissions : Bytes → W → Outcome E ℕ
  pub write_file : Bytes → Bytes → ℕ → W → Outcome E (Unit {0}) × W

-- ssh.ParsePrivateKey; ssh.MarshalPrivateKey with pem.EncodeToMemory; ssh.NewSignerFromKey
pub record KeyFormat (K S E : Type 0) : Type 0 where
  pub parse : Bytes → Outcome E S
  pub marshal : K → Outcome E Bytes
  pub signer_of : K → Outcome E S

-- one constructor for each message
pub data HostKeyError (E : Type 0) : Type 0 where
  checking reading parsing generating encoding writing signing : E → HostKeyError E
  insecure : ℕ → HostKeyError E

module _ {W K S E : Type 0} (fs : KeyFiles W E) (ssh : KeyFormat K S E) where
  abbrev pub parsed_key : Outcome E S → Outcome (HostKeyError E) S
  parsed_key (ok s) = ok s
  parsed_key (err e) = err (HostKeyError.parsing e)

  -- `info.Mode().Perm()&0077 != 0`: 0077 are the six low bits
  abbrev pub checked_key : Bytes → Outcome E ℕ → Outcome (HostKeyError E) S
  checked_key text (err e) = err (HostKeyError.checking e)
  checked_key text (ok mode) =
      if mode % 64 == 0 then parsed_key (ssh.parse text) else err (HostKeyError.insecure mode)

  abbrev pub signed_key : Outcome E S → Outcome (HostKeyError E) S
  signed_key (ok s) = ok s
  signed_key (err e) = err (HostKeyError.signing e)

  abbrev pub written_key : K → Outcome E (Unit {0}) × W → Outcome (HostKeyError E) S × W
  written_key k (err e, d) = (err (HostKeyError.writing e), d)
  written_key k (ok x, d) = (signed_key (ssh.signer_of k), d)

  -- 0600 is 384
  abbrev pub encoded_key : Bytes → K → W → Outcome E Bytes → Outcome (HostKeyError E) S × W
  encoded_key path k d (err e) = (err (HostKeyError.encoding e), d)
  encoded_key path k d (ok text) = written_key k (fs.write_file path text 384 d)

  abbrev pub generated_key : Bytes → W → Outcome E K → Outcome (HostKeyError E) S × W
  generated_key path d (err e) = (err (HostKeyError.generating e), d)
  generated_key path d (ok k) = encoded_key path k d (ssh.marshal k)

  abbrev pub key_of : Outcome E K → Bytes → W → Outcome E Bytes → Outcome (HostKeyError E) S × W
  key_of generated path d (ok text) = (checked_key text (fs.permissions path d), d)
  key_of generated path d (err e) =
      if fs.is_not_exist e
      then generated_key path d generated
      else (err (HostKeyError.reading e), d)

  -- loadOrGenerateHostKey; `generated` is what ed25519.GenerateKey would give
  unfoldable pub load_or_generate_host_key :
      Outcome E K → Bytes → W → Outcome (HostKeyError E) S × W
  load_or_generate_host_key generated path d = key_of generated path d (fs.read_file path d)

  -- What the caller relies on: a file that was not there and was written without an error holds
  -- the bytes, and no bit of the group or of others; and a key is read back from its encoding.
  pub record IsKeyDisk : Type 0 where
    pub write_read :
        (p c : Bytes) (d : W)
        → (fs.write_file p c 384 d).0 ≡ ok tt
        → fs.read_file p (fs.write_file p c 384 d).1 ≡ ok c
    pub write_permissions :
        (p c : Bytes) (d : W) (e : E)
        → fs.read_file p d ≡ err e
        → fs.is_not_exist e ≡ true
        → (fs.write_file p c 384 d).0 ≡ ok tt
        → (mode : ℕ) × (fs.permissions p (fs.write_file p c 384 d).1 ≡ ok mode) × (mode % 64 ≡ 0)
    pub marshal_parse : (k : K) (c : Bytes) → ssh.marshal k ≡ ok c → ssh.parse c ≡ ssh.signer_of k
