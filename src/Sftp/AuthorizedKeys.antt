-- ===== src/Sftp/AuthorizedKeys.antt =====
-- pkg/sftpserver/authorizedkeys.go: which public keys a player may log in with. The calls of
-- golang.org/x/crypto/ssh, fmt.Sprintf on a pattern and a name, bytes.TrimSpace and the filesystem
-- are parameters.
pub mod Authorized
use viking_ftpd.Prelude.{
  ℕ, suc, ◌+◌, ◌*◌, ◌≤◌, ◌≡◌, ◌↔◌, refl, sym, ap, ◌∙◌, arith, Bool, true, false, not, ◌&&◌, ◌||◌,
  Option, none, some, List, [], ◌∷◌, ◌++◌, if◌then◌else◌, is_nil, ltb, ◌==◌, length, take, Bytes,
  codes, equal, equal_iff, Bool-cases, Option-cases, inl, inr,
}
use viking_ftpd.Paths.{split, clean, join}
use viking_ftpd.Users.Types.{User, Loaded, loaded, not_loaded}
use viking_ftpd.Users.FileSource.{is_valid_username}

-- What is asked of ssh.PublicKey: Type, Marshal and FingerprintSHA256.
pub record PublicKey : Type 0 where
  pub kind : Bytes
  pub wire : Bytes
  pub fingerprint : Bytes

-- what os.Open and the reading of the whole file answer
pub data KeyFile : Type 0 where
  missing unreadable : KeyFile
  contents : Bytes → KeyFile

-- what loadAuthorizedKeys and the callback use of the server and of other code
pub record Surroundings : Type 0 where
  pub root_dir : Bytes
  pub home_pattern : Bytes
  pub sprintf : Bytes → Bytes → Bytes
  pub trim_space : Bytes → Bytes
  pub parse_key : Bytes → Option PublicKey
  pub read_file : Bytes → KeyFile
  pub load_user : Bytes → Loaded User

abbrev pub authorized_keys_file : Bytes
authorized_keys_file = codes ".authorized_keys"

abbrev pub max_authorized_keys_size : ℕ
max_authorized_keys_size = 64 * 1024

-- authorizedKeysPath; none is an error. A cleaned path is not empty, so filepath.Join of three
-- elements puts a "/" between the last two.
unfoldable pub authorized_keys_path : Surroundings → Bytes → Option Bytes
unfolding join clean is_valid_username
authorized_keys_path env username =
    if is_nil env.home_pattern
    then none
    else (if not (is_valid_username username)
        then none
        else some (
            join env.root_dir
              (clean (env.sprintf env.home_pattern username) ++ b'/' ∷ authorized_keys_file)))

-- a line that is not empty and no comment
abbrev pub is_key_line : Bytes → Bool
is_key_line [] = false
is_key_line (c ∷ s) = not (c == b'#')

abbrev pub add_key : Option PublicKey → List PublicKey → List PublicKey
add_key none keys = keys
add_key (some key) keys = key ∷ keys

-- the loop of parseAuthorizedKeys
unfoldable pub parse_lines : Surroundings → List Bytes → List PublicKey
parse_lines env [] = []
parse_lines env (l ∷ ls) =
    let line = env.trim_space l in
    let later = parse_lines env ls in
    if is_key_line line then add_key (env.parse_key line) later else later

unfoldable pub parse_authorized_keys : Surroundings → Bytes → List PublicKey
unfolding split parse_lines
parse_authorized_keys env data_ = parse_lines env (split 10 data_)

-- io.ReadAll of the io.LimitReader, and what follows; none is an error
abbrev pub keys_of : Surroundings → KeyFile → Option (List PublicKey)
keys_of env KeyFile.missing = some []
keys_of env KeyFile.unreadable = none
keys_of env (KeyFile.contents whole) =
    let data_ = take (suc max_authorized_keys_size) whole in
    if ltb max_authorized_keys_size (length data_)
    then none
    else some (parse_authorized_keys env data_)

abbrev pub keys_at : Surroundings → Option Bytes → Option (List PublicKey)
keys_at env none = none
keys_at env (some path) = keys_of env (env.read_file path)

unfoldable pub load_authorized_keys : Surroundings → Bytes → Option (List PublicKey)
unfolding authorized_keys_path parse_authorized_keys
load_authorized_keys env username = keys_at env (authorized_keys_path env username)

-- `candidate.Type() == key.Type() && bytes.Equal(…)`
abbrev pub same_key : PublicKey → PublicKey → Bool
same_key candidate key = equal candidate.kind key.kind && equal candidate.wire key.wire

-- the loop over the authorized keys
unfoldable pub find_key : PublicKey → List PublicKey → Bool
find_key key [] = false
find_key key (k ∷ ks) = same_key k key || find_key key ks

-- After an error there are no authorized keys.
abbrev pub keys_or_none : Option (List PublicKey) → List PublicKey
keys_or_none none = []
keys_or_none (some keys) = keys

-- the callback after LoadUser: the fingerprint in the permissions, or none for the error
abbrev pub decide : Surroundings → Bytes → PublicKey → Loaded User → Option Bytes
decide env username key (not_loaded e) = none
decide env username key (loaded user) =
    if find_key key (keys_or_none (load_authorized_keys env username))
    then some key.fingerprint
    else none

unfoldable pub public_key_callback : Surroundings → Bytes → PublicKey → Option Bytes
unfolding load_authorized_keys find_key
public_key_callback env username key = decide env username key (env.load_user username)
