-- ===== src/Sftp/AuthorizedKeys/Authorized.antt =====
-- pkg/sftpserver/authorizedkeys.go: the keys that publicKeyCallback accepts.
use mathlib.Core.List.{Memᴰ}
use viking_ftpd.Prelude.{
  ℕ, zero, suc, ◌≤◌, ◌≡◌, ◌↔◌, ◌⊎◌, refl, ap, arith, true, false, Option, none, some, List, [], ◌∷◌,
  ltb, ltb-false, length, take, is_nil, ◌∙◌, ◌++◌, codes, equal, equal_iff, Bytes, Bool-cases,
  Option-cases, inl, inr,
}
use viking_ftpd.Paths.{split, join, clean}
use viking_ftpd.Users.FileSource.{is_valid_username}
use viking_ftpd.Users.Types.{User, Loaded, loaded, not_loaded, LoadError}
use viking_ftpd.Sftp.AuthorizedKeys.{
  PublicKey, KeyFile, Surroundings, max_authorized_keys_size, authorized_keys_path, is_key_line,
  add_key, parse_lines, parse_authorized_keys, keys_of, load_authorized_keys, same_key, find_key,
  keys_or_none, public_key_callback,
}

-- One of the lines, trimmed, is no comment and parses to a key of the same type and bytes.
pub record IsListed (env : Surroundings) (key : PublicKey) (lines : List Bytes) : Type 0 where
  pub line : Bytes
  pub is_in : Memᴰ line lines
  pub is_line : is_key_line (env.trim_space line) ≡ true
  pub candidate : PublicKey
  pub parses : env.parse_key (env.trim_space line) ≡ some candidate
  pub same_kind : candidate.kind ≡ key.kind
  pub same_bytes : candidate.wire ≡ key.wire

later-IsListed :
    {env : Surroundings} {key : PublicKey} {l : Bytes} {ls : List Bytes}
    → IsListed env key ls
    → IsListed env key (l ∷ ls)
later-IsListed i = record {
  line = i.line;
  is_in = Memᴰ.tail i.is_in;
  is_line = i.is_line;
  candidate = i.candidate;
  parses = i.parses;
  same_kind = i.same_kind;
  same_bytes = i.same_bytes;
}

same_key_iff :
    (candidate key : PublicKey)
    → (same_key candidate key ≡ true) ↔ ((candidate.kind ≡ key.kind) × (candidate.wire ≡ key.wire))
same_key_iff candidate key = (
  λ h.
      let kinds : equal candidate.kind key.kind ≡ true = ground arith in
      let wires : equal candidate.wire key.wire ≡ true = ground arith in
      ((equal_iff candidate.kind key.kind).0 kinds, (equal_iff candidate.wire key.wire).0 wires),
  λ h.
      rw ((equal_iff candidate.kind key.kind).1 h.0, (equal_iff candidate.wire key.wire).1 h.1)
        refl,
)

find_key-IsListed :
    (env : Surroundings) (key : PublicKey) (ls : List Bytes)
    → find_key key (parse_lines env ls) ≡ true
    → IsListed env key ls
unfolding find_key parse_lines
find_key-IsListed env key [] h = absurd (cc)
find_key-IsListed env key (l ∷ ls) h = elim (Bool-cases (is_key_line (env.trim_space l))) [
  | inr comment ↦ later-IsListed (find_key-IsListed env key ls (rw comment at h))
  | inl text ↦ elim (Option-cases (env.parse_key (env.trim_space l))) [
    | inl bad ↦ later-IsListed (find_key-IsListed env key ls (rw (text, bad) at h))
    | inr (k, parses) ↦ elim (Bool-cases (same_key k key)) [
      | inr other ↦ later-IsListed (find_key-IsListed env key ls (rw (text, parses, other) at h))
      | inl same ↦ record {
        line = l;
        is_in = Memᴰ.head refl;
        is_line = text;
        candidate = k;
        parses = parses;
        same_kind = ((same_key_iff k key).0 same).0;
        same_bytes = ((same_key_iff k key).0 same).1;
      }
    ]
  ]
]

find_key-add :
    (key : PublicKey) (o : Option PublicKey) (ks : List PublicKey)
    → find_key key ks ≡ true
    → find_key key (add_key o ks) ≡ true
unfolding find_key
find_key-add key none ks h = h
find_key-add key (some k) ks h = ground arith

listed-find_key :
    (env : Surroundings) (key : PublicKey) (line : Bytes) (ls : List Bytes) (k : PublicKey)
    → Memᴰ line ls
    → is_key_line (env.trim_space line) ≡ true
    → env.parse_key (env.trim_space line) ≡ some k
    → same_key k key ≡ true
    → find_key key (parse_lines env ls) ≡ true
unfolding find_key parse_lines
listed-find_key env key line [] k there text parses same = elim there [ ]
listed-find_key env key line (l ∷ ls) k (Memᴰ.head here) text parses same =
    rw (← here, text, parses, same) refl
listed-find_key env key line (l ∷ ls) k (Memᴰ.tail there) text parses same =
    let rest = listed-find_key env key line ls k there text parses same in
    elim (Bool-cases (is_key_line (env.trim_space l))) [
      | inl key_line ↦
          rw key_line
            (find_key-add key (env.parse_key (env.trim_space l)) (parse_lines env ls) rest)
      | inr comment ↦ rw comment rest
    ]

take-short : (n : ℕ) (xs : Bytes) → length xs ≤ n → take n xs ≡ xs
take-short zero [] h = refl
take-short zero (x ∷ xs) h = absurd (omega arith)
take-short (suc n) [] h = refl
take-short (suc n) (x ∷ xs) h = ap (λ t. x ∷ t) (take-short n xs (omega arith))

take-long : (n : ℕ) (xs : Bytes) → n ≤ length xs → length (take n xs) ≡ n
take-long zero xs h = refl
take-long (suc n) [] h = absurd (omega arith)
take-long (suc n) (x ∷ xs) h = omega (arith, take-long n xs (omega arith))

-- the file ".authorized_keys" in the home directory, below the root
abbrev pub key_file : Surroundings → Bytes → Bytes
key_file env username =
    join env.root_dir (clean (env.sprintf env.home_pattern username) ++ codes "/.authorized_keys")

authorized_keys_path-some :
    (env : Surroundings) (username path : Bytes)
    → authorized_keys_path env username ≡ some path
    → (is_nil env.home_pattern ≡ false)
      × (is_valid_username username ≡ true)
      × (key_file env username ≡ path)
unfolding authorized_keys_path
authorized_keys_path-some env username path h = elim (Bool-cases (is_nil env.home_pattern)) [
  | inl no_home ↦ absurd (let x = rw no_home at h in cc)
  | inr home ↦ elim (Bool-cases (is_valid_username username)) [
    | inr wrong ↦ absurd (let x = rw (home, wrong) at h in cc)
    | inl valid ↦ let x = rw (home, valid) at h in (home, valid, cc)
  ]
]

some-authorized_keys_path :
    (env : Surroundings) (username : Bytes)
    → is_nil env.home_pattern ≡ false
    → is_valid_username username ≡ true
    → authorized_keys_path env username ≡ some (key_file env username)
unfolding authorized_keys_path
some-authorized_keys_path env username home valid = rw (home, valid) refl

-- What a player must have done for a key to be accepted.
pub record IsAuthorized (env : Surroundings) (username : Bytes) (key : PublicKey) : Type 0 where
  pub user : User
  pub exists : env.load_user username ≡ loaded user
  pub has_home : is_nil env.home_pattern ≡ false
  pub is_name : is_valid_username username ≡ true
  pub whole : Bytes
  pub holds : env.read_file (key_file env username) ≡ KeyFile.contents whole
  pub is_short : length whole ≤ 65536
  pub listed : IsListed env key (split 10 whole)

contents-short :
    (env : Surroundings) (whole : Bytes)
    → length whole ≤ max_authorized_keys_size
    → keys_of env (KeyFile.contents whole) ≡ some (parse_authorized_keys env whole)
contents-short env whole h =
    let fits : ltb max_authorized_keys_size (length whole) ≡ false = ground arith in
    rw (take-short (suc max_authorized_keys_size) whole (omega arith), fits) refl

contents-long :
    (env : Surroundings) (whole : Bytes)
    → suc max_authorized_keys_size ≤ length whole
    → keys_of env (KeyFile.contents whole) ≡ none
contents-long env whole h = rw (take-long (suc max_authorized_keys_size) whole h) refl

no_key : (key : PublicKey) → find_key key [] ≡ true → ⊥
unfolding find_key
no_key key h = let x = h in cc

-- a key found in what the file holds
record IsInFile (env : Surroundings) (key : PublicKey) (file : KeyFile) : Type 0 where
  whole : Bytes
  holds : file ≡ KeyFile.contents whole
  is_short : length whole ≤ max_authorized_keys_size
  listed : IsListed env key (split 10 whole)

more : (a b : ℕ) → ltb a b ≡ true → suc a ≤ b
more a b h = ground arith

found-IsInFile :
    (env : Surroundings) (key : PublicKey) (file : KeyFile)
    → find_key key (keys_or_none (keys_of env file)) ≡ true
    → IsInFile env key file
unfolding parse_authorized_keys
found-IsInFile env key KeyFile.missing h = absurd (no_key key h)
found-IsInFile env key KeyFile.unreadable h = absurd (no_key key h)
found-IsInFile env key (KeyFile.contents whole) h =
    elim (Bool-cases (ltb max_authorized_keys_size (length whole))) [
      | inl long ↦ absurd (
          no_key key
            (rw (contents-long env whole (more max_authorized_keys_size (length whole) long)) at h))
      | inr short ↦
          let size : length whole ≤ max_authorized_keys_size =
            ltb-false max_authorized_keys_size (length whole) short in
          record {
            whole = whole;
            holds = refl;
            is_short = size;
            listed =
                find_key-IsListed env key (split 10 whole)
                  (rw (contents-short env whole size) at h);
          }
    ]

found-IsAuthorized :
    (env : Surroundings) (username : Bytes) (key : PublicKey) (user : User)
    → env.load_user username ≡ loaded user
    → find_key key (keys_or_none (load_authorized_keys env username)) ≡ true
    → IsAuthorized env username key
unfolding load_authorized_keys
found-IsAuthorized env username key user e h =
    elim (Option-cases (authorized_keys_path env username)) [
      | inl no_path ↦ absurd (no_key key (rw no_path at h))
      | inr (path, is_path) ↦
          let found = found-IsInFile env key (env.read_file path) (rw is_path at h) in
          let (home, valid, same) = authorized_keys_path-some env username path is_path in
          record {
            user = user;
            exists = e;
            has_home = home;
            is_name = valid;
            whole = found.whole;
            holds = ap env.read_file same ∙ found.holds;
            is_short = found.is_short;
            listed = found.listed;
          }
    ]

user_cases :
    (l : Loaded User) → ((u : User) × (l ≡ loaded u)) ⊎ ((e : LoadError) × (l ≡ not_loaded e))
user_cases (loaded u) = inl (u, refl)
user_cases (not_loaded e) = inr (e, refl)

accepted-IsAuthorized :
    (env : Surroundings) (username : Bytes) (key : PublicKey)
    → public_key_callback env username key ≡ some key.fingerprint
    → IsAuthorized env username key
unfolding public_key_callback
accepted-IsAuthorized env username key h = elim (user_cases (env.load_user username)) [
  | inr (e, no_user) ↦ absurd (let x = rw no_user at h in cc)
  | inl (user, exists) ↦
      elim (Bool-cases (find_key key (keys_or_none (load_authorized_keys env username)))) [
        | inl found ↦ found-IsAuthorized env username key user exists found
        | inr not_found ↦ absurd (let x = rw (exists, not_found) at h in cc)
      ]
]

-- A key is accepted, with its own fingerprint, exactly if the character exists, a home pattern is
-- set, the name is valid, the file ".authorized_keys" in the character's home, below the root, is
-- there with at most 64 KiB, and a line of that file, trimmed, is no comment and parses to a key of
-- the same type and the same bytes. Lines that do not parse change nothing.
pub public_key_callback-IsAuthorized :
    (env : Surroundings) (username : Bytes) (key : PublicKey)
    → (public_key_callback env username key ≡ some key.fingerprint) ↔ IsAuthorized env username key
unfolding public_key_callback load_authorized_keys parse_authorized_keys
public_key_callback-IsAuthorized env username key = (
  accepted-IsAuthorized env username key,
  λ a.
      let i = a.listed in
      rw
        (
          a.exists,
          some-authorized_keys_path env username a.has_home a.is_name,
          a.holds,
          contents-short env a.whole a.is_short,
          listed-find_key env key i.line (split 10 a.whole) i.candidate i.is_in i.is_line i.parses
              ((same_key_iff i.candidate key).1 (i.same_kind, i.same_bytes)),
        )
        refl,
)
