-- ===== src/Users/FileSource.antt =====
-- pkg/users/file_source.go and parser.go: a user from a character file. os.ReadFile is a parameter.
pub mod Containment
pub mod Loading
mod Tests
use viking_ftpd.Prelude.{
  ℕ, ◌+◌, Bool, true, false, not, ◌&&◌, ◌||◌, Option, none, some, List, [], ◌∷◌, ◌++◌, ◌==◌, leb,
  if◌then◌else◌, is_nil, Bytes, codes, ℤ, pos,
}
use viking_ftpd.Lpc.Value.{Float64, Value, int, float, str, Fields, get}
use viking_ftpd.Lpc.Object.{Outcome, parsed, failed, ParseResult, parse_object}
use viking_ftpd.Paths.{join_slash, clean}
use viking_ftpd.Users.Types.{User, Loaded, loaded, not_loaded, LoadError, mortal_first}

-- [a-zA-Z0-9_-]
abbrev pub is_name_char : ℕ → Bool
is_name_char c =
    (leb b'a' c && leb c b'z')
    || ((leb b'A' c && leb c b'Z') || ((leb b'0' c && leb c b'9') || (c == b'_' || c == b'-')))

unfoldable pub all_name_chars : Bytes → Bool
all_name_chars [] = true
all_name_chars (c ∷ s) = is_name_char c && all_name_chars s

-- IsValidUsername: `^[a-zA-Z0-9_-]+$`
unfoldable pub is_valid_username : Bytes → Bool
unfolding all_name_chars
is_valid_username name = not (is_nil name) && all_name_chars name

-- strings.ToLower on one ASCII byte
abbrev pub lower : ℕ → ℕ
lower c = if leb b'A' c && leb c b'Z' then c + 32 else c

-- filepath.Join: empty elements are ignored
abbrev pub non_empty : List Bytes → List Bytes
non_empty [] = []
non_empty (x ∷ xs) = if is_nil x then non_empty xs else x ∷ non_empty xs

unfoldable pub join_all : List Bytes → Bytes
unfolding clean join_slash
join_all xs = let kept = non_empty xs in if is_nil kept then [] else clean (join_slash kept)

-- getCharacterPath; `none` is the panic of username[0:1] on an empty name.
unfoldable pub character_path : Bytes → Bytes → Option Bytes
unfolding join_all
character_path root [] = none
character_path root (c ∷ s) = some (join_all (root ∷ (lower c ∷ []) ∷ ((c ∷ s) ++ codes ".o") ∷ []))

-- what os.ReadFile answers
pub data FileAnswer : Type 0 where
  contents : Bytes → FileAnswer
  missing unreadable : FileAnswer

-- the checks of the password field, with the name that the user gets
abbrev pub user_with : {F : Type 0} → Bytes → ℤ → Option (Value F) → Loaded User
user_with name level (some (str hash)) =
    loaded (record { username = name; password_hash = hash; level = level })
user_with name level _ = not_loaded LoadError.invalid_hash

module _ {F : Type 0} ⦃fl : Float64 F⦄ where
  -- the switch on the level field; any other type keeps the default
  abbrev pub level_of : Option (Value F) → ℤ
  level_of (some (float v)) = fl.truncate v
  level_of (some (int v)) = v
  level_of _ = mortal_first

  abbrev pub user_of : Bytes → Outcome (ParseResult F) → Loaded User
  user_of name (failed e) = not_loaded LoadError.unparsable
  user_of name (parsed result) =
      user_with name (level_of (get result.object (codes "level")))
        (get result.object (codes "password"))

-- ParseUserFile of parser.go, which has its own copy of these checks and sets no name
module _ {F : Type 0} ⦃fl : Float64 F⦄ where
  abbrev pub file_level : Option (Value F) → ℤ
  file_level none = mortal_first
  file_level (some (int v)) = v
  file_level (some (float v)) = fl.truncate v
  file_level (some _) = mortal_first

  abbrev pub file_user : ParseResult F → Option (Value F) → Loaded User
  file_user result (some (str password_hash)) = loaded (record {
    username = [];
    password_hash = password_hash;
    level = file_level (get result.object (codes "level"));
  })
  file_user result (some _) = not_loaded LoadError.invalid_hash
  file_user result none = not_loaded LoadError.invalid_hash

  abbrev pub file_result : Outcome (ParseResult F) → Loaded User
  file_result (failed e) = not_loaded LoadError.unparsable
  file_result (parsed result) = file_user result (get result.object (codes "password"))

module _ (F : Type 0) ⦃fl : Float64 F⦄ where
  unfoldable pub parse_user_file : Bytes → Loaded User
  unfolding parse_object
  parse_user_file data_read = file_result (parse_object {F = F} false data_read)

  abbrev pub user_from : Bytes → FileAnswer → Loaded User
  user_from name missing = not_loaded LoadError.user_not_found
  user_from name unreadable = not_loaded LoadError.unreadable
  user_from name (contents text) = user_of name (parse_object {F = F} false text)

  abbrev pub read_at : (Bytes → FileAnswer) → Bytes → Option Bytes → Option (Loaded User)
  read_at read_file name none = none
  read_at read_file name (some path) = some (user_from name (read_file path))

  -- LoadUser; `none` is a panic.
  unfoldable pub load_user : Bytes → (Bytes → FileAnswer) → Bytes → Option (Loaded User)
  unfolding character_path is_valid_username
  load_user root read_file name =
      if not (is_valid_username name)
      then some (not_loaded LoadError.user_not_found)
      else read_at read_file name (character_path root name)
