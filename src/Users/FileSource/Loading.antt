-- ===== src/Users/FileSource/Loading.antt =====
-- FileSource.LoadUser against ParseUserFile of pkg/users/parser.go.
use viking_ftpd.Prelude.{
  ◌≡◌, refl, ap, codes, true, false, Option, none, some, [], ◌∷◌, Bytes, Bool-cases, inl, inr, ℤ,
  ◌⊎◌,
}
use viking_ftpd.Lpc.Value.{Float64, Value, nil, int, float, str, permission, array, mapping, get}
use viking_ftpd.Lpc.Object.{Outcome, parsed, failed, ParseResult, parse_object}
use viking_ftpd.Users.Types.{User, Loaded, loaded, not_loaded, LoadError}
use viking_ftpd.Users.FileSource.{
  is_valid_username, character_path, FileAnswer, contents, missing, unreadable, user_with, user_of,
  level_of, file_level, file_user, file_result, user_from, parse_user_file, load_user,
}

abbrev pub named : Bytes → Loaded User → Loaded User
named name (loaded user) = loaded (record user { username = name })
named name (not_loaded e) = not_loaded e

module _ (F : Type 0) ⦃fl : Float64 F⦄ where
  -- the two switches on the level
  level_of-file_level : (v : Option (Value F)) → level_of v ≡ file_level v
  level_of-file_level none = refl
  level_of-file_level (some nil) = refl
  level_of-file_level (some (int x)) = refl
  level_of-file_level (some (float x)) = refl
  level_of-file_level (some (str x)) = refl
  level_of-file_level (some (permission x)) = refl
  level_of-file_level (some (array x)) = refl
  level_of-file_level (some (mapping x)) = refl

  -- the two checks of the password
  user_with-file_user :
      (name : Bytes) (result : ParseResult F) (v : Option (Value F))
      → user_with name (level_of (get result.object (codes "level"))) v
        ≡ named name (file_user result v)
  user_with-file_user name result (some (str hash)) =
      ap (λ (level : ℤ). loaded (record { username = name; password_hash = hash; level = level }))
        (level_of-file_level (get result.object (codes "level")))
  user_with-file_user name result none = refl
  user_with-file_user name result (some nil) = refl
  user_with-file_user name result (some (int x)) = refl
  user_with-file_user name result (some (float x)) = refl
  user_with-file_user name result (some (permission x)) = refl
  user_with-file_user name result (some (array x)) = refl
  user_with-file_user name result (some (mapping x)) = refl

  user_of-file_result :
      (name : Bytes) (out : Outcome (ParseResult F))
      → user_of name out ≡ named name (file_result out)
  user_of-file_result name (failed e) = refl
  user_of-file_result name (parsed result) =
      user_with-file_user name result (get result.object (codes "password"))

  -- the answer of the file system, read by ParseUserFile
  abbrev pub parsed_as : Bytes → FileAnswer → Loaded User
  parsed_as name missing = not_loaded LoadError.user_not_found
  parsed_as name unreadable = not_loaded LoadError.unreadable
  parsed_as name (contents text) = named name (parse_user_file F text)

  user_from-parsed_as :
      (name : Bytes) (answer : FileAnswer) → user_from F name answer ≡ parsed_as name answer
  unfolding parse_user_file
  user_from-parsed_as name missing = refl
  user_from-parsed_as name unreadable = refl
  user_from-parsed_as name (contents text) = user_of-file_result name (parse_object false text)

  -- LoadUser never panics. For a name that is not valid it answers "user not found", whatever the
  -- files hold; for a valid name it answers what ParseUserFile, which has its own copy of the checks,
  -- makes of the one file at the character's path, with the name set.
  pub load_user_lem :
      (root : Bytes) (read_file : Bytes → FileAnswer) (name : Bytes)
      → ((is_valid_username name ≡ false)
          × (load_user F root read_file name ≡ some (not_loaded LoadError.user_not_found)))
        ⊎ ((path : Bytes) × (is_valid_username name ≡ true)
            × (character_path root name ≡ some path)
            × (load_user F root read_file name ≡ some (parsed_as name (read_file path))))
  unfolding load_user is_valid_username character_path
  load_user_lem root read_file [] = inl (refl, refl)
  load_user_lem root read_file (c ∷ s) = elim (Bool-cases (is_valid_username (c ∷ s))) [
    | inl valid ↦ inr (_, valid, refl, rw valid (ap some (user_from-parsed_as (c ∷ s) _)))
    | inr wrong ↦ inl (wrong, rw wrong refl)
  ]
