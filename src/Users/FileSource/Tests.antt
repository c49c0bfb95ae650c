-- ===== src/Users/FileSource/Tests.antt =====
-- The file source at concrete inputs.
use viking_ftpd.Prelude.{◌≡◌, refl, true, false, some, [], ◌∷◌, ◌++◌, Bytes, codes, ◌⊎◌}
use viking_ftpd.Lpc.TextFloat.{text_floats}
use viking_ftpd.Paths.{split, is_abs, keep_parts, elements}
use viking_ftpd.Users.Types.{not_loaded, LoadError}
use viking_ftpd.Users.FileSource.{
  is_valid_username, all_name_chars, character_path, contents, lower, load_user,
}
use viking_ftpd.Users.FileSource.Containment.{character_path-split}
use viking_ftpd.Users.FileSource.Loading.{parsed_as, load_user_lem}

usernames :
    (is_valid_username (codes "Frogo-2_x") ≡ true)
    × (is_valid_username (codes "../../etc/passwd") ≡ false)
    × (is_valid_username [] ≡ false)
unfolding is_valid_username all_name_chars
usernames = (refl, refl, refl)

character_path-split_example :
    (path : Bytes) × (character_path (codes "/mud/characters") (codes "Frogo") ≡ some path)
    × (keep_parts (split b'/' path)
        ≡ elements (codes "/mud/characters")
          ++ (lower b'F' ∷ []) ∷ (codes "Frogo" ++ codes ".o") ∷ [])
unfolding is_abs is_valid_username all_name_chars
character_path-split_example =
    character_path-split (codes "/mud/characters") b'F' (codes "rogo") refl refl

load_user_lem_example :
    ((is_valid_username (codes "frogo") ≡ false)
      × (load_user Bytes (codes "/c") (λ p. contents (codes "level 5")) (codes "frogo")
          ≡ some (not_loaded LoadError.user_not_found)))
    ⊎ ((path : Bytes) × (is_valid_username (codes "frogo") ≡ true)
        × (character_path (codes "/c") (codes "frogo") ≡ some path)
        × (load_user Bytes (codes "/c") (λ p. contents (codes "level 5")) (codes "frogo")
            ≡ some (parsed_as Bytes (codes "frogo") (contents (codes "level 5")))))
load_user_lem_example =
    load_user_lem Bytes (codes "/c") (λ p. contents (codes "level 5")) (codes "frogo")
