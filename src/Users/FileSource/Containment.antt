-- ===== src/Users/FileSource/Containment.antt =====
-- pkg/users/file_source.go: where getCharacterPath puts a character file.
use mathlib.Core.List.{append_assoc}
use viking_ftpd.Prelude.{
  ℕ, ◌≡◌, refl, ap, ◌∙◌, arith, Bool, true, false, ◌==◌, some, List, [], ◌∷◌, ◌++◌, is_nil, Bytes,
  codes, equal,
}
use viking_ftpd.Paths.{
  split, is_abs, elements, enter_all, enter, keep_parts, split_path, dot, dot_dot, join_slash,
  clean,
}
use viking_ftpd.Paths.Joined.{split-join, enter_all-append}
use viking_ftpd.Paths.Parts.{has_slash, split-one, split_path-elements}
use viking_ftpd.Users.FileSource.{
  is_name_char, all_name_chars, is_valid_username, lower, join_all, character_path,
}

-- an entry's name: entered as it is
record IsEntry (x : Bytes) : Type 0 where
  ne_nil : is_nil x ≡ false
  ne_dot : equal x dot ≡ false
  ne_dot_dot : equal x dot_dot ≡ false
  no_slash : has_slash x ≡ false

enter-IsEntry :
    (rooted : Bool) (kept : List Bytes) (x : Bytes)
    → IsEntry x
    → enter rooted kept x ≡ kept ++ x ∷ []
unfolding enter
enter-IsEntry rooted kept x e = rw (e.ne_nil, e.ne_dot, e.ne_dot_dot) refl

letter-IsEntry : (c : ℕ) → is_name_char c ≡ true → IsEntry (lower c ∷ [])
unfolding equal has_slash
letter-IsEntry c h = record {
  ne_nil = refl;
  ne_dot = ground arith;
  ne_dot_dot = ground arith;
  no_slash = ground arith;
}

name-no_slash : (s : Bytes) → all_name_chars s ≡ true → has_slash (s ++ codes ".o") ≡ false
unfolding all_name_chars has_slash
name-no_slash [] h = refl
name-no_slash (c ∷ s) h = ground (arith, name-no_slash s)

file-IsEntry : (c : ℕ) (s : Bytes) → all_name_chars (c ∷ s) ≡ true → IsEntry ((c ∷ s) ++ codes ".o")
unfolding equal all_name_chars
file-IsEntry c s h = record {
  ne_nil = refl;
  ne_dot = ground arith;
  ne_dot_dot = ground arith;
  no_slash = name-no_slash (c ∷ s) h;
}

enter_two :
    (rooted : Bool) (kept : List Bytes) (x y : Bytes)
    → IsEntry x
    → IsEntry y
    → enter_all rooted kept (x ∷ y ∷ []) ≡ kept ++ x ∷ y ∷ []
unfolding enter_all
enter_two rooted kept x y e f =
    ap (λ k. enter rooted k y) (enter-IsEntry rooted kept x e)
    ∙ enter-IsEntry rooted (kept ++ x ∷ []) y f
    ∙ append_assoc kept (x ∷ []) (y ∷ [])

split_two :
    (root x y : Bytes)
    → IsEntry x
    → IsEntry y
    → split b'/' (root ++ b'/' ∷ (x ++ b'/' ∷ y)) ≡ split b'/' root ++ x ∷ y ∷ []
split_two root x y e f =
    split-join root (x ++ b'/' ∷ y)
    ∙ ap (λ rest. split b'/' root ++ rest)
        (rw (split-join x y, split-one x e.no_slash, split-one y f.no_slash) refl)

two_below :
    (root x y : Bytes)
    → is_abs root ≡ true
    → IsEntry x
    → IsEntry y
    → elements (root ++ b'/' ∷ (x ++ b'/' ∷ y)) ≡ elements root ++ x ∷ y ∷ []
unfolding elements is_abs
two_below [] x y h e f = absurd (cc)
two_below (r ∷ rs) x y h e f =
    ap (enter_all (r == b'/') []) (split_two (r ∷ rs) x y e f)
    ∙ enter_all-append (r == b'/') [] (split b'/' (r ∷ rs)) (x ∷ y ∷ [])
    ∙ enter_two (r == b'/') (enter_all (r == b'/') [] (split b'/' (r ∷ rs))) x y e f

-- For a valid username and an absolute root, the path of the character file is that of the root,
-- then a directory named by the name's first letter in lower case, then the file named after the
-- user: no username leads out of the root.
pub character_path-split :
    (root : Bytes) (c : ℕ) (s : Bytes)
    → is_abs root ≡ true
    → is_valid_username (c ∷ s) ≡ true
    → (path : Bytes) × (character_path root (c ∷ s) ≡ some path)
      × (keep_parts (split b'/' path)
          ≡ elements root ++ (lower c ∷ []) ∷ ((c ∷ s) ++ codes ".o") ∷ [])
unfolding character_path is_valid_username join_all join_slash is_abs split_path all_name_chars
character_path-split [] c s h v = absurd (cc)
character_path-split (r ∷ rs) c s h v =
    let letter = lower c ∷ [] in
    let file = (c ∷ s) ++ codes ".o" in
    let whole = (r ∷ rs) ++ b'/' ∷ (letter ++ b'/' ∷ file) in
    let first : is_name_char c ≡ true = ground arith in
    (
      clean whole,
      refl,
      split_path-elements whole
          ∙ two_below (r ∷ rs) letter file h (letter-IsEntry c first) (file-IsEntry c s v),
    )
