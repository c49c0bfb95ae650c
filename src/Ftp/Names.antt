-- ===== src/Ftp/Names.antt =====
-- pkg/ftpserver/server.go: the file that a name of an FTP command means.
use viking_ftpd.Prelude.{
  ◌≡◌, refl, ap, ◌∙◌, true, false, List, [], ◌∷◌, ◌++◌, ◌==◌, if◌then◌else◌, if_true, if_false,
  Bytes, equal, All, Bool-cases, inl, inr,
}
use viking_ftpd.Paths.{split, is_abs, clean, join, elements, enter_all, split_path, dot_dot}
use viking_ftpd.Paths.Joined.{split-join, enter_all-append, elements-clean, clean-is_abs}
use viking_ftpd.Paths.Parts.{split_path-elements, split_path-IsPart}
use viking_ftpd.Ftp.Client.{resolve_path}

-- the components of a name, read from the working directory on
abbrev pub meant : Bytes → Bytes → List Bytes
meant path name =
    if is_abs name then elements name else enter_all true (elements path) (split b'/' name)

whole-elements :
    (path name : Bytes)
    → is_abs path ≡ true
    → elements (path ++ b'/' ∷ name) ≡ enter_all true (elements path) (split b'/' name)
unfolding elements is_abs
whole-elements [] name h = absurd (cc)
whole-elements (p ∷ ps) name h =
    ap (enter_all (p == b'/') []) (split-join (p ∷ ps) name)
    ∙ enter_all-append (p == b'/') [] (split b'/' (p ∷ ps)) (split b'/' name)
    ∙ ap (λ r. enter_all r (enter_all (p == b'/') [] (split b'/' (p ∷ ps))) (split b'/' name)) h

joined-elements :
    (path name : Bytes)
    → is_abs path ≡ true
    → (is_abs (join path name) ≡ true)
      × (elements (join path name) ≡ enter_all true (elements path) (split b'/' name))
unfolding join is_abs
joined-elements [] name h = absurd (cc)
joined-elements (p ∷ ps) [] h =
    (clean-is_abs (p ∷ ps) h, elements-clean (p ∷ ps) h ∙ (unfold enter_all split in refl))
joined-elements (p ∷ ps) (n ∷ ns) h =
    let whole = (p ∷ ps) ++ b'/' ∷ n ∷ ns in
    (clean-is_abs whole h, elements-clean whole h ∙ whole-elements (p ∷ ps) (n ∷ ns) h)

absolute_name : (path name : Bytes) → is_abs name ≡ true → resolve_path path name ≡ clean name
unfolding resolve_path
absolute_name path name h = if_true h (clean name) (clean (join path name))

relative_name :
    (path name : Bytes) → is_abs name ≡ false → resolve_path path name ≡ clean (join path name)
unfolding resolve_path
relative_name path name h = if_false h (clean name) (clean (join path name))

-- what is seen of a cleaned absolute path
cleaned-elements :
    (p : Bytes)
    → is_abs p ≡ true
    → (is_abs (clean p) ≡ true)
      × (split_path (clean p) ≡ elements p)
      × All (λ x. equal x dot_dot ≡ false) (split_path (clean p))
cleaned-elements p h =
    let rooted = clean-is_abs p h in
    (
      rooted,
      split_path-elements (clean p) ∙ elements-clean p h,
      (split_path-IsPart (clean p) rooted).1,
    )

-- A name is resolved as a shell does it: an absolute one from the root, any other from the working
-- directory on, one component after the other, where ".." goes up and stays at the root. The result
-- is an absolute path, and the Authorizer sees exactly these components, none of them "..".
pub resolve_path-meant :
    (path name : Bytes)
    → is_abs path ≡ true
    → (is_abs (resolve_path path name) ≡ true)
      × (split_path (resolve_path path name) ≡ meant path name)
      × All (λ x. equal x dot_dot ≡ false) (split_path (resolve_path path name))
resolve_path-meant path name h = elim (Bool-cases (is_abs name)) [
  | inl absolute ↦
      rw
        (
          if_true absolute (elements name) (enter_all true (elements path) (split b'/' name)),
          absolute_name path name absolute,
        )
        (cleaned-elements name absolute)
  | inr relative ↦
      let (rooted, entered) = joined-elements path name h in
      rw
        (
          if_false relative (elements name) (enter_all true (elements path) (split b'/' name)),
          relative_name path name relative,
          ← entered,
        )
        (cleaned-elements (join path name) rooted)
]
