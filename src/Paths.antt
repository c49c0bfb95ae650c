-- ===== src/Paths.antt =====
-- The path functions of Go's standard library that the program calls: strings.Split by "/",
-- path.Clean and filepath.Clean (the same on Unix), filepath.Join and filepath.IsAbs, as their
-- documentation gives them; and splitPath of pkg/authorization/authorizer.go.
pub mod Parts
pub mod Joined
mod Tests
use viking_ftpd.Prelude.{
  ℕ, Bool, true, false, not, ◌&&◌, ◌||◌, List, [], ◌∷◌, ◌++◌, ◌==◌, if◌then◌else◌, is_nil, Bytes,
  codes, equal,
}

abbrev pub dot : Bytes
dot = codes "."

abbrev pub dot_dot : Bytes
dot_dot = codes ".."

abbrev pub cons_first : ℕ → List Bytes → List Bytes
cons_first c [] = (c ∷ []) ∷ []
cons_first c (x ∷ xs) = (c ∷ x) ∷ xs

-- strings.Split(s, sep) for a separator of one byte
unfoldable pub split : ℕ → Bytes → List Bytes
split sep [] = [] ∷ []
split sep (c ∷ s) = let rest = split sep s in if c == sep then [] ∷ rest else cons_first c rest

-- strings.Join(parts, "/")
unfoldable pub join_slash : List Bytes → Bytes
join_slash [] = []
join_slash (x ∷ []) = x
join_slash (x ∷ y ∷ rest) = x ++ (b'/' ∷ join_slash (y ∷ rest))

-- filepath.IsAbs
unfoldable pub is_abs : Bytes → Bool
is_abs [] = false
is_abs (c ∷ s) = c == b'/'

-- ".." behind the elements: it removes the last one, unless that is a ".." itself; at the start it
-- is dropped in a rooted path and kept in another.
unfoldable pub back_up : Bool → List Bytes → List Bytes
back_up rooted [] = if rooted then [] else dot_dot ∷ []
back_up rooted (x ∷ []) = if equal x dot_dot then x ∷ dot_dot ∷ [] else []
back_up rooted (x ∷ y ∷ rest) = x ∷ back_up rooted (y ∷ rest)

-- one element of the path, behind those that are kept
unfoldable pub enter : Bool → List Bytes → Bytes → List Bytes
unfolding back_up
enter rooted kept x =
    if is_nil x || equal x dot
    then kept
    else if equal x dot_dot
    then back_up rooted kept
    else kept ++ x ∷ []

unfoldable pub enter_all : Bool → List Bytes → List Bytes → List Bytes
unfolding enter
enter_all rooted kept [] = kept
enter_all rooted kept (x ∷ xs) = enter_all rooted (enter rooted kept x) xs

-- the elements that path.Clean keeps
unfoldable pub elements : Bytes → List Bytes
unfolding enter_all split is_abs
elements p = enter_all (is_abs p) [] (split b'/' p)

-- path.Clean
unfoldable pub clean : Bytes → Bytes
unfolding elements join_slash
clean p =
    let body = join_slash (elements p) in
    if is_abs p then b'/' ∷ body else if is_nil body then dot else body

-- filepath.Join(a, b): empty elements are ignored, and the result is cleaned.
unfoldable pub join : Bytes → Bytes → Bytes
unfolding clean
join a b =
    if is_nil a
    then (if is_nil b then [] else clean b)
    else if is_nil b
    then clean a
    else clean (a ++ (b'/' ∷ b))

-- the loop of splitPath
unfoldable pub keep_parts : List Bytes → List Bytes
keep_parts [] = []
keep_parts (s ∷ rest) =
    let later = keep_parts rest in if not (is_nil s) && not (equal s dot) then s ∷ later else later

unfoldable pub split_path : Bytes → List Bytes
unfolding keep_parts clean split
split_path p = keep_parts (split b'/' (clean p))
