-- ===== src/Vfs/Listing.antt =====
-- pkg/vfs/vfs.go: the order of a directory listing.
use mathlib.Core.List.{Perm}
use mathlib.Core.List.Perm
use viking_ftpd.Prelude.{
  ℕ, ◌≡◌, refl, arith, Bool, true, false, ◌||◌, ◌&&◌, List, [], ◌∷◌, if◌then◌else◌, ltb, ◌==◌,
  Bytes, Bool-cases, inl, inr,
}

-- What the package reads of os.FileInfo.
pub record FileInfo : Type 0 where
  pub name : Bytes
  pub size : ℕ
  pub is_dir : Bool

-- a < b on strings
unfoldable pub less : Bytes → Bytes → Bool
less a [] = false
less [] (y ∷ b) = true
less (x ∷ a) (y ∷ b) = ltb x y || (x == y && less a b)

unfoldable pub insert : FileInfo → List FileInfo → List FileInfo
insert fi [] = fi ∷ []
insert fi (x ∷ xs) =
    let rest = insert fi xs in if less x.name fi.name then x ∷ rest else fi ∷ x ∷ xs

-- sort.Slice by Name(). The names in one directory are distinct, so the order is determined.
unfoldable pub sort_by_name : List FileInfo → List FileInfo
sort_by_name [] = []
sort_by_name (fi ∷ rest) = insert fi (sort_by_name rest)

-- The first name of `xs` is no smaller than that of `x`.
abbrev pub Follows : FileInfo → List FileInfo → Type 0
Follows x [] = Unit
Follows x (y ∷ rest) = less y.name x.name ≡ false

-- Every name is followed by no smaller one.
abbrev pub IsSorted : List FileInfo → Type 0
IsSorted [] = Unit
IsSorted (x ∷ xs) = Follows x xs × IsSorted xs

insert-Perm : (fi : FileInfo) (xs : List FileInfo) → Perm (insert fi xs) (fi ∷ xs)
unfolding insert
insert-Perm fi [] = Perm.refl (fi ∷ [])
insert-Perm fi (x ∷ xs) = elim (Bool-cases (less x.name fi.name)) [
  | inl later ↦ rw later (Perm.trans (Perm.cons x (insert-Perm fi xs)) (Perm.swap fi x xs))
  | inr here ↦ rw here (Perm.refl (fi ∷ x ∷ xs))
]

less-asym : (a b : Bytes) → less a b ≡ true → less b a ≡ false
unfolding less
less-asym [] [] h = ground arith
less-asym [] (y ∷ b) h = refl
less-asym (x ∷ a) [] h = ground arith
less-asym (x ∷ a) (y ∷ b) h = ground (arith, less-asym a b)

insert-Follows :
    (fi x : FileInfo) (xs : List FileInfo)
    → Follows x xs
    → less fi.name x.name ≡ false
    → Follows x (insert fi xs)
unfolding insert
insert-Follows fi x [] h k = k
insert-Follows fi x (y ∷ xs) h k = elim (Bool-cases (less y.name fi.name)) [
  | inl later ↦ rw later h
  | inr here ↦ rw here k
]

insert-IsSorted : (fi : FileInfo) (xs : List FileInfo) → IsSorted xs → IsSorted (insert fi xs)
unfolding insert
insert-IsSorted fi [] h = (tt, tt)
insert-IsSorted fi (x ∷ xs) (h, hs) = elim (Bool-cases (less x.name fi.name)) [
  | inl later ↦
      rw later (insert-Follows fi x xs h (less-asym x.name fi.name later), insert-IsSorted fi xs hs)
  | inr here ↦ rw here (here, (h, hs))
]

-- A directory listing holds the entries read, in the order of their names: none is followed by a
-- smaller name.
pub sort_by_name-IsSorted :
    (xs : List FileInfo) → IsSorted (sort_by_name xs) × Perm (sort_by_name xs) xs
unfolding sort_by_name
sort_by_name-IsSorted [] = (tt, Perm.refl [])
sort_by_name-IsSorted (fi ∷ rest) =
    let (sorted, same) = sort_by_name-IsSorted rest in
    (
      insert-IsSorted fi (sort_by_name rest) sorted,
      Perm.trans (insert-Perm fi (sort_by_name rest)) (Perm.cons fi same),
    )
