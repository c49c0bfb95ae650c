-- ===== src/Paths/Parts.antt =====
-- The components that splitPath of pkg/authorization/authorizer.go makes of a path.
use mathlib.Core.Path.{subst}
use viking_ftpd.Prelude.{
  ◌⊎◌, ℕ, ◌≡◌, refl, ap, ◌∙◌, arith, Bool, true, false, ◌||◌, List, [], ◌∷◌, ◌++◌, ◌==◌,
  if◌then◌else◌, is_nil, Bytes, equal, equal_iff, All, Bool-cases, inl, inr,
}
use viking_ftpd.Paths.{
  dot, dot_dot, cons_first, split, join_slash, is_abs, back_up, enter, enter_all, elements,
  keep_parts, split_path,
}

-- no "/" in the text
unfoldable pub has_slash : Bytes → Bool
has_slash [] = false
has_slash (c ∷ s) = c == b'/' || has_slash s

-- A component that names an entry, or "..": not empty, not ".", and without a "/".
pub record IsPart (s : Bytes) : Type 0 where
  pub ne_nil : is_nil s ≡ false
  pub ne_dot : equal s dot ≡ false
  pub no_slash : has_slash s ≡ false

module _ {ℓ κ} {A : Type ℓ} (P : A → Type κ) where
  All-concat : (xs : List A) (y : A) → All P xs → P y → All P (xs ++ y ∷ [])
  All-concat [] y h k = (k, tt)
  All-concat (x ∷ xs) y h k = (h.0, All-concat xs y h.1 k)

abbrev NoSlash : Bytes → Type 0
NoSlash s = has_slash s ≡ false

cons_first-NoSlash :
    (c : ℕ) (xs : List Bytes) → (c == b'/') ≡ false → All NoSlash xs → All NoSlash (cons_first c xs)
unfolding has_slash
cons_first-NoSlash c [] n h = (rw n refl, tt)
cons_first-NoSlash c (x ∷ xs) n h = (rw n h.0, h.1)

split-NoSlash : (p : Bytes) → All NoSlash (split b'/' p)
unfolding split has_slash
split-NoSlash [] = (refl, tt)
split-NoSlash (c ∷ s) = elim (Bool-cases (c == b'/')) [
  | inl slash ↦ rw slash (refl, split-NoSlash s)
  | inr other ↦ rw other (cons_first-NoSlash c (split b'/' s) other (split-NoSlash s))
]

module _ (P : Bytes → Type 0) where
  back_up-All :
      (rooted : Bool) (kept : List Bytes)
      → (rooted ≡ false → P dot_dot)
      → All P kept
      → All P (back_up rooted kept)
  unfolding back_up
  back_up-All true [] d h = tt
  back_up-All false [] d h = (d refl, tt)
  back_up-All rooted (x ∷ []) d h = elim (Bool-cases (equal x dot_dot)) [
    | inl up ↦ rw up (h.0, (subst P ((equal_iff x dot_dot).0 up) h.0, tt))
    | inr down ↦ rw down tt
  ]
  back_up-All rooted (x ∷ y ∷ rest) d h = (h.0, back_up-All rooted (y ∷ rest) d h.1)

  -- What holds of the elements that may be entered holds of all that are kept.
  enter_all-All :
      (rooted : Bool) (kept xs : List Bytes)
      → (rooted ≡ false → P dot_dot)
      → All P kept
      → All (λ x. is_nil x ≡ false → equal x dot ≡ false → equal x dot_dot ≡ false → P x) xs
      → All P (enter_all rooted kept xs)
  unfolding enter_all
  enter_all-All rooted kept [] d h k = h
  enter_all-All rooted kept (x ∷ xs) d h k =
      enter_all-All rooted (enter rooted kept x) xs d
        (entered (Bool-cases (is_nil x)) (Bool-cases (equal x dot)) (Bool-cases (equal x dot_dot)))
        k.1
    where
      entered :
          ((is_nil x ≡ true) ⊎ (is_nil x ≡ false))
          → ((equal x dot ≡ true) ⊎ (equal x dot ≡ false))
          → ((equal x dot_dot ≡ true) ⊎ (equal x dot_dot ≡ false))
          → All P (enter rooted kept x)
      entered (inl a) _ _ = rw (a, enter) h
      entered (inr a) (inl b) _ = rw (a, enter, b) h
      entered (inr a) (inr b) (inl c) = rw (a, enter, b, c) (back_up-All rooted kept d h)
      entered (inr a) (inr b) (inr c) = rw (a, enter, b, c) (All-concat P kept x h (k.0 a b c))

IsPart-dot_dot : IsPart dot_dot
unfolding has_slash equal
IsPart-dot_dot = record { ne_nil = refl; ne_dot = refl; no_slash = refl }

parts_may_enter :
    (xs : List Bytes)
    → All NoSlash xs
    → All (λ x. is_nil x ≡ false → equal x dot ≡ false → equal x dot_dot ≡ false → IsPart x) xs
parts_may_enter [] h = tt
parts_may_enter (x ∷ xs) h =
    (λ a b _. record { ne_nil = a; ne_dot = b; no_slash = h.0 }, parts_may_enter xs h.1)

elements-IsPart : (p : Bytes) → All IsPart (elements p)
unfolding elements
elements-IsPart p =
    enter_all-All IsPart (is_abs p) [] (split b'/' p) (λ _. IsPart-dot_dot) tt
      (parts_may_enter (split b'/' p) (split-NoSlash p))

abbrev IsName : Bytes → Type 0
IsName x = equal x dot_dot ≡ false

names_may_enter :
    (xs : List Bytes)
    → All (λ x. is_nil x ≡ false → equal x dot ≡ false → equal x dot_dot ≡ false → IsName x) xs
names_may_enter [] = tt
names_may_enter (x ∷ xs) = (λ _ _ c. c, names_may_enter xs)

elements-IsName : (p : Bytes) → is_abs p ≡ true → All IsName (elements p)
unfolding elements
elements-IsName p h =
    enter_all-All IsName (is_abs p) [] (split b'/' p) (λ e. absurd (cc)) tt
      (names_may_enter (split b'/' p))

pub split-one : (x : Bytes) → has_slash x ≡ false → split b'/' x ≡ x ∷ []
unfolding split has_slash
split-one [] h = refl
split-one (c ∷ x) h = ground (arith, split-one x)

split-append :
    (x rest : Bytes) → has_slash x ≡ false → split b'/' (x ++ (b'/' ∷ rest)) ≡ x ∷ split b'/' rest
unfolding split has_slash
split-append [] rest h = refl
split-append (c ∷ x) rest h = ground (arith, split-append x rest)

keep_parts-IsPart : (xs : List Bytes) → All IsPart xs → keep_parts xs ≡ xs
unfolding keep_parts
keep_parts-IsPart [] h = refl
keep_parts-IsPart (x ∷ xs) h = rw (h.0.ne_nil, h.0.ne_dot) (ap (◌∷◌ x) (keep_parts-IsPart xs h.1))

keep_parts-cons : (x : Bytes) (xs : List Bytes) → IsPart x → keep_parts (x ∷ xs) ≡ x ∷ keep_parts xs
unfolding keep_parts
keep_parts-cons x xs h = rw (h.ne_nil, h.ne_dot)

-- Joining parts by "/" and splitting again gives the parts back.
keep_parts-split-join :
    (xs : List Bytes) → All IsPart xs → keep_parts (split b'/' (join_slash xs)) ≡ xs
unfolding join_slash
keep_parts-split-join [] h = unfold keep_parts split in refl
keep_parts-split-join (x ∷ []) h = rw (split-one x h.0.no_slash) (keep_parts-IsPart (x ∷ []) h)
keep_parts-split-join (x ∷ y ∷ rest) h =
    rw (split-append x (join_slash (y ∷ rest)) h.0.no_slash, keep_parts-cons x _ h.0)
      (ap (◌∷◌ x) (keep_parts-split-join (y ∷ rest) h.1))

join_slash-ne_nil : (x : Bytes) (xs : List Bytes) → IsPart x → is_nil (join_slash (x ∷ xs)) ≡ false
unfolding join_slash
join_slash-ne_nil x [] h = h.ne_nil
join_slash-ne_nil [] (y ∷ rest) h = refl
join_slash-ne_nil (c ∷ x) (y ∷ rest) h = refl

-- the text that path.Clean makes of the elements that it keeps
abbrev written : Bool → List Bytes → Bytes
written abs xs =
    let body = join_slash xs in if abs then b'/' ∷ body else if is_nil body then dot else body

split_slash : (body : Bytes) → keep_parts (split b'/' (b'/' ∷ body)) ≡ keep_parts (split b'/' body)
unfolding split keep_parts
split_slash body = refl

keep_parts-written :
    (abs : Bool) (xs : List Bytes) → All IsPart xs → keep_parts (split b'/' (written abs xs)) ≡ xs
keep_parts-written true xs h = split_slash (join_slash xs) ∙ keep_parts-split-join xs h
keep_parts-written false [] h = unfold keep_parts split join_slash equal in refl
keep_parts-written false (x ∷ xs) h =
    rw (join_slash-ne_nil x xs h.0) (keep_parts-split-join (x ∷ xs) h)

-- splitPath returns exactly the elements that path.Clean keeps.
pub split_path-elements : (p : Bytes) → split_path p ≡ elements p
unfolding split_path
split_path-elements p = keep_parts-written (is_abs p) (elements p) (elements-IsPart p)

-- What splitPath returns for an absolute path can be used as the keys of a walk: no component is
-- empty, is ".", or holds a "/"; and none is "..", so the walk never leaves the root.
pub split_path-IsPart :
    (p : Bytes)
    → is_abs p ≡ true
    → All IsPart (split_path p) × All (λ x. equal x dot_dot ≡ false) (split_path p)
split_path-IsPart p rooted = rw split_path-elements (elements-IsPart p, elements-IsName p rooted)
