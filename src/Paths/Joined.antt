-- ===== src/Paths/Joined.antt =====
-- The elements of a path that is put together, or cleaned already.
use mathlib.Core.List.{append_assoc, append-nil}
use viking_ftpd.Prelude.{
  ℕ, ◌≡◌, refl, sym, ap, ◌∙◌, Bool, true, false, ◌==◌, List, [], ◌∷◌, ◌++◌, is_nil, Bytes, equal,
  All, Bool-cases, inl, inr,
}
use viking_ftpd.Paths.{
  split, cons_first, is_abs, elements, enter_all, enter, keep_parts, split_path, dot, dot_dot,
  clean, join,
}
use viking_ftpd.Paths.Parts.{split_path-elements, split_path-IsPart}

cons_first-ne_nil : (c : ℕ) (xs : List Bytes) → is_nil (cons_first c xs) ≡ false
cons_first-ne_nil c [] = refl
cons_first-ne_nil c (x ∷ xs) = refl

split-ne_nil : (s : Bytes) → is_nil (split b'/' s) ≡ false
unfolding split
split-ne_nil [] = refl
split-ne_nil (c ∷ s) = elim (Bool-cases (c == b'/')) [
  | inl slash ↦ rw slash refl
  | inr other ↦ rw other (cons_first-ne_nil c (split b'/' s))
]

cons_first-append :
    (c : ℕ) (xs ys : List Bytes)
    → is_nil xs ≡ false
    → cons_first c (xs ++ ys) ≡ cons_first c xs ++ ys
cons_first-append c [] ys h = absurd (cc)
cons_first-append c (x ∷ xs) ys h = refl

-- The components of two texts joined by "/" are those of the first, then those of the second.
pub split-join : (s t : Bytes) → split b'/' (s ++ b'/' ∷ t) ≡ split b'/' s ++ split b'/' t
unfolding split
split-join [] t = refl
split-join (c ∷ s) t = elim (Bool-cases (c == b'/')) [
  | inl slash ↦ rw slash (ap (◌∷◌ []) (split-join s t))
  | inr other ↦
      rw other
        (rw (split-join s t) (cons_first-append c (split b'/' s) (split b'/' t) (split-ne_nil s)))
]

pub enter_all-append :
    (rooted : Bool) (kept xs ys : List Bytes)
    → enter_all rooted kept (xs ++ ys) ≡ enter_all rooted (enter_all rooted kept xs) ys
unfolding enter_all
enter_all-append rooted kept [] ys = refl
enter_all-append rooted kept (x ∷ xs) ys = enter_all-append rooted (enter rooted kept x) xs ys

-- Parts without a ".." are entered as they are.
enter_all-keep_parts :
    (rooted : Bool) (kept xs : List Bytes)
    → All (λ x. equal x dot_dot ≡ false) (keep_parts xs)
    → enter_all rooted kept xs ≡ kept ++ keep_parts xs
unfolding enter_all keep_parts enter
enter_all-keep_parts rooted kept [] h = sym (append-nil kept)
enter_all-keep_parts rooted kept (x ∷ xs) h = elim (Bool-cases (is_nil x)) [
  | inl empty ↦ rw empty (enter_all-keep_parts rooted kept xs (rw empty at h))
  | inr text ↦ elim (Bool-cases (equal x dot)) [
    | inl stays ↦ rw (text, stays) (enter_all-keep_parts rooted kept xs (rw (text, stays) at h))
    | inr goes ↦
        let (name, names) = rw (text, goes) at h in
        rw (text, goes, name)
          (enter_all-keep_parts rooted (kept ++ x ∷ []) xs names
            ∙ append_assoc kept (x ∷ []) (keep_parts xs))
  ]
]

-- A cleaned path has the same elements.
pub elements-clean : (p : Bytes) → is_abs p ≡ true → elements (clean p) ≡ elements p
unfolding elements clean split_path is_abs
elements-clean p h =
    enter_all-keep_parts (is_abs (clean p)) [] (split b'/' (clean p)) (split_path-IsPart p h).1
    ∙ split_path-elements p

pub clean-is_abs : (p : Bytes) → is_abs p ≡ true → is_abs (clean p) ≡ true
unfolding clean is_abs
clean-is_abs p h = rw h refl

pub join-is_abs : (a b : Bytes) → is_abs a ≡ true → is_abs (join a b) ≡ true
unfolding join is_abs
join-is_abs [] b h = absurd (cc)
join-is_abs (c ∷ a) [] h = clean-is_abs (c ∷ a) h
join-is_abs (c ∷ a) (d ∷ b) h = clean-is_abs ((c ∷ a) ++ b'/' ∷ d ∷ b) h
