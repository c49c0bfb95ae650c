-- ===== src/Prelude/Lists.antt =====
-- Lists measured and indexed by native numbers, under the library's names.
use Prim.Native.Nat.{ℕ, zero, suc, ◌+◌, ◌-◌, ◌<◌}
use mathlib.Core.Path.{◌≡◌, refl, sym, ap, ◌∙◌}
use mathlib.Core.Bool.{Bool, true, false}
use mathlib.Core.List.{List, [], ◌∷◌, ◌++◌}
use native.Mathlib.Omega.{arith}

module _ {ℓ} {A : Type ℓ} where
  abbrev pub length : List A → ℕ
  length [] = 0
  length (x ∷ xs) = suc (length xs)

  abbrev pub get_or : List A → ℕ → A → A
  get_or [] i d = d
  get_or (x ∷ xs) zero d = x
  get_or (x ∷ xs) (suc i) d = get_or xs i d

  abbrev pub take : ℕ → List A → List A
  take zero xs = []
  take (suc n) [] = []
  take (suc n) (x ∷ xs) = x ∷ take n xs

  abbrev pub drop : ℕ → List A → List A
  drop zero xs = xs
  drop (suc n) [] = []
  drop (suc n) (x ∷ xs) = drop n xs

  abbrev pub is_nil : List A → Bool
  is_nil [] = true
  is_nil (_ ∷ _) = false

  pub length-append : (xs ys : List A) → length (xs ++ ys) ≡ length xs + length ys
  length-append [] ys = omega arith
  length-append (x ∷ xs) ys = omega (arith, length-append xs ys)

  pub length-drop : (n : ℕ) (xs : List A) → length (drop n xs) ≡ length xs - n
  length-drop zero xs = omega arith
  length-drop (suc n) [] = omega arith
  length-drop (suc n) (x ∷ xs) = omega (arith, length-drop n xs)

  pub drop-nil : (n : ℕ) → drop n [] ≡ []
  drop-nil zero = refl
  drop-nil (suc n) = refl

  pub drop-drop : (m n : ℕ) (xs : List A) → drop n (drop m xs) ≡ drop (m + n) xs
  drop-drop zero n xs = ap (λ k. drop k xs) (omega arith)
  drop-drop (suc m) n [] = drop-nil n ∙ sym (drop-nil (suc m + n))
  drop-drop (suc m) n (x ∷ xs) =
      let same : suc (m + n) ≡ suc m + n = omega arith in
      drop-drop m n xs ∙ ap (λ k. drop k (x ∷ xs)) same

  pub get_or-drop : (m n : ℕ) (xs : List A) (d : A) → get_or (drop m xs) n d ≡ get_or xs (m + n) d
  get_or-drop zero n xs d = ap (λ k. get_or xs k d) (omega arith)
  get_or-drop (suc m) n [] d = refl
  get_or-drop (suc m) n (x ∷ xs) d =
      let same : suc (m + n) ≡ suc m + n = omega arith in
      get_or-drop m n xs d ∙ ap (λ k. get_or (x ∷ xs) k d) same

  pub take-append : (xs ys : List A) → take (length xs) (xs ++ ys) ≡ xs
  take-append [] ys = refl
  take-append (x ∷ xs) ys = ap (λ zs. x ∷ zs) (take-append xs ys)

  pub drop-append : (xs ys : List A) → drop (length xs) (xs ++ ys) ≡ ys
  drop-append [] ys = refl
  drop-append (x ∷ xs) ys = drop-append xs ys

  -- An element behind the first `n` stands at index `n`.
  pub drop-cons :
      (n : ℕ) (xs : List A) (d : A) {y : A} {ys : List A}
      → drop n xs ≡ y ∷ ys
      → (n < length xs) × (get_or xs n d ≡ y) × (drop (suc n) xs ≡ ys)
  drop-cons zero [] d h = absurd (cc)
  drop-cons zero (x ∷ xs) d h = (omega arith, cc, cc)
  drop-cons (suc n) [] d h = absurd (cc)
  drop-cons (suc n) (x ∷ xs) d h =
      let (less, at, rest) = drop-cons n xs d h in (omega arith, at, rest)

-- A predicate that holds of every element.
abbrev pub All {ℓ κ} : {A : Type ℓ} → (A → Type κ) → List A → Type κ
All P [] = Unit
All P (x ∷ xs) = P x × All P xs
