-- ===== src/Sftp/Paging.antt =====
-- pkg/sftpserver/handlers.go: listerAt, which hands a listing out in pages.
use viking_ftpd.Prelude.{
  drop-drop, ℕ, zero, suc, ◌+◌, ◌-◌, ◌≤◌, ◌<◌, ◌≡◌, refl, sym, ap, arith, Bool, true, Option, none,
  some, List, [], ◌∷◌, ◌++◌, if◌then◌else◌, leb, ltb, length, take, drop, Bool-cases, inl, inr,
}

-- ListAt on a buffer of `room` entries: the entries that it copies, and whether it reports io.EOF.
-- The request server counts the offset up from 0, so it is not negative.
unfoldable pub list_at {ℓ} : {A : Type ℓ} → List A → ℕ → ℕ → List A × Bool
list_at l room offset =
    if leb (length l) offset
    then ([], true)
    else (let copied = take room (drop offset l) in (copied, ltb (length copied) room))

-- a page before the others
abbrev prepend {ℓ} : {A : Type ℓ} → List A → Option (List A) → Option (List A)
prepend page none = none
prepend page (some rest) = some (page ++ rest)

-- a client that asks for pages up to the first io.EOF
unfoldable pub read_pages {ℓ} : {A : Type ℓ} → ℕ → List A → ℕ → ℕ → Option (List A)
read_pages zero l room offset = none
read_pages (suc fuel) l room offset =
    let (page, eof) = list_at l room offset in
    let rest = read_pages fuel l room (offset + length page) in
    if eof then some page else prepend page rest

module _ {ℓ} {A : Type ℓ} where
  take-all : (n : ℕ) (xs : List A) → length (take n xs) < n → take n xs ≡ xs
  take-all zero xs h = absurd (omega arith)
  take-all (suc n) [] h = refl
  take-all (suc n) (x ∷ xs) h = ap (λ t. x ∷ t) (take-all n xs (omega arith))

  drop-all : (n : ℕ) (xs : List A) → length xs ≤ n → drop n xs ≡ []
  drop-all zero [] h = refl
  drop-all zero (x ∷ xs) h = absurd (omega arith)
  drop-all (suc n) [] h = refl
  drop-all (suc n) (x ∷ xs) h = drop-all n xs (omega arith)

  take-drop-length : (n : ℕ) (xs : List A) → take n xs ++ drop (length (take n xs)) xs ≡ xs
  take-drop-length zero xs = refl
  take-drop-length (suc n) [] = refl
  take-drop-length (suc n) (x ∷ xs) = ap (λ t. x ∷ t) (take-drop-length n xs)

  read_pages-drop :
      (fuel : ℕ) (l : List A) (room offset : ℕ)
      → 0 < room
      → length l - offset < fuel
      → read_pages fuel l room offset ≡ some (drop offset l)
  unfolding read_pages list_at
  read_pages-drop zero l room offset h k = absurd (omega arith)
  read_pages-drop (suc fuel) l room offset h k = elim (Bool-cases (leb (length l) offset)) [
    | inl past ↦ rw (past, drop-all offset l (ground arith)) refl
    | inr within ↦ elim (Bool-cases (ltb (length (take room (drop offset l))) room)) [
      | inl short ↦ rw (within, short, take-all room (drop offset l) (ground arith)) refl
      | inr full ↦
          let page = take room (drop offset l) in
          rw (within, full, read_pages-drop fuel l room (offset + length page) h (ground arith))
            (ap some
              (rw (sym (drop-drop offset (length page) l)) (take-drop-length room (drop offset l))))
    ]
  ]

  -- Whatever the size of its buffer, if only it has room, a client that asks for page after page up
  -- to the first io.EOF gets every entry of the listing once, in order, and it gets there.
  pub read_pages-roundtrip :
      (l : List A) (room : ℕ) → 0 < room → read_pages (suc (length l)) l room 0 ≡ some l
  read_pages-roundtrip l room h = read_pages-drop (suc (length l)) l room 0 h (omega arith)
