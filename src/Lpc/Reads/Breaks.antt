-- ===== src/Lpc/Reads/Breaks.antt =====
-- docs/lpc_object_format.md: no line of the format has a line break inside.
use mathlib.Core.Path.{subst}
use viking_ftpd.Prelude.{
  ℕ, suc, ◌≡◌, refl, sym, arith, true, false, [], ◌∷◌, ◌++◌, ◌==◌, Bytes, All, pos, negsuc, ℤ,
}
use viking_ftpd.Lpc.Value.{
  Value, nil, int, float, str, permission, array, mapping, Items, end, item, Fields, empty, field,
}
use viking_ftpd.Lpc.Cursor.{is_digit, is_letter, is_ident_char}
use viking_ftpd.Lpc.Decimal.{itoa}
use viking_ftpd.Lpc.DecimalRoundtrip.{itoa-AreDigits}
use viking_ftpd.Lpc.Printer.{
  print_char, print_chars, print_string, print_value, print_items, print_fields, print_line,
  size_items, size_fields, IsIdentifier,
}
use viking_ftpd.Lpc.Reads.Numbers.{itoa-negsuc}

-- no line break
abbrev pub NoBreak : Bytes → Type 0
NoBreak = All (λ c. (c == 10) ≡ false)

NoBreak-append : (xs ys : Bytes) → NoBreak xs → NoBreak ys → NoBreak (xs ++ ys)
NoBreak-append [] ys h k = k
NoBreak-append (x ∷ xs) ys (h, hs) k = (h, NoBreak-append xs ys hs k)

NoBreak-digits : (ds : Bytes) → All (λ c. is_digit c ≡ true) ds → NoBreak ds
unfolding is_digit
NoBreak-digits [] h = tt
NoBreak-digits (d ∷ ds) (h, hs) = (ground arith, NoBreak-digits ds hs)

NoBreak-itoa : (n : ℤ) → NoBreak (itoa n)
NoBreak-itoa (pos n) = NoBreak-digits (itoa (pos n)) (itoa-AreDigits n)
NoBreak-itoa (negsuc n) =
    subst NoBreak (sym (itoa-negsuc n))
      (refl, NoBreak-digits (itoa (pos (suc n))) (itoa-AreDigits (suc n)))

letter-NoBreak : (c : ℕ) → is_letter c ≡ true → (c == 10) ≡ false
unfolding is_letter
letter-NoBreak c h = ground arith

ident_char-NoBreak : (c : ℕ) → is_ident_char c ≡ true → (c == 10) ≡ false
unfolding is_ident_char is_letter is_digit
ident_char-NoBreak c h = ground arith

ident_chars-NoBreak : (s : Bytes) → All (λ d. is_ident_char d ≡ true) s → NoBreak s
ident_chars-NoBreak [] h = tt
ident_chars-NoBreak (d ∷ s) (h, hs) = (ident_char-NoBreak d h, ident_chars-NoBreak s hs)

identifier-NoBreak : (k : Bytes) → IsIdentifier k → NoBreak k
identifier-NoBreak [] h = tt
identifier-NoBreak (c ∷ s) (h, hs) = (letter-NoBreak c h, ident_chars-NoBreak s hs)

print_char-NoBreak : (c : ℕ) (xs : Bytes) → NoBreak xs → NoBreak (print_char c xs)
unfolding print_char
print_char-NoBreak c xs h = ground arith

print_chars-NoBreak : (s xs : Bytes) → NoBreak xs → NoBreak (print_chars s xs)
unfolding print_chars
print_chars-NoBreak [] xs h = (refl, h)
print_chars-NoBreak (c ∷ s) xs h =
    print_char-NoBreak c (print_chars s xs) (print_chars-NoBreak s xs h)

module _ {F : Type 0} where
  mutual
    unfolding print_value print_string

    print_value-NoBreak : (v : Value F) (xs : Bytes) → NoBreak xs → NoBreak (print_value v xs)
    print_value-NoBreak nil xs h = (refl, (refl, (refl, h)))
    print_value-NoBreak (int n) xs h = NoBreak-append (itoa n) xs (NoBreak-itoa n) h
    print_value-NoBreak (str s) xs h = (refl, print_chars-NoBreak s xs h)
    print_value-NoBreak (float f) xs h = h
    print_value-NoBreak (permission n) xs h = h
    print_value-NoBreak (array vs) xs h = (
      refl,
      (
        refl,
        NoBreak-append (itoa (pos (size_items vs))) _ (NoBreak-itoa (pos (size_items vs)))
            (refl, print_items-NoBreak vs (b'}' ∷ b')' ∷ xs) (refl, (refl, h))),
      ),
    )
    print_value-NoBreak (mapping m) xs h = (
      refl,
      (
        refl,
        NoBreak-append (itoa (pos (size_fields m))) _ (NoBreak-itoa (pos (size_fields m)))
            (refl, print_fields-NoBreak m (b']' ∷ b')' ∷ xs) (refl, (refl, h))),
      ),
    )

    print_items-NoBreak : (vs : Items F) (xs : Bytes) → NoBreak xs → NoBreak (print_items vs xs)
    print_items-NoBreak end xs h = h
    print_items-NoBreak (item v vs) xs h =
        print_value-NoBreak v (b',' ∷ print_items vs xs) (refl, print_items-NoBreak vs xs h)

    print_fields-NoBreak : (m : Fields F) (xs : Bytes) → NoBreak xs → NoBreak (print_fields m xs)
    print_fields-NoBreak empty xs h = h
    print_fields-NoBreak (field k v m) xs h = (
      refl,
      print_chars-NoBreak k (b':' ∷ print_value v (b',' ∷ print_fields m xs)) (
        refl,
        print_value-NoBreak v (b',' ∷ print_fields m xs) (refl, print_fields-NoBreak m xs h),
      ),
    )

  -- a printed line is one line
  pub print_line-NoBreak : (k : Bytes) (v : Value F) → IsIdentifier k → NoBreak (print_line k v)
  unfolding print_line
  print_line-NoBreak k v h =
      NoBreak-append k (b' ' ∷ print_value v []) (identifier-NoBreak k h)
        (refl, print_value-NoBreak v [] tt)
