-- ===== src/Lpc/Reads/Starts.antt =====
-- docs/lpc_object_format.md: how the texts of the values begin, and how long they are.
use viking_ftpd.Prelude.{
  ℕ, suc, ◌≤◌, ◌≡◌, refl, arith, Bool, true, false, ◌||◌, [], ◌∷◌, ◌++◌, ◌==◌, length,
  length-append, get_or, codes, has_prefix, is_nil, Bytes, pos, negsuc, ℤ, All,
}
use viking_ftpd.Lpc.Value.{
  Value, nil, int, float, str, permission, array, mapping, Items, end, item, Fields, empty, field,
}
use viking_ftpd.Lpc.Cursor.{is_digit, is_space}
use viking_ftpd.Lpc.Decimal.{itoa}
use viking_ftpd.Lpc.DecimalRoundtrip.{itoa-AreDigits, digits_before-ne_nil}
use viking_ftpd.Lpc.Reads.Scalars.{print_chars-length}
use viking_ftpd.Lpc.Printer.{print_string, print_value, print_items, print_fields, IsPrintable}

-- the first bytes of values
unfoldable pub starts_value : ℕ → Bool
unfolding is_digit
starts_value c = c == 34 || (c == b'-' || (is_digit c || (c == b'(' || c == b'n')))

pub starts_value-no_space : (c : ℕ) → starts_value c ≡ true → is_space c ≡ false
unfolding starts_value
starts_value-no_space c h = ground arith

-- no closing bracket, and no comma
pub starts_value-no_end :
    (xs : Bytes)
    → starts_value (get_or xs 0 0) ≡ true
    → (has_prefix xs (codes "})") ≡ false)
      × (has_prefix xs (codes ",})") ≡ false)
      × (has_prefix xs (codes "])") ≡ false)
unfolding starts_value has_prefix
starts_value-no_end [] h = absurd (cc)
starts_value-no_end (c ∷ xs) h = (ground arith, ground arith, ground arith)

-- the first bytes of numbers
abbrev pub starts_number : ℕ → Bool
starts_number c = c == b'-' || is_digit c

digits-start :
    (ds rest : Bytes)
    → All (λ c. is_digit c ≡ true) ds
    → is_nil ds ≡ false
    → starts_number (get_or (ds ++ rest) 0 0) ≡ true
unfolding is_digit
digits-start [] rest h k = absurd (cc)
digits-start (c ∷ ds) rest (h, hs) k = ground arith

pub itoa-starts : (n : ℤ) (rest : Bytes) → starts_number (get_or (itoa n ++ rest) 0 0) ≡ true
unfolding itoa
itoa-starts (pos n) rest =
    digits-start (itoa (pos n)) rest (itoa-AreDigits n)
      (digits_before-ne_nil (suc n) n [] (omega arith))
itoa-starts (negsuc n) rest = refl

pub starts_number-value :
    (c : ℕ) → starts_number c ≡ true → (starts_value c ≡ true) × ((c == 34) ≡ false)
unfolding starts_value
starts_number-value c h = (ground arith, ground arith)

module _ {F : Type 0} where
  pub print_value-starts :
      (v : Value F) (rest : Bytes)
      → IsPrintable v
      → starts_value (get_or (print_value v rest) 0 0) ≡ true
  unfolding print_value starts_value IsPrintable
  print_value-starts nil rest h = refl
  print_value-starts (int n) rest h =
      (starts_number-value (get_or (itoa n ++ rest) 0 0) (itoa-starts n rest)).0
  print_value-starts (str s) rest h = refl
  print_value-starts (array vs) rest h = refl
  print_value-starts (mapping m) rest h = refl
  print_value-starts (float f) rest h = absurd h
  print_value-starts (permission n) rest h = absurd h

  -- The rest is shorter than the text in front of it.
  mutual
    unfolding print_value print_string

    pub print_value-length :
        (v : Value F) (rest : Bytes) → length rest ≤ length (print_value v rest)
    print_value-length nil rest = omega arith
    print_value-length (int n) rest = omega (arith, length-append (itoa n) rest)
    print_value-length (str s) rest = omega (arith, print_chars-length s rest)
    print_value-length (float f) rest = omega arith
    print_value-length (permission n) rest = omega arith
    print_value-length (array vs) rest =
        omega (arith, print_items-length vs (b'}' ∷ b')' ∷ rest), length-append (itoa _) _)
    print_value-length (mapping m) rest =
        omega (arith, print_fields-length m (b']' ∷ b')' ∷ rest), length-append (itoa _) _)

    pub print_items-length :
        (vs : Items F) (rest : Bytes) → length rest ≤ length (print_items vs rest)
    print_items-length end rest = omega arith
    print_items-length (item v vs) rest =
        omega (arith, print_value-length v (b',' ∷ print_items vs rest), print_items-length vs rest)

    pub print_fields-length :
        (m : Fields F) (rest : Bytes) → length rest ≤ length (print_fields m rest)
    print_fields-length empty rest = omega arith
    print_fields-length (field k v m) rest = omega (
      arith,
      print_chars-length k (b':' ∷ print_value v (b',' ∷ print_fields m rest)),
      print_value-length v (b',' ∷ print_fields m rest),
      print_fields-length m rest,
    )
