-- ===== src/Lpc/Printer.antt =====
-- docs/lpc_object_format.md: the texts of the values, as the MUD's save_object writes them, in front
-- of a rest. This is a description of the format that does not go by the parser of pkg/lpc.
use viking_ftpd.Prelude.{
  ℕ, suc, ◌^◌, ◌<◌, ◌≡◌, true, false, equal, All, [], ◌∷◌, ◌++◌, ◌==◌, if◌then◌else◌, Bytes, pos,
  negsuc, ℤ,
}
use viking_ftpd.Lpc.Value.{
  Value, nil, int, float, str, permission, array, mapping, Items, end, item, Fields, empty, field,
}
use viking_ftpd.Lpc.Cursor.{is_letter, is_ident_char}
use viking_ftpd.Lpc.Decimal.{itoa}

-- a character inside quotes
unfoldable pub print_char : ℕ → Bytes → Bytes
print_char c rest =
    if c == 34
    then 92 ∷ 34 ∷ rest
    else (if c == 92 then 92 ∷ 92 ∷ rest else (if c == 10 then 92 ∷ b'n' ∷ rest else c ∷ rest))

-- the characters and the closing quote
unfoldable pub print_chars : Bytes → Bytes → Bytes
unfolding print_char
print_chars [] rest = 34 ∷ rest
print_chars (c ∷ s) rest = print_char c (print_chars s rest)

unfoldable pub print_string : Bytes → Bytes → Bytes
unfolding print_chars
print_string s rest = 34 ∷ print_chars s rest

abbrev pub print_int : ℤ → Bytes → Bytes
print_int n rest = itoa n ++ rest

module _ {F : Type 0} where
  abbrev pub size_items : Items F → ℕ
  size_items end = 0
  size_items (item v vs) = suc (size_items vs)

  abbrev pub size_fields : Fields F → ℕ
  size_fields empty = 0
  size_fields (field k v m) = suc (size_fields m)

module _ {F : Type 0} where
  unfoldable mutual
    unfolding print_string

    pub print_value : Value F → Bytes → Bytes
    print_value nil rest = b'n' ∷ b'i' ∷ b'l' ∷ rest
    print_value (int n) rest = print_int n rest
    print_value (str s) rest = print_string s rest
    print_value (array vs) rest =
        b'(' ∷ b'{' ∷ print_int (pos (size_items vs)) (b'|' ∷ print_items vs (b'}' ∷ b')' ∷ rest))
    print_value (mapping m) rest =
        b'(' ∷ b'[' ∷ print_int (pos (size_fields m)) (b'|' ∷ print_fields m (b']' ∷ b')' ∷ rest))
    print_value (float f) rest = rest
    print_value (permission n) rest = rest

    pub print_items : Items F → Bytes → Bytes
    print_items end rest = rest
    print_items (item v vs) rest = print_value v (b',' ∷ print_items vs rest)

    pub print_fields : Fields F → Bytes → Bytes
    print_fields empty rest = rest
    print_fields (field k v m) rest =
        print_string k (b':' ∷ print_value v (b',' ∷ print_fields m rest))

-- the ints of 64 bits
abbrev pub IsInt64 : ℤ → Type 0
IsInt64 (pos n) = n < 2 ^ 63
IsInt64 (negsuc n) = n < 2 ^ 63

module _ {F : Type 0} where
  -- a key that is not among those of a mapping
  abbrev pub IsFresh : Bytes → Fields F → Type 0
  IsFresh k empty = Unit
  IsFresh k (field j v m) = (equal k j ≡ false) × IsFresh k m

  -- The values that the format has, but for floats: ints of 64 bits, lists whose size is one, and
  -- mappings from different strings.
  unfoldable mutual
    pub IsPrintable : Value F → Type 0
    IsPrintable nil = Unit
    IsPrintable (int n) = IsInt64 n
    IsPrintable (str s) = Unit
    IsPrintable (array vs) = (size_items vs < 2 ^ 63) × ArePrintable vs
    IsPrintable (mapping m) = (size_fields m < 2 ^ 63) × HavePrintable m
    IsPrintable (float f) = ⊥
    IsPrintable (permission n) = ⊥

    pub ArePrintable : Items F → Type 0
    ArePrintable end = Unit
    ArePrintable (item v vs) = IsPrintable v × ArePrintable vs

    pub HavePrintable : Fields F → Type 0
    HavePrintable empty = Unit
    HavePrintable (field k v m) = IsFresh k m × IsPrintable v × HavePrintable m

-- A variable name, as the parser of pkg/lpc takes it, with a letter in front.
abbrev pub IsIdentifier : Bytes → Type 0
IsIdentifier [] = ⊥
IsIdentifier (c ∷ s) = (is_letter c ≡ true) × All (λ d. is_ident_char d ≡ true) s

module _ {F : Type 0} where
  -- a line, without its end
  unfoldable pub print_line : Bytes → Value F → Bytes
  unfolding print_value
  print_line k v = k ++ b' ' ∷ print_value v []

  -- the lines of an object
  unfoldable pub print_object : Fields F → Bytes
  unfolding print_line
  print_object empty = []
  print_object (field k v m) = print_line k v ++ 10 ∷ print_object m

  -- different variable names, with printable values
  abbrev pub IsObject : Fields F → Type 0
  IsObject empty = Unit
  IsObject (field k v m) = IsFresh k m × IsIdentifier k × IsPrintable v × IsObject m
