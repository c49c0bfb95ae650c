-- ===== src/Lpc/Scalars.antt =====
-- pkg/lpc/oparser.go: the parsers of strings, numbers, counts and identifiers.
use viking_ftpd.Prelude.{
  ℕ, zero, suc, ◌-◌, Bool, true, false, not, ◌||◌, Option, none, some, [], ◌∷◌, ◌++◌, ◌==◌,
  if◌then◌else◌, length, drop, Bytes, ℤ,
}
use viking_ftpd.Lpc.Value.{Float64, Value, int, float}
use viking_ftpd.Lpc.Cursor.{
  LineParser, LpcError, Result, ok, err, Parser, pure, fail, ◌>>=◌, peek, advance, accept,
  count_while, slice_from, next_byte, is_digit, is_letter, is_ident_char, is_hex_digit,
}
use viking_ftpd.Lpc.Decimal.{atoi}
use viking_ftpd.Lpc.Rune.{rune_after}

-- the map escapeSequences
unfoldable pub escape_sequence : ℕ → Option ℕ
escape_sequence c =
    if c == b'0'
    then some 0
    else if c == b'a'
    then some 7
    else if c == b'b'
    then some 8
    else if c == b't'
    then some 9
    else if c == b'n'
    then some 10
    else if c == b'v'
    then some 11
    else if c == b'f'
    then some 12
    else if c == b'r'
    then some 13
    else if c == b'"'
    then some b'"'
    else if c == b'\\'
    then some b'\\'
    else none

-- the byte or rune behind a backslash, `rest` being p.s[p.pos:]
unfoldable pub escaped_bytes : Bytes → Result (Bytes × ℕ)
escaped_bytes [] = err LpcError.unterminated_string
escaped_bytes (c ∷ rest) = elim (escape_sequence c) [
  | some e ↦ ok (e ∷ [], 1)
  | none ↦ ok (rune_after c rest)
]

unfoldable pub moved : Result (Bytes × ℕ) → Parser Bytes
moved (ok (written, width)) p = (ok written, advance width p)
moved (err e) p = (err e, p)

unfoldable pub escape : Parser Bytes
unfolding moved escaped_bytes
escape p = moved (escaped_bytes (drop p.pos p.s)) p

-- the switch on the byte `c`; `again` is the next round with the builder's new content
unfoldable pub string_byte : (Bytes → Parser Bytes) → Bytes → ℕ → Parser Bytes
unfolding escape
string_byte again b c =
    if c == b'"'
    then pure b
    else if c == b'\n'
    then fail LpcError.newline_in_string
    else if c == b'\\'
    then (do w ← escape; again (b ++ w))
    else again (b ++ c ∷ [])

abbrev pub string_round : (Bytes → Parser Bytes) → Bytes → Option ℕ → Parser Bytes
string_round again b none = fail LpcError.unterminated_string
string_round again b (some c) = string_byte again b c

unfoldable pub string_body : ℕ → Bytes → Parser Bytes
string_body zero b = fail LpcError.out_of_fuel
string_body (suc n) b = do c ← next_byte; string_round (string_body n) b c

-- The loop makes one round for each byte left, and one to see the end.
unfoldable pub rounds_left : LineParser → ℕ
rounds_left p = suc (length p.s - p.pos)

abbrev pub string_loop : Parser Bytes
string_loop p = string_body (rounds_left p) [] p

unfoldable pub parse_string : Parser Bytes
parse_string = do opened ← accept b'"'; if not opened then fail LpcError.no_quote else string_loop

-- `if p.accept('.') { … }`; the result is isFloat
unfoldable pub fraction : Parser Bool
fraction = do
  dot ← accept b'.'
  if not dot then pure false else (do
    frac_digits ← count_while is_digit
    if frac_digits == 0 then fail LpcError.no_fraction_digits else pure true)

-- `if p.accept('=') { … }`
unfoldable pub hex_tail : Parser Bool
hex_tail = do
  equals ← accept b'='
  if not equals then pure false else (do
    hex_digits ← count_while is_hex_digit
    if hex_digits == 0 then fail LpcError.no_hex_digits else pure true)

-- the token up to its '='
unfoldable pub before_equals : Bytes → Bytes
before_equals [] = []
before_equals (c ∷ s) = let rest = before_equals s in if c == b'=' then [] else c ∷ rest

-- a result that moves no cursor
module _ {A : Type 0} where
  abbrev pub answer : Result A → Parser A
  answer r p = (r, p)

module _ {F : Type 0} ⦃fl : Float64 F⦄ where
  abbrev pub float_result : Option F → Result (Value F)
  float_result none = err LpcError.invalid_float
  float_result (some f) = ok (float f)

  abbrev pub int_result : Option ℤ → Result (Value F)
  int_result none = err LpcError.invalid_integer
  int_result (some n) = ok (int n)

  unfoldable pub number_value : Bool → ℕ → Bytes → Result (Value F)
  unfolding before_equals
  number_value is_float int_digits tok =
      if is_float
      then (if int_digits == 0
          then err LpcError.no_int_digits
          else float_result (fl.parse_float (before_equals tok)))
      else int_result (atoi tok)

  -- parseNumber from its sign on, with `start` as the source has it
  unfoldable pub number_from : ℕ → Parser (Value F)
  number_from start = do
    minus ← accept b'-'
    int_digits ← count_while is_digit
    fractional ← fraction
    exact ← hex_tail
    tok ← slice_from start
    answer (number_value (fractional || exact) int_digits tok)

  unfoldable pub parse_number : Parser (Value F)
  unfolding number_from
  parse_number p = number_from p.pos p

abbrev pub count_result : Option ℤ → Result ℤ
count_result none = err LpcError.bad_count
count_result (some n) = ok n

-- parseCount, with `start` as the source has it
unfoldable pub count_from : ℕ → Parser ℤ
count_from start = do
  digits ← count_while is_digit
  tok ← slice_from start
  if digits == 0 then fail LpcError.no_count else answer (count_result (atoi tok))

unfoldable pub parse_count : Parser ℤ
unfolding count_from
parse_count p = count_from p.pos p

-- parseIdentifier behind its first letter
unfoldable pub identifier_from : ℕ → Parser Bytes
identifier_from start = do tail_length ← count_while is_ident_char; slice_from start

unfoldable pub parse_identifier : Parser Bytes
unfolding identifier_from
parse_identifier p =
    if not (is_letter (peek p 0))
    then (err LpcError.bad_identifier, p)
    else identifier_from p.pos (advance 1 p)
