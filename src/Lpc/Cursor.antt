-- ===== src/Lpc/Cursor.antt =====
-- pkg/lpc/oparser.go: the byte cursor lineParser, its primitive moves, and the errors. A method that
-- may fail returns its result beside the cursor, which keeps its position on an error too.
use viking_ftpd.Prelude.{
  ℕ, suc, ◌+◌, ◌-◌, Bool, true, false, ◌&&◌, ◌||◌, Option, none, some, [], ◌∷◌, ◌==◌, leb, ltb,
  if◌then◌else◌, length, get_or, take, drop, Bytes, has_prefix,
}

pub record LineParser : Type 0 where
  pub s : Bytes
  pub pos : ℕ

-- One constructor for each message; `in_array`, `in_map` and `bad_map_key` are the %w wrappers.
-- `out_of_fuel` is no error of the program: Lpc/Progress shows that it is never returned.
pub data LpcError : Type 0 where
  leading_whitespace no_single_space second_space trailing_whitespace no_end_of_line : LpcError
  no_opener invalid_nil unexpected_character : LpcError
  no_quote newline_in_string unterminated_string : LpcError
  no_fraction_digits no_hex_digits no_int_digits invalid_float invalid_integer : LpcError
  no_count bad_count : LpcError
  no_array no_array_bar array_not_empty no_array_end wrong_array_size : LpcError
  no_map no_map_bar map_not_empty no_map_end wrong_map_size unsupported_key no_colon : LpcError
  bad_identifier out_of_fuel : LpcError
  in_array in_map bad_map_key : LpcError → LpcError

pub data Result (A : Type 0) : Type 0 where
  ok : A → Result A
  err : LpcError → Result A

abbrev pub Parser : Type 0 → Type 0
Parser A = LineParser → Result A × LineParser

module _ {A : Type 0} where
  abbrev pub pure : A → Parser A
  pure a p = (ok a, p)

  abbrev pub fail : LpcError → Parser A
  fail e p = (err e, p)

module _ {A B : Type 0} where
  abbrev pub continue : Result A → (A → Parser B) → Parser B
  continue (ok a) f q = f a q
  continue (err e) f q = (err e, q)

  infixl 5 ◌>>=◌ ◌>>◌
  unfoldable pub ◌>>=◌ : Parser A → (A → Parser B) → Parser B
  ◌>>=◌ m f p = continue (m p).0 f (m p).1

  abbrev pub ◌>>◌ : Parser A → Parser B → Parser B
  m >> k = m >>= λ _. k

module _ {A : Type 0} where
  -- `if err != nil { return fmt.Errorf("…: %w", err) }`
  abbrev pub wrapped : (LpcError → LpcError) → Result A → Result A
  wrapped w (ok a) = ok a
  wrapped w (err e) = err (w e)

  unfoldable pub wrap_error : (LpcError → LpcError) → Parser A → Parser A
  wrap_error w m p = (wrapped w (m p).0, (m p).1)

-- the byte n positions ahead, or 0 at the end of the input
unfoldable pub peek : LineParser → ℕ → ℕ
peek p n = get_or p.s (p.pos + n) 0

abbrev pub advance : ℕ → LineParser → LineParser
advance n p = record p { pos = p.pos + n }

unfoldable pub accept : ℕ → Parser Bool
unfolding peek
accept b p = if peek p 0 == b then (ok true, advance 1 p) else (ok false, p)

-- the method match
unfoldable pub match_prefix : Bytes → Parser Bool
match_prefix prefix p =
    if has_prefix (drop p.pos p.s) prefix
    then (ok true, advance (length prefix) p)
    else (ok false, p)

unfoldable pub span_length : (ℕ → Bool) → Bytes → ℕ
span_length test [] = 0
span_length test (c ∷ s) = let more = span_length test s in if test c then suc more else 0

-- `for test(p.peek(0)) { p.pos++ }`, and the number of its rounds. Every test in use refuses the 0
-- that peek returns at the end, so the loop runs over the bytes from the cursor on.
unfoldable pub count_while : (ℕ → Bool) → Parser ℕ
unfolding span_length
count_while test p = let n = span_length test (drop p.pos p.s) in (ok n, advance n p)

abbrev pub is_space : ℕ → Bool
is_space c = c == b' ' || c == b'\t'

unfoldable pub skip_spaces : Parser ℕ
unfolding count_while
skip_spaces = count_while is_space

-- p.pos, read
abbrev pub position : Parser ℕ
position p = (ok p.pos, p)

abbrev pub look : ℕ → Parser ℕ
look n p = (ok (peek p n), p)

-- p.s[start:p.pos]
unfoldable pub slice_from : ℕ → Parser Bytes
slice_from start p = (ok (take (p.pos - start) (drop start p.s)), p)

-- `if p.pos < len(p.s) { c := p.s[p.pos]; p.pos++ … }`
unfoldable pub next_byte : Parser (Option ℕ)
unfolding peek
next_byte p = if ltb p.pos (length p.s) then (ok (some (peek p 0)), advance 1 p) else (ok none, p)

unfoldable pub is_digit : ℕ → Bool
is_digit c = leb b'0' c && leb c b'9'

unfoldable pub is_letter : ℕ → Bool
is_letter c = (leb b'a' c && leb c b'z') || (leb b'A' c && leb c b'Z')

unfoldable pub is_ident_char : ℕ → Bool
unfolding is_letter is_digit
is_ident_char c = is_letter c || is_digit c || c == b'_'

unfoldable pub is_hex_digit : ℕ → Bool
unfolding is_digit
is_hex_digit c = is_digit c || (leb b'a' c && leb c b'f') || (leb b'A' c && leb c b'F')

unfoldable pub is_terminator : ℕ → Bool
is_terminator c =
    c == b',' || c == b':' || c == b']' || c == b'}' || c == b')' || c == b'\n' || c == 0
