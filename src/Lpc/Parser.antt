-- ===== src/Lpc/Parser.antt =====
-- pkg/lpc/oparser.go: parseValue, parseArray, parseMap, parseMapEntry, and parseLine. The recursion
-- of parseValue takes fuel: `value_step` is its body, with the recursive call as the parser `again`,
-- and the fuel of the loops over elements and entries.
use viking_ftpd.Prelude.{
  ℕ, zero, suc, Bool, true, not, ◌&&◌, ◌||◌, Option, none, some, [], ◌==◌, if◌then◌else◌, length,
  drop, Bytes, codes, has_prefix, ℤ, pos, eq_int,
}
use viking_ftpd.Lpc.Value.{
  Float64, Value, nil, int, float, str, permission, array, mapping, Items, end, item, Fields, empty,
  put,
}
use viking_ftpd.Lpc.Cursor.{
  LpcError, Result, ok, err, Parser, pure, fail, ◌>>=◌, look, peek, advance, wrap_error, accept,
  match_prefix, skip_spaces, is_digit, is_terminator,
}
use viking_ftpd.Lpc.Decimal.{itoa}
use viking_ftpd.Lpc.Scalars.{answer, parse_string, parse_number, parse_count, parse_identifier}

-- `p.match("})") || p.match(",})")`
unfoldable pub empty_array : Parser Bool
empty_array = do
  closed ← match_prefix (codes "})")
  if closed then pure true else match_prefix (codes ",})")

module _ {F : Type 0} where
  abbrev pub count_items : Items F → ℕ
  count_items end = 0
  count_items (item v vs) = suc (count_items vs)

  -- `p.match("nil") && isTerminator(p.peek(0))`, and the cursor put back where that fails
  unfoldable pub parse_nil : Parser (Value F)
  parse_nil p =
      if has_prefix (drop p.pos p.s) (codes "nil") && is_terminator (peek p 3)
      then (ok nil, advance 3 p)
      else (err LpcError.invalid_nil, p)

  -- The loop of parseArray returns the elements from its first round on.
  unfoldable pub array_items : Parser (Value F) → ℕ → Parser (Items F)
  array_items again zero = fail LpcError.out_of_fuel
  array_items again (suc n) = do
    el ← wrap_error LpcError.in_array again
    spaces ← skip_spaces
    comma ← accept b','
    if comma
        then (do
          more_spaces ← skip_spaces
          closed ← match_prefix (codes "})")
          if closed
              then pure (item el end)
              else (do rest ← array_items again n; pure (item el rest)))
        else (do
          closed ← match_prefix (codes "})")
          if closed then pure (item el end) else fail LpcError.no_array_end)

  -- what follows the "|" of an array of the given size
  unfoldable pub array_body : Parser (Value F) → ℕ → ℤ → Parser (Value F)
  unfolding empty_array
  array_body again n size = do
    spaces ← skip_spaces
    nothing ← empty_array
    if nothing
        then (if eq_int size (pos 0) then pure (array end) else fail LpcError.array_not_empty)
        else (do
          elements ← array_items again n
          if eq_int (pos (count_items elements)) size
              then pure (array elements)
              else fail LpcError.wrong_array_size)

  unfoldable pub parse_array : Parser (Value F) → ℕ → Parser (Value F)
  parse_array again n = do
    opened ← match_prefix (codes "({")
    if not opened then fail LpcError.no_array else (do
      size ← wrap_error LpcError.in_array parse_count
      bar ← accept b'|'
      if not bar then fail LpcError.no_array_bar else array_body again n size)

module _ {F : Type 0} ⦃fl : Float64 F⦄ where
  -- the switch on the type of the key: a primitive key as a string, `none` for a list or a map
  unfoldable pub key_text : Value F → Result (Option Bytes)
  key_text (str k) = ok (some k)
  key_text (int k) = ok (some (itoa k))
  key_text (float k) = ok (some (fl.format_float k))
  key_text nil = ok (some (codes "nil"))
  key_text (array _) = ok none
  key_text (mapping _) = ok none
  key_text (permission _) = err LpcError.unsupported_key

  -- A skipped entry is `none`.
  unfoldable pub entry_rest : Parser (Value F) → Option Bytes → Parser (Option (Bytes × Value F))
  entry_rest again none = do
    spaces ← skip_spaces
    colon ← accept b':'
    if colon then (do discarded ← again; pure none) else pure none
  entry_rest again (some key) = do
    spaces ← skip_spaces
    colon ← accept b':'
    if not colon then fail LpcError.no_colon else (do value ← again; pure (some (key, value)))

  unfoldable pub parse_map_entry : Parser (Value F) → Parser (Option (Bytes × Value F))
  parse_map_entry again = do
    spaces ← skip_spaces
    raw_key ← wrap_error LpcError.bad_map_key again
    key ← answer (key_text raw_key)
    entry_rest again key

  -- `if !skipped { result[key] = value }`
  unfoldable pub store : Fields F → Option (Bytes × Value F) → Fields F
  store m none = m
  store m (some (k, v)) = put m k v

  -- The loop of parseMap, on `total` and `result`.
  unfoldable pub map_entries : Parser (Value F) → ℕ → ℕ → Fields F → Parser (ℕ × Fields F)
  map_entries again zero total result = fail LpcError.out_of_fuel
  map_entries again (suc n) total result = do
    entry ← parse_map_entry again
    spaces ← skip_spaces
    comma ← accept b','
    if comma
        then (do
          more_spaces ← skip_spaces
          closed ← match_prefix (codes "])")
          if closed
              then pure (suc total, store result entry)
              else map_entries again n (suc total) (store result entry))
        else (do
          closed ← match_prefix (codes "])")
          if closed then pure (suc total, store result entry) else fail LpcError.no_map_end)

  -- what follows the "|" of a mapping of the given size
  unfoldable pub map_body : Parser (Value F) → ℕ → ℤ → Parser (Value F)
  map_body again n size = do
    spaces ← skip_spaces
    closed ← match_prefix (codes "])")
    if closed
        then (if eq_int size (pos 0) then pure (mapping empty) else fail LpcError.map_not_empty)
        else (do
          entries ← map_entries again n 0 empty
          if eq_int (pos entries.0) size
              then pure (mapping entries.1)
              else fail LpcError.wrong_map_size)

  unfoldable pub parse_map : Parser (Value F) → ℕ → Parser (Value F)
  parse_map again n = do
    opened ← match_prefix (codes "([")
    if not opened then fail LpcError.no_map else (do
      size ← wrap_error LpcError.in_map parse_count
      bar ← accept b'|'
      if not bar then fail LpcError.no_map_bar else map_body again n size)

  unfoldable pub string_value : Parser (Value F)
  string_value = do s ← parse_string; pure (str s)

  -- the switch of parseValue on the leading byte `b` and the byte behind it
  unfoldable pub dispatch : Parser (Value F) → ℕ → ℕ → ℕ → Parser (Value F)
  unfolding string_value
  dispatch again n b c =
      if b == b'"'
      then string_value
      else if b == b'-' || is_digit b
      then parse_number
      else if b == b'('
      then (if c == b'{'
          then parse_array again n
          else if c == b'['
          then parse_map again n
          else fail LpcError.no_opener)
      else if b == b'n'
      then parse_nil
      else fail LpcError.unexpected_character

  unfoldable pub value_step : Parser (Value F) → ℕ → Parser (Value F)
  unfolding dispatch
  value_step again n = do spaces ← skip_spaces; b ← look 0; c ← look 1; dispatch again n b c

  unfoldable pub parse_value : ℕ → Parser (Value F)
  parse_value zero = fail LpcError.out_of_fuel
  parse_value (suc n) = value_step (parse_value n) n

  -- the switch behind the value, on the byte that follows it
  unfoldable pub end_of_line : Bytes → Value F → ℕ → Parser (Bytes × Value F)
  end_of_line key value c =
      if c == b' ' || c == b'\t'
      then fail LpcError.trailing_whitespace
      else if c == b'\n' || c == 0
      then pure (key, value)
      else fail LpcError.no_end_of_line

  -- what parseLine does behind the key
  unfoldable pub line_value : ℕ → Bytes → Parser (Bytes × Value F)
  unfolding end_of_line
  line_value fuel key = do
    space ← accept b' '
    if not space then fail LpcError.no_single_space else (do
      next ← look 0
      if next == b' ' || next == b'\t'
          then fail LpcError.second_space
          else (do value ← parse_value fuel; last ← look 0; end_of_line key value last))

  -- parseLine with the fuel of its value; `"", nil, nil` for a comment or an empty line
  unfoldable pub parse_line_on : ℕ → Parser (Bytes × Value F)
  unfolding line_value
  parse_line_on fuel = do
    first ← look 0
    if first == b'#' || first == b'\n' || first == 0
        then pure ([], nil)
        else if first == b' ' || first == b'\t'
        then fail LpcError.leading_whitespace
        else (do key ← parse_identifier; line_value fuel key)

  -- The fuel is one more than the length of the line.
  unfoldable pub parse_line : Parser (Bytes × Value F)
  unfolding parse_line_on
  parse_line p = parse_line_on (suc (length p.s)) p
