-- ===== src/Lpc/Reads/Primitives.antt =====
-- pkg/lpc/oparser.go: parseValue on the texts of nil, ints and strings.
use mathlib.Core.Path.{subst}
use viking_ftpd.Prelude.{
  ℕ, suc, ◌+◌, ◌≡◌, refl, sym, ap, ◌∙◌, true, false, ◌&&◌, ◌∷◌, ◌==◌, if_true, if_false, get_or,
  drop, codes, has_prefix, Bytes, ℤ,
}
use viking_ftpd.Lpc.Value.{Float64, Value, nil, int, str}
use viking_ftpd.Lpc.Cursor.{Parser, look, peek, skip_spaces, is_digit, is_terminator}
use viking_ftpd.Lpc.Scalars.{parse_string, parse_number}
use viking_ftpd.Lpc.Parser.{parse_nil, string_value, dispatch, value_step, parse_value}
use viking_ftpd.Lpc.Printer.{print_string, print_int, print_value, IsInt64}
use viking_ftpd.Lpc.Reads.{
  at, Reads, Reads-pure, Reads-bind, peek-at, drop-behind, look-Reads, skip_spaces-Reads,
}
use viking_ftpd.Lpc.Reads.Scalars.{parse_string-Reads}
use viking_ftpd.Lpc.Reads.Numbers.{parse_number-Reads, terminator-StopsNumber}
use viking_ftpd.Lpc.Reads.Starts.{
  starts_value, starts_number, starts_number-value, itoa-starts, starts_value-no_space,
}

-- what may follow a value
abbrev pub Stops : Bytes → Type 0
Stops rest = is_terminator (get_or rest 0 0) ≡ true

module _ {F : Type 0} ⦃fl : Float64 F⦄ where
  abbrev pub parser : ℕ → Parser (Value F)
  parser n = parse_value n

  abbrev pub text : Value F → Bytes → Bytes
  text v rest = print_value v rest

  -- A parser that reads the values whose texts are shorter than `n` with what follows them.
  pub step-Reads :
      (again : Parser (Value F)) (n : ℕ) (xs rest : Bytes) (v : Value F)
      → starts_value (get_or xs 0 0) ≡ true
      → Reads (dispatch again n (get_or xs 0 0) (get_or xs 1 0)) xs rest v
      → Reads (value_step again n) xs rest v
  unfolding value_step
  step-Reads again n xs rest v starts r =
      Reads-bind skip_spaces _ xs xs rest 0 v
        (skip_spaces-Reads xs (starts_value-no_space (get_or xs 0 0) starts))
        (Reads-bind (look 0) _ xs xs rest (get_or xs 0 0) v (look-Reads 0 xs)
          (Reads-bind (look 1) _ xs xs rest (get_or xs 1 0) v (look-Reads 1 xs) r))

  parse_nil-Reads : (rest : Bytes) → Stops rest → Reads (parse_nil {F = F}) (text nil rest) rest nil
  unfolding parse_nil print_value has_prefix
  parse_nil-Reads rest stop = λ s i h.
      let test : (has_prefix (drop i s) (codes "nil") && is_terminator (peek (at s i) 3)) ≡ true =
        ap (λ t. has_prefix t (codes "nil") && is_terminator (peek (at s i) 3)) h
        ∙ ap is_terminator (peek-at s (text nil rest) i 3 h)
        ∙ stop in
      (i + 3, if_true test _ _, drop-behind s (b'n' ∷ b'i' ∷ b'l' ∷ rest) rest i 3 h refl)

  pub nil-Reads :
      (n : ℕ) (rest : Bytes) → Stops rest → Reads (parser (suc n)) (text nil rest) rest nil
  unfolding parse_value dispatch print_value starts_value is_digit
  nil-Reads n rest stop =
      step-Reads (parser n) n (text nil rest) rest nil refl (parse_nil-Reads rest stop)

  pub str-Reads :
      (s : Bytes) (n : ℕ) (rest : Bytes) → Reads (parser (suc n)) (text (str s) rest) rest (str s)
  unfolding parse_value dispatch string_value print_value print_string starts_value
  str-Reads s n rest = step-Reads (parser n) n (text (str s) rest) rest (str s) refl (
      Reads-bind parse_string _ (print_string s rest) rest rest s (str s)
        (parse_string-Reads s rest) (Reads-pure (str s) rest))

  dispatch-number :
      (n b c : ℕ)
      → (b == 34) ≡ false
      → starts_number b ≡ true
      → dispatch (parser n) n b c ≡ parse_number
  unfolding dispatch
  dispatch-number n b c h k = if_false h _ _ ∙ if_true k _ _

  pub int-Reads :
      (m : ℤ) (n : ℕ) (rest : Bytes)
      → IsInt64 m
      → Stops rest
      → Reads (parser (suc n)) (text (int m) rest) rest (int m)
  unfolding parse_value print_value
  int-Reads m n rest small stop =
      let b : ℕ = get_or (print_int m rest) 0 0 in
      let (value, no_quote) = starts_number-value b (itoa-starts m rest) in
      step-Reads (parser n) n (print_int m rest) rest (int m) value (
        subst (λ p. Reads p (print_int m rest) rest (int m))
          (sym (dispatch-number n b (get_or (print_int m rest) 1 0) no_quote (itoa-starts m rest)))
          (parse_number-Reads m rest small (terminator-StopsNumber rest stop)))
