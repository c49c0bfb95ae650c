-- ===== src/Lpc/Reads/Lines.antt =====
-- pkg/lpc/oparser.go: parseLine on the lines of the format.
use viking_ftpd.Prelude.{
  ℕ, suc, ◌+◌, ◌<◌, ◌≡◌, refl, sym, ap, ◌∙◌, arith, true, false, not, ◌||◌, [], ◌∷◌, ◌++◌, ◌==◌,
  if_false, length, length-append, get_or, Bytes,
}
use mathlib.Core.Path.{subst}
use viking_ftpd.Lpc.Value.{Float64, Value}
use viking_ftpd.Lpc.Cursor.{
  ok, Parser, look, accept, peek, count_while, is_letter, is_ident_char, is_terminator,
}
use viking_ftpd.Lpc.Scalars.{parse_identifier}
use viking_ftpd.Lpc.Parser.{parse_value, line_value, parse_line_on, parse_line}
use viking_ftpd.Lpc.Printer.{print_line, IsPrintable, IsIdentifier}
use viking_ftpd.Lpc.Reads.{
  at, Reads, Reads-pure, Reads-bind, peek-at, drop-behind, look-Reads, accept-Reads, bind-at,
  drop-token, count_while-at, slice_from-at,
}
use viking_ftpd.Lpc.Reads.Starts.{starts_value-no_space, print_value-starts}
use viking_ftpd.Lpc.Reads.Primitives.{text}
use viking_ftpd.Lpc.Reads.Values.{value-Reads}

-- a blank ends a name
blank_ends : is_ident_char b' ' ≡ false
unfolding is_ident_char
blank_ends = refl

parse_identifier-Reads :
    (k ys : Bytes) → IsIdentifier k → Reads parse_identifier (k ++ b' ' ∷ ys) (b' ' ∷ ys) k
unfolding parse_identifier
parse_identifier-Reads [] ys h = absurd h
parse_identifier-Reads (c ∷ t) ys (letter, rest) = λ s i d.
    let q : ℕ = i + length (c ∷ t) in
    let first : is_letter (peek (at s i) 0) ≡ true =
      ap is_letter (peek-at s ((c ∷ t) ++ b' ' ∷ ys) i 0 d) ∙ letter in
    let same : i + 1 + length t ≡ q = omega arith in
    (
      q,
      if_false (ap not first) _ _
          ∙ bind-at (count_while is_ident_char) _ (at s (i + 1)) (at s q) (length t)
              (ok (c ∷ t), at s q)
              (count_while-at is_ident_char t (b' ' ∷ ys) s (i + 1) rest blank_ends
                  (drop-behind s ((c ∷ t) ++ b' ' ∷ ys) (t ++ b' ' ∷ ys) i 1 d refl)
                ∙ ap (λ j. (ok (length t), at s j)) same)
              (slice_from-at (c ∷ t) (b' ' ∷ ys) s i d),
      drop-token (c ∷ t) (b' ' ∷ ys) s i d,
    )

module _ {F : Type 0} ⦃fl : Float64 F⦄ where
  line_value-Reads :
      (fuel : ℕ) (k : Bytes) (v : Value F)
      → IsPrintable v
      → length (text v []) < fuel
      → Reads (line_value fuel k) (b' ' ∷ text v []) [] (k, v)
  unfolding line_value is_terminator
  line_value-Reads fuel k v h l =
      let ys : Bytes = text v [] in
      let b : ℕ = get_or ys 0 0 in
      Reads-bind (accept b' ') _ (b' ' ∷ ys) ys [] true (k, v) (accept-Reads b' ' ys)
        (Reads-bind (look 0) _ ys ys [] b (k, v) (look-Reads 0 ys)
          (subst (λ (p : Parser (Bytes × Value F)). Reads p ys [] (k, v))
            (sym (if_false (starts_value-no_space b (print_value-starts v [] h)) _ _))
            (Reads-bind (parse_value fuel) _ ys [] [] v (k, v) (value-Reads v h fuel [] refl l)
              (Reads-bind (look 0) _ [] [] [] 0 (k, v) (look-Reads 0 []) (Reads-pure (k, v) [])))))

  parse_line_on-Reads :
      (fuel : ℕ) (k : Bytes) (v : Value F)
      → IsIdentifier k
      → IsPrintable v
      → length (text v []) < fuel
      → Reads (parse_line_on fuel) (print_line k v) [] (k, v)
  unfolding parse_line_on print_line is_letter
  parse_line_on-Reads fuel [] v name h l = absurd name
  parse_line_on-Reads fuel (c ∷ t) v name h l =
      let xs : Bytes = (c ∷ t) ++ b' ' ∷ text v [] in
      let letter : is_letter c ≡ true = name.0 in
      let no_skip : (c == b'#' || c == 10 || c == 0) ≡ false = ground arith in
      let no_blank : (c == b' ' || c == 9) ≡ false = ground arith in
      Reads-bind (look 0) _ xs xs [] c (c ∷ t, v) (look-Reads 0 xs)
        (subst (λ (p : Parser (Bytes × Value F)). Reads p xs [] (c ∷ t, v))
          (sym (if_false no_skip _ _ ∙ if_false no_blank _ _))
          (Reads-bind parse_identifier (line_value fuel) xs (b' ' ∷ text v []) [] (c ∷ t) (c ∷ t, v)
            (parse_identifier-Reads (c ∷ t) (text v []) name)
            (line_value-Reads fuel (c ∷ t) v h l)))

  print_line-length : (k : Bytes) (v : Value F) → length (text v []) < suc (length (print_line k v))
  unfolding print_line
  print_line-length k v = omega (arith, length-append k (b' ' ∷ text v []))

  -- A line that the format's printer writes is read as its name and its value, to its end.
  pub parse_line-print_line :
      (k : Bytes) (v : Value F)
      → IsIdentifier k
      → IsPrintable v
      → (q : ℕ) × (parse_line (at (print_line k v) 0) ≡ (ok (k, v), at (print_line k v) q))
  unfolding parse_line
  parse_line-print_line k v name h =
      let line : Bytes = print_line k v in
      let (q, e, d) =
        parse_line_on-Reads (suc (length line)) k v name h (print_line-length k v) line 0 refl in
      (q, e)
