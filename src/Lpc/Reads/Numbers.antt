-- ===== src/Lpc/Reads/Numbers.antt =====
-- pkg/lpc/oparser.go: parseCount and parseNumber on the ints of the format.
use viking_ftpd.Prelude.{
  ℕ, suc, ◌+◌, ◌<◌, ◌≡◌, refl, sym, ap, ◌∙◌, arith, Bool, true, false, Option, some, [], ◌∷◌, ◌++◌,
  ◌==◌, if_false, length, get_or, drop, is_nil, Bytes, ◌^◌, pos, negsuc, ℤ,
}
use viking_ftpd.Lpc.Value.{Float64, Value, int}
use viking_ftpd.Lpc.Cursor.{
  LineParser, Result, ok, Parser, accept, count_while, slice_from, is_digit, is_terminator,
}
use viking_ftpd.Lpc.Decimal.{atoi, itoa, digits_before}
use viking_ftpd.Lpc.DecimalRoundtrip.{
  digits_before-ne_nil, itoa-AreDigits, atoi-itoa, atoi-itoa_negative,
}
use viking_ftpd.Lpc.Scalars.{
  count_result, parse_count, fraction, hex_tail, number_value, int_result, number_from,
  parse_number,
}
use viking_ftpd.Lpc.Printer.{print_int, IsInt64}
use viking_ftpd.Lpc.Reads.{
  at, bind-at, drop-token, accept-at, Reads, drop-behind, accept-at_other, count_while-at,
  slice_from-at, Passes,
}

not_empty : (s : Bytes) → is_nil s ≡ false → (length s == 0) ≡ false
not_empty [] h = cc
not_empty (c ∷ s) h = ground arith

itoa-not_empty : (n : ℕ) → (length (itoa (pos n)) == 0) ≡ false
unfolding itoa
itoa-not_empty n =
    not_empty (digits_before (suc n) n []) (digits_before-ne_nil (suc n) n [] (omega arith))

pub parse_count-Reads :
    (n : ℕ) (ys : Bytes)
    → n < 2 ^ 63
    → is_digit (get_or ys 0 0) ≡ false
    → Reads parse_count (print_int (pos n) ys) ys (pos n)
unfolding parse_count
parse_count-Reads n ys h stop = λ s i d.
    let tok : Bytes = itoa (pos n) in
    let q : ℕ = i + length tok in
    (
      q,
      bind-at (count_while is_digit) _ (at s i) (at s q) (length tok) (ok (pos n), at s q)
          (count_while-at is_digit tok ys s i (itoa-AreDigits n) stop d)
          (bind-at (slice_from i) _ (at s q) (at s q) tok (ok (pos n), at s q)
            (slice_from-at tok ys s i d)
            (ap (λ (m : Parser ℤ). m (at s q)) (if_false (itoa-not_empty n) _ _)
              ∙ ap (λ (r : Option ℤ). (count_result r, at s q)) (atoi-itoa n h))),
      drop-token tok ys s i d,
    )

digit-no_minus :
    (tok ys : Bytes)
    → Passes is_digit tok
    → (length tok == 0) ≡ false
    → (get_or (tok ++ ys) 0 0 == b'-') ≡ false
unfolding is_digit
digit-no_minus [] ys p h = absurd (cc)
digit-no_minus (c ∷ tok) ys (p, ps) h = ground arith

pub itoa-negsuc : (n : ℕ) → itoa (negsuc n) ≡ b'-' ∷ itoa (pos (suc n))
unfolding itoa
itoa-negsuc n = refl

-- The byte behind a number is no part of one.
pub record StopsNumber (ys : Bytes) : Type 0 where
  pub no_digit : is_digit (get_or ys 0 0) ≡ false
  pub no_point : (get_or ys 0 0 == b'.') ≡ false
  pub no_equals : (get_or ys 0 0 == b'=') ≡ false

pub terminator-StopsNumber : (ys : Bytes) → is_terminator (get_or ys 0 0) ≡ true → StopsNumber ys
unfolding is_terminator is_digit
terminator-StopsNumber ys h = record {
  no_digit = ground arith;
  no_point = ground arith;
  no_equals = ground arith;
}

fraction-at :
    (ys s : Bytes) (q : ℕ) → StopsNumber ys → drop q s ≡ ys → fraction (at s q) ≡ (ok false, at s q)
unfolding fraction
fraction-at ys s q h d =
    bind-at (accept b'.') _ (at s q) (at s q) false (ok false, at s q)
      (accept-at_other b'.' ys s q h.no_point d) refl

hex_tail-at :
    (ys s : Bytes) (q : ℕ) → StopsNumber ys → drop q s ≡ ys → hex_tail (at s q) ≡ (ok false, at s q)
unfolding hex_tail
hex_tail-at ys s q h d =
    bind-at (accept b'=') _ (at s q) (at s q) false (ok false, at s q)
      (accept-at_other b'=' ys s q h.no_equals d) refl

module _ {F : Type 0} ⦃fl : Float64 F⦄ where
  -- parseNumber, where its digits run to the end of the token
  number-at :
      (tok digits ys s : Bytes) (i j : ℕ) (n : ℤ) (minus : Bool)
      → Passes is_digit digits
      → StopsNumber ys
      → drop i s ≡ tok ++ ys
      → drop j s ≡ digits ++ ys
      → j + length digits ≡ i + length tok
      → atoi tok ≡ some n
      → accept b'-' (at s i) ≡ (ok minus, at s j)
      → number_from {F = F} i (at s i) ≡ (ok (int n), at s (i + length tok))
  unfolding number_from number_value
  number-at tok digits ys s i j n minus all stop whole tail same value sign =
      let q : ℕ = i + length tok in
      let here : drop q s ≡ ys = drop-token tok ys s i whole in
      let answered : Result (Value F) × LineParser = (ok (int n), at s q) in
      bind-at (accept b'-') _ (at s i) (at s j) minus answered sign (
        bind-at (count_while is_digit) _ (at s j) (at s q) (length digits) answered
          (count_while-at is_digit digits ys s j all stop.no_digit tail
            ∙ ap (λ k. (ok (length digits), at s k)) same)
          (bind-at fraction _ (at s q) (at s q) false answered (fraction-at ys s q stop here) (
            bind-at hex_tail _ (at s q) (at s q) false answered (hex_tail-at ys s q stop here) (
              bind-at (slice_from i) _ (at s q) (at s q) tok answered
                (slice_from-at tok ys s i whole)
                (ap (λ (r : Option ℤ). (int_result r, at s q)) value)))))

  pub parse_number-Reads :
      (n : ℤ) (ys : Bytes)
      → IsInt64 n
      → StopsNumber ys
      → Reads (parse_number {F = F}) (print_int n ys) ys (int n)
  unfolding parse_number
  parse_number-Reads (pos n) ys h stop = λ s i d.
      let tok : Bytes = itoa (pos n) in
      (
        i + length tok,
        number-at tok tok ys s i i (pos n) false (itoa-AreDigits n) stop d d refl (atoi-itoa n h) (
            accept-at_other b'-' (tok ++ ys) s i
              (digit-no_minus tok ys (itoa-AreDigits n) (itoa-not_empty n)) d),
        drop-token tok ys s i d,
      )
  parse_number-Reads (negsuc n) ys h stop = λ s i d.
      let digits : Bytes = itoa (pos (suc n)) in
      let whole : drop i s ≡ (b'-' ∷ digits) ++ ys = d ∙ ap (λ t. t ++ ys) (itoa-negsuc n) in
      (
        i + length (b'-' ∷ digits),
        number-at (b'-' ∷ digits) digits ys s i (i + 1) (negsuc n) true (itoa-AreDigits (suc n))
            stop whole (drop-behind s (b'-' ∷ (digits ++ ys)) (digits ++ ys) i 1 whole refl)
            (omega arith) (ap atoi (sym (itoa-negsuc n)) ∙ atoi-itoa_negative n h)
            (accept-at b'-' (digits ++ ys) s i whole),
        drop-token (b'-' ∷ digits) ys s i whole,
      )
