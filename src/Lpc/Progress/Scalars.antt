-- ===== src/Lpc/Progress/Scalars.antt =====
-- pkg/lpc/oparser.go: cursor and fuel of the parsers of strings, numbers, counts and identifiers.
use viking_ftpd.Prelude.{
  ℕ, zero, suc, ◌+◌, ◌-◌, ◌<◌, ◌≤◌, ◌≡◌, refl, arith, Bool, true, false, not, ◌||◌, Option, none,
  some, [], ◌∷◌, ◌++◌, ◌==◌, ltb, if◌then◌else◌, length, get_or, take, drop, length-drop, Bytes, ℤ,
  Bool-cases, Option-cases, inl, inr,
}
use viking_ftpd.Lpc.Value.{Float64}
use viking_ftpd.Lpc.Cursor.{
  LineParser, LpcError, Result, ok, err, Parser, ◌>>=◌, fail, peek, advance, accept, count_while,
  look, slice_from, next_byte, is_digit, is_hex_digit, is_ident_char, is_letter,
}
use viking_ftpd.Lpc.Rune.{rune_after-IsWidth}
use viking_ftpd.Lpc.Decimal.{atoi}
use viking_ftpd.Lpc.Scalars.{
  escape_sequence, escaped_bytes, moved, escape, string_byte, string_round, string_body,
  rounds_left, string_loop, parse_string, fraction, hex_tail, number_value, answer, number_from,
  parse_number, count_result, parse_count, parse_identifier,
}
use viking_ftpd.Lpc.Progress.{
  is_fuel, Runs, Runs-ok, Runs-err, Runs-advance, Runs-if, Runs-from, After, Runs-bind, Runs-weaken,
  accept-Runs, count_while-Runs, slice_from-Runs,
}

-- The cursor, read or with a result that moves no cursor.
pub Runs-answer :
    {A : Type 0} (r : Result A) (p : LineParser)
    → p.pos ≤ length p.s
    → ((e : LpcError) → r ≡ err e → is_fuel e ≡ false)
    → Runs (λ _. p.pos) p (answer r p)
Runs-answer (ok a) p h k = Runs-ok _ a p h (omega arith)
Runs-answer (err e) p h k = Runs-err _ e p h (k e refl)

pub look-Runs : (n : ℕ) (p : LineParser) → p.pos ≤ length p.s → Runs (λ _. p.pos) p (look n p)
look-Runs n p h = Runs-ok _ _ p h (omega arith)

-- what an escape consumes
abbrev IsEscape : Bytes → Result (Bytes × ℕ) → Type 0
IsEscape s (ok r) = (1 ≤ r.1) × (r.1 ≤ length s)
IsEscape s (err e) = is_fuel e ≡ false

escaped_bytes-IsEscape : (s : Bytes) → IsEscape s (escaped_bytes s)
unfolding escaped_bytes is_fuel
escaped_bytes-IsEscape [] = refl
escaped_bytes-IsEscape (c ∷ rest) = elim (Option-cases (escape_sequence c)) [
  | inl e ↦ rw (e, IsEscape) (omega (arith, rune_after-IsWidth c rest))
  | inr (b, e) ↦ rw (e, IsEscape) (omega arith)
]

moved-Runs :
    (r : Result (Bytes × ℕ)) (p : LineParser)
    → p.pos ≤ length p.s
    → IsEscape (drop p.pos p.s) r
    → Runs (λ _. suc p.pos) p (moved r p)
unfolding moved
moved-Runs (ok (written, width)) p h w =
    Runs-advance _ written p width (omega (arith, length-drop p.pos p.s)) (omega arith)
moved-Runs (err e) p h w = Runs-err _ e p h w

escape-Runs : (p : LineParser) → p.pos ≤ length p.s → Runs (λ _. suc p.pos) p (escape p)
unfolding escape
escape-Runs p h = moved-Runs _ p h (escaped_bytes-IsEscape (drop p.pos p.s))

next_byte-Runs :
    (p : LineParser)
    → p.pos ≤ length p.s
    → Runs (λ c. elim c [ none ↦ p.pos | some _ ↦ suc p.pos ]) p (next_byte p)
unfolding next_byte
next_byte-Runs p h = elim (Bool-cases (ltb p.pos (length p.s))) [
  | inl less ↦ rw less (Runs-advance _ _ p 1 (ground arith) (omega arith))
  | inr more ↦ rw more (Runs-ok _ none p h (omega arith))
]

-- The loop's next round runs with fuel for what is left.
abbrev Again : ℕ → (Bytes → Parser Bytes) → Type 0
Again n again =
    (b : Bytes) (q : LineParser)
    → q.pos ≤ length q.s
    → length q.s < n + q.pos
    → Runs (λ _. q.pos) q (again b q)

string_byte-Runs :
    (n : ℕ) (again : Bytes → Parser Bytes) (b : Bytes) (c : ℕ) (q : LineParser)
    → Again n again
    → q.pos ≤ length q.s
    → length q.s < n + q.pos
    → Runs (λ _. q.pos) q (string_byte again b c q)
unfolding string_byte is_fuel
string_byte-Runs n again b c q go h k =
    Runs-if (c == b'"') _ _ (λ _. Runs-ok _ b q h (omega arith))
      (λ _.
        Runs-if (c == b'\n') _ _ (λ _. Runs-err _ LpcError.newline_in_string q h refl)
          (λ _.
            Runs-if (c == b'\\') _ _
              (λ _. Runs-bind escape _ (escape-Runs q h) (λ w q' after.
                Runs-weaken _ (λ _. omega arith) (go (b ++ w) q' after.3 (omega (arith, after.0)))))
              (λ _. go _ q h k)))

string_body-Runs : (n : ℕ) → Again n (string_body n)
unfolding string_body
string_body-Runs zero b q h k = absurd (omega arith)
string_body-Runs (suc n) b q h k =
    Runs-bind next_byte (string_round (string_body n) b) (next_byte-Runs q h)
      (round (string_body-Runs n))
  where
    round :
        Again n (string_body n)
        → (c : Option ℕ) (q' : LineParser)
        → After (λ c. elim c [ none ↦ q.pos | some _ ↦ suc q.pos ]) q c q'
        → Runs (λ _. q.pos) q' (string_round (string_body n) b c q')
    round go none q' after =
        Runs-err _ LpcError.unterminated_string q' after.3 (unfold is_fuel in refl)
    round go (some c) q' after =
        Runs-weaken _ (λ _. after.2)
          (string_byte-Runs n (string_body n) b c q' go after.3 (omega (arith, after.0)))

pub parse_string-Runs :
    (p : LineParser) → p.pos ≤ length p.s → Runs (λ _. suc p.pos) p (parse_string p)
unfolding parse_string is_fuel
parse_string-Runs p h = Runs-bind (accept b'"') _ (accept-Runs b'"' p refl h) body
  where
    body :
        (opened : Bool) (q : LineParser)
        → After (λ taken. if taken then suc p.pos else p.pos) p opened q
        → Runs (λ _. suc p.pos) q ((if not opened then fail LpcError.no_quote else string_loop) q)
    body false q after = Runs-err _ LpcError.no_quote q after.3 refl
    body true q after =
        Runs-weaken _ (λ _. after.1)
          (string_body-Runs (rounds_left q) [] q after.3 (unfold rounds_left in omega arith))

-- `fraction` and `hex_tail`: an optional mark, and digits behind it.
fraction-Runs : (p : LineParser) → p.pos ≤ length p.s → Runs (λ _. p.pos) p (fraction p)
unfolding fraction is_fuel
fraction-Runs p h = Runs-bind (accept b'.') _ (accept-Runs b'.' p refl h) λ dot q after.
    Runs-if (not dot) _ _ (λ _. Runs-ok _ false q after.3 after.2)
      (λ _. Runs-bind (count_while is_digit) _ (count_while-Runs is_digit q after.3) λ n q' after'.
        Runs-if (n == 0) _ _ (λ _. Runs-err _ LpcError.no_fraction_digits q' after'.3 refl)
          (λ _. Runs-ok _ true q' after'.3 (omega arith)))

hex_tail-Runs : (p : LineParser) → p.pos ≤ length p.s → Runs (λ _. p.pos) p (hex_tail p)
unfolding hex_tail is_fuel
hex_tail-Runs p h = Runs-bind (accept b'=') _ (accept-Runs b'=' p refl h) λ dot q after.
    Runs-if (not dot) _ _ (λ _. Runs-ok _ false q after.3 after.2)
      (λ _.
        Runs-bind (count_while is_hex_digit) _ (count_while-Runs is_hex_digit q after.3)
          λ n q' after'.
            Runs-if (n == 0) _ _ (λ _. Runs-err _ LpcError.no_hex_digits q' after'.3 refl)
              (λ _. Runs-ok _ true q' after'.3 (omega arith)))

abbrev NoFuel : {A : Type 0} → Result A → Type 0
NoFuel r = (e : LpcError) → r ≡ err e → is_fuel e ≡ false

module _ {F : Type 0} ⦃fl : Float64 F⦄ where
  number_value-error :
      (is_float : Bool) (int_digits : ℕ) (tok : Bytes) (e : LpcError)
      → number_value {F = F} is_float int_digits tok ≡ err e
      → is_fuel e ≡ false
  unfolding number_value is_fuel
  number_value-error is_float int_digits tok e h = ground arith

  -- A token without a character is no number.
  number_value-nil :
      (is_float : Bool)
      → (e : LpcError) × (number_value {F = F} is_float 0 [] ≡ err e) × (is_fuel e ≡ false)
  unfolding number_value atoi is_fuel
  number_value-nil true = (LpcError.no_int_digits, refl, refl)
  number_value-nil false = (LpcError.invalid_integer, refl, refl)

  number_end :
      (is_float : Bool) (n start : ℕ) (q : LineParser)
      → q.pos ≤ length q.s
      → start + n ≤ q.pos
      → Runs
          (λ _. suc start)
          q
          ((slice_from start >>= λ tok. answer (number_value {F = F} is_float n tok)) q)
  unfolding ◌>>=◌ slice_from
  number_end is_float n start q h k = elim (Bool-cases (ltb start q.pos)) [
    | inl less ↦
        Runs-weaken _ (λ _. ground arith)
          (Runs-answer _ q h
            (number_value-error is_float n (take (q.pos - start) (drop start q.s))))
    | inr still ↦
        let none_left : q.pos - start ≡ 0 = ground arith in
        let no_digits : n ≡ 0 = ground arith in
        let (e, is_err, no_fuel) = number_value-nil is_float in
        rw (none_left, no_digits, is_err) (Runs-err _ e q h no_fuel)
  ]

  number_from-Runs :
      (start : ℕ) (q : LineParser)
      → q.pos ≤ length q.s
      → start ≤ q.pos
      → Runs (λ _. suc start) q (number_from {F = F} start q)
  unfolding number_from
  number_from-Runs start q h k =
      Runs-bind (accept b'-') _ (accept-Runs b'-' q refl h) λ minus q1 a1.
        Runs-bind (count_while is_digit) _ (count_while-Runs is_digit q1 a1.3) λ n q2 a2.
          Runs-bind fraction _ (fraction-Runs q2 a2.3) λ fractional q3 a3.
            Runs-bind hex_tail _ (hex_tail-Runs q3 a3.3)
              λ exact q4 a4. number_end (fractional || exact) n start q4 a4.3 (omega arith)

  -- A number that is read has at least one character.
  pub parse_number-Runs :
      (p : LineParser) → p.pos ≤ length p.s → Runs (λ _. suc p.pos) p (parse_number {F = F} p)
  unfolding parse_number
  parse_number-Runs p h = number_from-Runs p.pos p h (omega arith)

count_result-error : (o : Option ℤ) (e : LpcError) → count_result o ≡ err e → is_fuel e ≡ false
unfolding is_fuel
count_result-error o e h = ground arith

pub parse_count-Runs : (p : LineParser) → p.pos ≤ length p.s → Runs (λ _. p.pos) p (parse_count p)
unfolding parse_count is_fuel
parse_count-Runs p h =
    Runs-bind (count_while is_digit) _ (count_while-Runs is_digit p h) λ n q after.
      Runs-bind (slice_from p.pos) _ (slice_from-Runs p.pos q after.3) λ tok q' after'.
        Runs-if (n == 0) _ _ (λ _. Runs-err _ LpcError.no_count q' after'.3 refl)
          (λ _.
            Runs-weaken _ (λ _. omega arith)
              (Runs-answer _ q' after'.3 (count_result-error (atoi tok))))

letter_in_line : (s : Bytes) (i : ℕ) → is_letter (get_or s i 0) ≡ true → suc i ≤ length s
unfolding is_letter
letter_in_line [] i e = absurd (cc)
letter_in_line (x ∷ s) zero e = omega arith
letter_in_line (x ∷ s) (suc i) e = omega (arith, letter_in_line s i e)

pub parse_identifier-Runs :
    (p : LineParser) → p.pos ≤ length p.s → Runs (λ _. suc p.pos) p (parse_identifier p)
unfolding parse_identifier is_fuel
parse_identifier-Runs p h = elim (Bool-cases (is_letter (peek p 0))) [
  | inr other ↦ rw other (Runs-err _ LpcError.bad_identifier p h refl)
  | inl letter ↦
      let inside : p.pos + 1 ≤ length p.s =
        omega (arith, letter_in_line p.s (p.pos + 0) (unfold peek in letter)) in
      rw letter (
        Runs-from 1 _ (
          Runs-bind (count_while is_ident_char) _
            (count_while-Runs is_ident_char (advance 1 p) inside)
            λ n q after. Runs-weaken _ (λ _. omega arith) (slice_from-Runs p.pos q after.3)))
]
