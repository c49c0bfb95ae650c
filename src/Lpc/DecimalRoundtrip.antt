-- ===== src/Lpc/DecimalRoundtrip.antt =====
-- strconv.Atoi on what strconv.Itoa writes, for numbers that are not negative.
use viking_ftpd.Prelude.{
  ℕ, zero, suc, ◌+◌, ◌*◌, ◌/◌, ◌%◌, ◌^◌, ◌<◌, ◌≡◌, refl, ap, ◌∙◌, arith, true, false, none, some,
  [], ◌∷◌, ◌==◌, ltb, if◌then◌else◌, if_true, is_nil, ◌-◌, Bytes, pos, negsuc, Bool-cases, inl, inr,
  All,
}
use viking_ftpd.Lpc.Cursor.{is_digit}
use viking_ftpd.Lpc.Decimal.{digits_onto, natural, positive, negative, atoi, digits_before, itoa}

-- `n` written behind `acc`
abbrev shifted : ℕ → ℕ → ℕ → ℕ
shifted zero acc n = acc
shifted (suc fuel) acc n =
    let high = shifted fuel acc (n / 10) in if ltb n 10 then acc * 10 + n else high * 10 + n % 10

shifted-zero : (fuel n : ℕ) → n < fuel → shifted fuel 0 n ≡ n
shifted-zero zero n h = absurd (omega arith)
shifted-zero (suc fuel) n h = elim (Bool-cases (ltb n 10)) [
  | inl small ↦ rw small (omega arith)
  | inr large ↦ rw (large, shifted-zero fuel (n / 10) (ground arith)) (omega arith)
]

is_digit-digit : (d : ℕ) → d < 10 → is_digit (b'0' + d) ≡ true
unfolding is_digit
is_digit-digit d h = ground arith

digits_onto-digit :
    (acc d : ℕ) (tail : Bytes)
    → d < 10
    → digits_onto acc ((b'0' + d) ∷ tail) ≡ digits_onto (acc * 10 + d) tail
unfolding digits_onto
digits_onto-digit acc d tail h =
    let value : b'0' + d - b'0' ≡ d = omega arith in
    if_true (is_digit-digit d h) (digits_onto (acc * 10 + (b'0' + d - b'0')) tail) none
    ∙ ap (λ x. digits_onto (acc * 10 + x) tail) value

digits_onto-before :
    (fuel acc n : ℕ) (tail : Bytes)
    → n < fuel
    → digits_onto acc (digits_before fuel n tail) ≡ digits_onto (shifted fuel acc n) tail
unfolding digits_before
digits_onto-before zero acc n tail h = absurd (omega arith)
digits_onto-before (suc fuel) acc n tail h = elim (Bool-cases (ltb n 10)) [
  | inl small ↦ rw small (digits_onto-digit acc n tail (ground arith))
  | inr large ↦
      rw (large, digits_onto-before fuel acc (n / 10) ((b'0' + n % 10) ∷ tail) (ground arith))
        (digits_onto-digit (shifted fuel acc (n / 10)) (n % 10) tail (omega arith))
]

-- digits alone
abbrev pub AreDigits : Bytes → Type 0
AreDigits = All (λ c. is_digit c ≡ true)

pub digits_before-AreDigits :
    (fuel n : ℕ) (tail : Bytes) → AreDigits tail → AreDigits (digits_before fuel n tail)
unfolding digits_before
digits_before-AreDigits zero n tail h = h
digits_before-AreDigits (suc fuel) n tail h = elim (Bool-cases (ltb n 10)) [
  | inl small ↦ rw small (is_digit-digit n (ground arith), h)
  | inr large ↦ rw large (
      digits_before-AreDigits fuel (n / 10) ((b'0' + n % 10) ∷ tail)
        (is_digit-digit (n % 10) (omega arith), h))
]

pub digits_before-ne_nil :
    (fuel n : ℕ) (tail : Bytes) → n < fuel → is_nil (digits_before fuel n tail) ≡ false
unfolding digits_before
digits_before-ne_nil zero n tail h = absurd (omega arith)
digits_before-ne_nil (suc fuel) n tail h = elim (Bool-cases (ltb n 10)) [
  | inl small ↦ rw small refl
  | inr large ↦
      rw large (digits_before-ne_nil fuel (n / 10) ((b'0' + n % 10) ∷ tail) (ground arith))
]

pub itoa-AreDigits : (n : ℕ) → AreDigits (itoa (pos n))
unfolding itoa
itoa-AreDigits n = digits_before-AreDigits (suc n) n [] tt

atoi-digits : (s : Bytes) → is_nil s ≡ false → AreDigits s → atoi s ≡ positive (digits_onto 0 s)
unfolding atoi natural is_digit
atoi-digits [] h k = absurd (cc)
atoi-digits (c ∷ s) h (k, ks) =
    let no_minus : (c == b'-') ≡ false = ground arith in
    let no_plus : (c == b'+') ≡ false = ground arith in rw (no_minus, no_plus) refl

whole_number : {m n : ℕ} → m ≡ n → digits_onto m [] ≡ some n
unfolding digits_onto
whole_number h = ap some h

-- an int that is not negative
pub atoi-itoa : (n : ℕ) → n < 2 ^ 63 → atoi (itoa (pos n)) ≡ some (pos n)
unfolding itoa
atoi-itoa n h =
    let fits : ltb n (2 ^ 63) ≡ true = ground arith in
    atoi-digits (digits_before (suc n) n []) (digits_before-ne_nil (suc n) n [] (omega arith))
      (digits_before-AreDigits (suc n) n [] tt)
    ∙ ap positive (
        digits_onto-before (suc n) 0 n [] (omega arith)
        ∙ whole_number (shifted-zero (suc n) n (omega arith)))
    ∙ if_true fits (some (pos n)) none

natural-digits : (s : Bytes) → is_nil s ≡ false → natural s ≡ digits_onto 0 s
unfolding natural
natural-digits [] h = absurd (cc)
natural-digits (c ∷ s) h = refl

-- an int below 0
pub atoi-itoa_negative : (n : ℕ) → n < 2 ^ 63 → atoi (itoa (negsuc n)) ≡ some (negsuc n)
unfolding itoa atoi
atoi-itoa_negative n h =
    let fits : ltb n (2 ^ 63) ≡ true = ground arith in
    ap negative (
      natural-digits (digits_before (suc (suc n)) (suc n) [])
        (digits_before-ne_nil (suc (suc n)) (suc n) [] (omega arith))
      ∙ digits_onto-before (suc (suc n)) 0 (suc n) [] (omega arith)
      ∙ whole_number (shifted-zero (suc (suc n)) (suc n) (omega arith)))
    ∙ if_true fits (some (negsuc n)) none
