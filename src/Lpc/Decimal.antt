-- ===== src/Lpc/Decimal.antt =====
-- strconv.Atoi and strconv.Itoa, which pkg/lpc calls: the decimal form of an int of 64 bits.
use viking_ftpd.Prelude.{
  ℕ, zero, suc, ◌+◌, ◌-◌, ◌*◌, ◌/◌, ◌%◌, ◌^◌, Option, none, some, [], ◌∷◌, ◌==◌, ltb, if◌then◌else◌,
  Bytes, ℤ, pos, negsuc,
}
use viking_ftpd.Lpc.Cursor.{is_digit}

-- the value of a run of digits, read onto `acc`
unfoldable pub digits_onto : ℕ → Bytes → Option ℕ
unfolding is_digit
digits_onto acc [] = some acc
digits_onto acc (c ∷ s) =
    let rest = digits_onto (acc * 10 + (c - b'0')) s in if is_digit c then rest else none

unfoldable pub natural : Bytes → Option ℕ
unfolding digits_onto
natural [] = none
natural (c ∷ s) = digits_onto 0 (c ∷ s)

-- the range check for 64 bits
abbrev pub positive : Option ℕ → Option ℤ
positive none = none
positive (some n) = if ltb n (2 ^ 63) then some (pos n) else none

abbrev pub negative : Option ℕ → Option ℤ
negative none = none
negative (some zero) = some (pos 0)
negative (some (suc n)) = if ltb n (2 ^ 63) then some (negsuc n) else none

-- strconv.Atoi; `none` is its error
unfoldable pub atoi : Bytes → Option ℤ
unfolding natural
atoi [] = none
atoi (c ∷ s) =
    if c == b'-'
    then negative (natural s)
    else if c == b'+'
    then positive (natural s)
    else positive (natural (c ∷ s))

-- The digits of `n` in front of `tail`; the fuel `n + 1` is more than their number.
unfoldable pub digits_before : ℕ → ℕ → Bytes → Bytes
digits_before zero n tail = tail
digits_before (suc fuel) n tail =
    let rest = digits_before fuel (n / 10) ((b'0' + n % 10) ∷ tail) in
    if ltb n 10 then (b'0' + n) ∷ tail else rest

-- strconv.Itoa
unfoldable pub itoa : ℤ → Bytes
unfolding digits_before
itoa (pos n) = digits_before (suc n) n []
itoa (negsuc n) = b'-' ∷ digits_before (suc (suc n)) (suc n) []
