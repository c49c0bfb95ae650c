-- ===== src/Lpc/Rune.antt =====
-- utf8.DecodeRuneInString followed by strings.Builder.WriteRune, as parseString uses them: the bytes
-- that are written for the first rune of the text, and the width that is consumed. A valid sequence
-- is written as it stands; anything else consumes one byte and writes U+FFFD.
use viking_ftpd.Prelude.{
  ℕ, suc, ◌≤◌, arith, length, Bool, ◌&&◌, [], ◌∷◌, ◌==◌, leb, ltb, if◌then◌else◌, Bytes,
}

abbrev within : ℕ → ℕ → ℕ → Bool
within lo hi c = leb lo c && leb c hi

abbrev is_tail : ℕ → Bool
is_tail c = within 0x80 0xBF c

abbrev replacement : Bytes × ℕ
replacement = (0xEF ∷ 0xBF ∷ 0xBD ∷ [], 1)

two_bytes : ℕ → Bytes → Bytes × ℕ
two_bytes a (b ∷ _) = if is_tail b then (a ∷ b ∷ [], 2) else replacement
two_bytes a [] = replacement

-- `lo` and `hi` bound the second byte.
three_bytes : ℕ → ℕ → ℕ → Bytes → Bytes × ℕ
three_bytes a lo hi (b ∷ c ∷ _) =
    if within lo hi b && is_tail c then (a ∷ b ∷ c ∷ [], 3) else replacement
three_bytes a lo hi _ = replacement

four_bytes : ℕ → ℕ → ℕ → Bytes → Bytes × ℕ
four_bytes a lo hi (b ∷ c ∷ d ∷ _) =
    if within lo hi b && is_tail c && is_tail d then (a ∷ b ∷ c ∷ d ∷ [], 4) else replacement
four_bytes a lo hi _ = replacement

-- What the first byte announces: the length of the sequence and the range of the second byte.
pub data Lead : Type 0 where
  ascii pair invalid : Lead
  triple quad : ℕ → ℕ → Lead

lead : ℕ → Lead
lead a =
    if ltb a 0x80
    then ascii
    else if within 0xC2 0xDF a
    then pair
    else if a == 0xE0
    then triple 0xA0 0xBF
    else if a == 0xED
    then triple 0x80 0x9F
    else if within 0xE1 0xEF a
    then triple 0x80 0xBF
    else if a == 0xF0
    then quad 0x90 0xBF
    else if within 0xF1 0xF3 a
    then quad 0x80 0xBF
    else if a == 0xF4
    then quad 0x80 0x8F
    else invalid

rune_as : Lead → ℕ → Bytes → Bytes × ℕ
rune_as ascii a s = (a ∷ [], 1)
rune_as pair a s = two_bytes a s
rune_as (triple lo hi) a s = three_bytes a lo hi s
rune_as (quad lo hi) a s = four_bytes a lo hi s
rune_as invalid a s = replacement

unfoldable pub rune_after : ℕ → Bytes → Bytes × ℕ
unfolding lead rune_as two_bytes three_bytes four_bytes
rune_after a s = rune_as (lead a) a s

-- A width in a text that has `rest` behind its first byte.
pub record IsWidth (rest : Bytes) (r : Bytes × ℕ) : Type 0 where
  pub positive : 1 ≤ r.1
  pub fits : r.1 ≤ suc (length rest)

two_bytes-IsWidth : (a : ℕ) (s : Bytes) → IsWidth s (two_bytes a s)
unfolding two_bytes
two_bytes-IsWidth a [] = omega arith
two_bytes-IsWidth a (b ∷ s) = ground arith

three_bytes-IsWidth : (a lo hi : ℕ) (s : Bytes) → IsWidth s (three_bytes a lo hi s)
unfolding three_bytes
three_bytes-IsWidth a lo hi [] = omega arith
three_bytes-IsWidth a lo hi (b ∷ []) = omega arith
three_bytes-IsWidth a lo hi (b ∷ c ∷ s) = ground arith

four_bytes-IsWidth : (a lo hi : ℕ) (s : Bytes) → IsWidth s (four_bytes a lo hi s)
unfolding four_bytes
four_bytes-IsWidth a lo hi [] = omega arith
four_bytes-IsWidth a lo hi (b ∷ []) = omega arith
four_bytes-IsWidth a lo hi (b ∷ c ∷ []) = omega arith
four_bytes-IsWidth a lo hi (b ∷ c ∷ d ∷ s) = ground arith

rune_as-IsWidth : (l : Lead) (a : ℕ) (s : Bytes) → IsWidth s (rune_as l a s)
unfolding rune_as
rune_as-IsWidth ascii a s = omega arith
rune_as-IsWidth pair a s = two_bytes-IsWidth a s
rune_as-IsWidth (triple lo hi) a s = three_bytes-IsWidth a lo hi s
rune_as-IsWidth (quad lo hi) a s = four_bytes-IsWidth a lo hi s
rune_as-IsWidth invalid a s = omega arith

-- The width is 1 at least, and no more than what is left of the text.
pub rune_after-IsWidth : (a : ℕ) (s : Bytes) → IsWidth s (rune_after a s)
unfolding rune_after
rune_after-IsWidth a s = rune_as-IsWidth (lead a) a s
