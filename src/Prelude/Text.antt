-- ===== src/Prelude/Text.antt =====
-- Go strings are byte sequences: lists of numbers, compared byte by byte.
use Prim.Native.Nat.{ℕ}
use Prim.Native.Char.{code}
use Prim.Native.String.{String}
use mathlib.Core.Path.{◌≡◌}
use mathlib.Core.Logic.{◌↔◌}
use mathlib.Core.Bool.{Bool, true, false, ◌&&◌}
use mathlib.Core.List.{List, [], ◌∷◌}
use native.Mathlib.Omega.{arith}
use viking_ftpd.Prelude.Tests.{◌==◌}

abbrev pub Bytes : Type 0
Bytes = List ℕ

-- The bytes of an ASCII literal.
abbrev pub codes : String → Bytes
codes String.[] = []
codes (String.◌∷◌ c s) = code c ∷ codes s

-- a == b on strings
unfoldable pub equal : Bytes → Bytes → Bool
equal [] [] = true
equal [] (_ ∷ _) = false
equal (_ ∷ _) [] = false
equal (c ∷ s) (d ∷ t) = c == d && equal s t

pub equal_iff : (s t : Bytes) → (equal s t ≡ true) ↔ (s ≡ t)
unfolding equal
equal_iff [] [] = ground arith
equal_iff [] (d ∷ t) = ground arith
equal_iff (c ∷ s) [] = ground arith
equal_iff (c ∷ s) (d ∷ t) = ground (arith, equal_iff s t)

pub equal_refl : (a : Bytes) → equal a a ≡ true
equal_refl a = (equal_iff a a).1 λ i. a

-- strings.HasPrefix(s, prefix)
unfoldable pub has_prefix : Bytes → Bytes → Bool
has_prefix s [] = true
has_prefix [] (y ∷ ys) = false
has_prefix (x ∷ xs) (y ∷ ys) = x == y && has_prefix xs ys
