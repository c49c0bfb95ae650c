-- ===== src/Prelude/Int.antt =====
-- Signed integers over the native numbers: Go's int where the values stay in its range.
use Prim.Native.Nat.{ℕ}
use mathlib.Core.Path.{◌≡◌}
use mathlib.Core.Logic.{◌↔◌}
use mathlib.Core.Bool.{Bool, true, false}
use native.Mathlib.Omega.{arith}
use viking_ftpd.Prelude.Tests.{leb, ◌==◌}

-- `negsuc n` is -(n + 1).
pub data ℤ : Type 0 where
  pos : ℕ → ℤ
  negsuc : ℕ → ℤ

-- a <= b
abbrev pub le_int : ℤ → ℤ → Bool
le_int (pos a) (pos b) = leb a b
le_int (pos a) (negsuc b) = false
le_int (negsuc a) (pos b) = true
le_int (negsuc a) (negsuc b) = leb b a

-- a == b
abbrev pub eq_int : ℤ → ℤ → Bool
eq_int (pos a) (pos b) = a == b
eq_int (negsuc a) (negsuc b) = a == b
eq_int _ _ = false

pub eq_int_iff : (a b : ℤ) → (eq_int a b ≡ true) ↔ (a ≡ b)
eq_int_iff (pos a) (pos b) = ground arith
eq_int_iff (pos a) (negsuc b) = ground arith
eq_int_iff (negsuc a) (pos b) = ground arith
eq_int_iff (negsuc a) (negsuc b) = ground arith

pub le_int_trans : (a b c : ℤ) → le_int a b ≡ true → le_int b c ≡ true → le_int a c ≡ true
le_int_trans (pos a) (pos b) (pos c) h k = ground arith
le_int_trans (pos a) (pos b) (negsuc c) h k = ground arith
le_int_trans (pos a) (negsuc b) c h k = ground arith
le_int_trans (negsuc a) b (pos c) h k = ground arith
le_int_trans (negsuc a) (pos b) (negsuc c) h k = ground arith
le_int_trans (negsuc a) (negsuc b) (negsuc c) h k = ground arith
