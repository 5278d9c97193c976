-- ===== src/Common/Integers.antt =====
-- Python's integers, under the library's names, over the native numbers.
use Prim.Native.Nat.{ℕ, ◌-◌, ◌%◌, ◌^◌}
use mathlib.Core.Path.{◌≡◌, refl}
use mathlib.Core.Bool.{Bool, true, false}
use native.Mathlib.Omega.{arith}
use ascension_preservation.Common.Tests.{leb, ◌==◌}

pub data ℤ : Type 0 where
  pos : ℕ → ℤ
  -- `-(n + 1)`
  negsuc : ℕ → ℤ

-- `a <= b`
abbrev pub le_int : ℤ → ℤ → Bool
le_int (pos m) (pos n) = leb m n
le_int (pos m) (negsuc n) = false
le_int (negsuc m) (pos n) = true
le_int (negsuc m) (negsuc n) = leb n m

-- `a == 0`
abbrev pub is_zero : ℤ → Bool
is_zero (pos n) = n == 0
is_zero (negsuc n) = false

-- `a & 0xFFFFFFFF`
unfoldable pub low_word : ℤ → ℕ
low_word (pos n) = n % 2 ^ 32
low_word (negsuc n) = 2 ^ 32 - 1 - n % 2 ^ 32

pub le_int_refl : (a : ℤ) → le_int a a ≡ true
le_int_refl (pos n) = ground arith
le_int_refl (negsuc n) = ground arith

pub le_int_trans : (a b c : ℤ) → le_int a b ≡ true → le_int b c ≡ true → le_int a c ≡ true
le_int_trans (pos m) (pos n) (pos k) h k' = ground arith
le_int_trans (pos m) (pos n) (negsuc k) h k' = cc k'
le_int_trans (pos m) (negsuc n) c h k = cc h
le_int_trans (negsuc m) b (pos k) h k' = refl
le_int_trans (negsuc m) (pos n) (negsuc k) h k' = cc k'
le_int_trans (negsuc m) (negsuc n) (negsuc k) h k' = ground arith
