-- ===== src/Common/Digit.antt =====
-- Single binary digits of masks, as `mask & (1 << n)` tests them and `|=` sets them.
use Prim.Native.Nat.{
  ℕ, zero, suc, ◌≤◌, ◌+◌, ◌*◌, ◌/◌, ◌%◌, ◌^◌, max, min, bit_and, bit_or, digits, bit_and-bitwise,
}
use mathlib.Core.Path.{◌≡◌, refl, ap, ◌∙◌}
use mathlib.Core.Logic.{◌⊎◌, inl, inr}
use mathlib.Core.Bool.{Bool, not, ◌||◌}
use native.Mathlib.Nat.{pow-suc}
use native.Mathlib.Omega.{arith}
use ascension_preservation.Common.Tests.{◌==◌, if◌then◌else◌}
use ascension_preservation.Common.Bits.{or_low_digit, and_low_digit}

-- `mask & (1 << n)`, as a test
unfoldable pub bit_set : ℕ → ℕ → Bool
bit_set mask n = not (bit_and mask (2 ^ n) == 0)

abbrev pub digit : ℕ → ℕ → ℕ
digit m zero = m % 2
digit m (suc n) = digit (m / 2) n

pub digit-bit_or : (n x y : ℕ) → digit (bit_or x y) n ≡ max (digit x n) (digit y n)
digit-bit_or zero x y = omega (arith, or_low_digit x y)
digit-bit_or (suc n) x y =
    let upper : bit_or x y / 2 ≡ bit_or (x / 2) (y / 2) = omega (arith, or_low_digit x y) in
    ap (λ m. digit m n) upper ∙ digit-bit_or n (x / 2) (y / 2)

pub digit-bit_and : (n x y : ℕ) → digit (bit_and x y) n ≡ min (digit x n) (digit y n)
digit-bit_and zero x y = omega (arith, and_low_digit x y)
digit-bit_and (suc n) x y =
    let upper : bit_and x y / 2 ≡ bit_and (x / 2) (y / 2) = omega (arith, and_low_digit x y) in
    ap (λ m. digit m n) upper ∙ digit-bit_and n (x / 2) (y / 2)

pub digit_zero : (n : ℕ) → digit 0 n ≡ 0
digit_zero zero = refl
digit_zero (suc n) = digit_zero n

digit_pow : (n k : ℕ) → digit (2 ^ k) n ≡ (if k == n then 1 else 0)
digit_pow zero zero = refl
digit_pow zero (suc k) = ground (arith, pow-suc 2 k)
digit_pow (suc n) zero = digit_zero n ∙ ground arith
digit_pow (suc n) (suc k) =
    let half : 2 ^ suc k / 2 ≡ 2 ^ k = omega (arith, pow-suc 2 k) in
    ap (λ m. digit m n) half ∙ digit_pow n k ∙ ground arith

none_and : (n x : ℕ) → digits (λ b. zero) min n x 0 ≡ 0
none_and zero zero = refl
none_and zero (suc x) = refl
none_and (suc n) zero = refl
none_and (suc n) (suc x) = omega (arith, none_and n (suc x / 2))

and_zero : (x : ℕ) → bit_and x 0 ≡ 0
and_zero x = bit_and-bitwise x 0 ∙ none_and x x

digit_small : (n m : ℕ) → digit m n ≤ 1
digit_small zero m = omega arith
digit_small (suc n) m = digit_small n (m / 2)

and_pow : (n x : ℕ) → bit_and x (2 ^ n) ≡ digit x n * 2 ^ n
and_pow zero x = omega (arith, and_low_digit x 1, and_zero (x / 2))
and_pow (suc n) x =
    let half : 2 ^ suc n / 2 ≡ 2 ^ n = omega (arith, pow-suc 2 n) in
    let even : 2 ^ suc n % 2 ≡ 0 = omega (arith, pow-suc 2 n) in
    let low : min (x % 2) (2 ^ suc n % 2) + 2 * bit_and (x / 2) (2 ^ suc n / 2)
        ≡ bit_and x (2 ^ suc n) =
      and_low_digit x (2 ^ suc n) in
    let upper : bit_and (x / 2) (2 ^ suc n / 2) ≡ digit (x / 2) n * 2 ^ n =
      ap (bit_and (x / 2)) half ∙ and_pow n (x / 2) in
    let double : digit (x / 2) n * 2 ^ suc n ≡ 2 * (digit (x / 2) n * 2 ^ n) =
      omega (arith, ap (λ (t : ℕ). digit (x / 2) n * t) (pow-suc 2 n)) in
    omega (arith, even, low, upper, double)

pow_positive : (n : ℕ) → 1 ≤ 2 ^ n
pow_positive zero = omega arith
pow_positive (suc n) = omega (arith, pow-suc 2 n, pow_positive n)

digit_cases : (n m : ℕ) → (digit m n ≡ 0) ⊎ (digit m n ≡ 1)
digit_cases zero m = ground arith
digit_cases (suc n) m = digit_cases n (m / 2)

pub bit_set-digit : (m n : ℕ) → bit_set m n ≡ (digit m n == 1)
unfolding bit_set
bit_set-digit m n = elim (digit_cases n m) [
  | inl e ↦ rw (and_pow n m, e) (ground arith)
  | inr e ↦ rw (and_pow n m, e) (ground (arith, pow_positive n))
]

pub bit_set-bit_or : (m k n : ℕ) → bit_set (bit_or m (2 ^ k)) n ≡ (k == n || bit_set m n)
bit_set-bit_or m k n =
    let both : digit (bit_or m (2 ^ k)) n ≡ max (digit m n) (if k == n then 1 else 0) =
      digit-bit_or n m (2 ^ k) ∙ ap (max (digit m n)) (digit_pow n k) in
    rw (bit_set-digit (bit_or m (2 ^ k)) n, bit_set-digit m n, both)
      (ground (arith, digit_small n m))
