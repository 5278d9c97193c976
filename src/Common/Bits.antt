-- ===== src/Common/Bits.antt =====
-- `|` of disjoint fields as a sum; `|`, `&` and `^` on bytes, by evaluation.
use Prim.Native.Nat.{
  ℕ, zero, suc, ◌+◌, ◌*◌, ◌/◌, ◌%◌, ◌^◌, ◌≤◌, ◌<◌, max, bit_and, bit_or, bit_xor, digits, bitwise,
  bit_or-bitwise, bit_and-bitwise, min,
}
use mathlib.Core.Path.{◌≡◌, refl, ap}
use mathlib.Core.Bool.{Bool, true, ◌&&◌}
use native.Mathlib.Nat.{le_refl, pow-suc}
use native.Mathlib.Omega.{arith}
use ascension_preservation.Common.Tests.{◌==◌, ==_iff}

-- The lowest digit apart: what `bitwise` does above it, it does with any fuel that is enough.
module _ (rest : ℕ → ℕ) (digit : ℕ → ℕ → ℕ) where
  spare_fuel :
      (x y : ℕ) (more n : ℕ)
      → x ≤ n
      → n ≤ more
      → digits rest digit more x y ≡ digits rest digit n x y
  spare_fuel zero y zero zero h le = refl
  spare_fuel zero y (suc more) zero h le = refl
  spare_fuel zero y zero (suc n) h le = refl
  spare_fuel zero y (suc more) (suc n) h le = refl
  spare_fuel (suc x) y more zero h le = absurd (omega arith)
  spare_fuel (suc x) y zero (suc n) h le = absurd (omega arith)
  spare_fuel (suc x) y (suc more) (suc n) h le =
      ap (λ (t : ℕ). t * 2 + digit (suc x % 2) (y % 2))
        (spare_fuel (suc x / 2) (y / 2) more n (omega arith) (omega arith))

  upper_digits : (x y : ℕ) → digits rest digit x (suc x / 2) y ≡ bitwise rest digit (suc x / 2) y
  upper_digits x y = spare_fuel (suc x / 2) y x (suc x / 2) (le_refl _) (omega arith)

pub or_low_digit : (x y : ℕ) → max (x % 2) (y % 2) + 2 * bit_or (x / 2) (y / 2) ≡ bit_or x y
or_low_digit zero y = simp bit_or-bitwise (omega arith)
or_low_digit (suc x) y = simp bit_or-bitwise (omega (arith, upper_digits (λ d. d) max x (y / 2)))

pub and_low_digit : (x y : ℕ) → min (x % 2) (y % 2) + 2 * bit_and (x / 2) (y / 2) ≡ bit_and x y
and_low_digit zero y = simp bit_and-bitwise (omega arith)
and_low_digit (suc x) y =
    simp bit_and-bitwise (omega (arith, upper_digits (λ b. zero) min x (y / 2)))

-- Nothing set on the right, on any fuel that is enough.
none_set : (n x : ℕ) → x ≤ n → digits (λ d. d) max n x 0 ≡ x
none_set zero zero h = refl
none_set zero (suc x) h = absurd (omega arith)
none_set (suc n) zero h = refl
none_set (suc n) (suc x) h = omega (arith, none_set n (suc x / 2) (omega arith))

double_field : (k q : ℕ) → 2 * (q * 2 ^ k) ≡ q * 2 ^ suc k
double_field k q = omega (arith, ap (λ (t : ℕ). q * t) (pow-suc 2 k))

-- `(q << k) | r` is a sum when `r` has at most `k` bits.
pub bit_or-fields : (k q r : ℕ) → r < 2 ^ k → bit_or (q * 2 ^ k) r ≡ q * 2 ^ k + r
bit_or-fields zero q r fits = ground (arith, none_set q q (le_refl q), bit_or-bitwise q 0)
bit_or-fields (suc k) q r fits =
    let upper = bit_or-fields k q (r / 2) (omega arith) in
    ground (arith, double_field k q, upper, or_low_digit (q * 2 ^ suc k) r)

-- The same with the low field first.
pub bit_or-fields_low : (k q r : ℕ) → r < 2 ^ k → bit_or r (q * 2 ^ k) ≡ q * 2 ^ k + r
bit_or-fields_low zero q r fits = ground (arith, bit_or-bitwise 0 q)
bit_or-fields_low (suc k) q r fits =
    let upper = bit_or-fields_low k q (r / 2) (omega arith) in
    ground (arith, double_field k q, upper, or_low_digit r (q * 2 ^ suc k))

-- Over a small range, check every value by evaluation.
unfoldable pub all_below : ℕ → (ℕ → Bool) → Bool
all_below zero test = true
all_below (suc n) test = all_below n test && test n

pub all_below_sound :
    (bound : ℕ) (test : ℕ → Bool) (v : ℕ) → v < bound → all_below bound test ≡ true → test v ≡ true
unfolding all_below
all_below_sound zero test v small passed = absurd (omega arith)
all_below_sound (suc bound) test v small passed = ground (arith, all_below_sound bound test v)

top_bit_table : all_below 256 (λ b. bit_and b 0x80 == b / 128 * 128) ≡ true
unfolding all_below
top_bit_table = refl

pub bit_and-top : (b : ℕ) → b < 256 → bit_and b 0x80 ≡ b / 128 * 128
bit_and-top b h = (==_iff _ _).0 (all_below_sound 256 _ b h top_bit_table)

low_bits_table : all_below 128 (λ b. bit_and (128 + b) 0x7f == b) ≡ true
unfolding all_below
low_bits_table = refl

pub bit_and-low_bits : (b : ℕ) → b < 128 → bit_and (128 + b) 0x7f ≡ b
bit_and-low_bits b h = (==_iff _ _).0 (all_below_sound 128 _ b h low_bits_table)

set_top_table : all_below 256 (λ b. bit_or 0x80 b == 128 + b % 128) ≡ true
unfolding all_below
set_top_table = refl

pub bit_or-top : (b : ℕ) → b < 256 → bit_or 0x80 b ≡ 128 + b % 128
bit_or-top b h = (==_iff _ _).0 (all_below_sound 256 _ b h set_top_table)

xor_cancels : ℕ → Bool
unfolding all_below
xor_cancels b = all_below 256 (λ k. bit_xor (bit_xor b k) k == b)

xor_table : all_below 256 xor_cancels ≡ true
unfolding all_below xor_cancels
xor_table = refl

-- Masking a byte twice with the same key byte gives the byte back.
pub bit_xor-cancel : (b k : ℕ) → b < 256 → k < 256 → bit_xor (bit_xor b k) k ≡ b
unfolding xor_cancels
bit_xor-cancel b k hb hk = (==_iff _ _).0 (
    all_below_sound 256 (λ x. bit_xor (bit_xor b x) x == b) k hk
      (all_below_sound 256 xor_cancels b hb xor_table))
