-- ===== src/Common/Bytes.antt =====
-- Little-endian numbers in byte strings, as Python's `struct` and slices read and write them.
use Prim.Native.Char.{code}
use Prim.Native.String.{String}
use mathlib.Core.Bool.{Bool, true, false, ◌&&◌}
use mathlib.Core.Logic.{◌↔◌}
use native.Mathlib.Nat.{pow-suc}
use Prim.Native.Nat.{ℕ, zero, suc, ◌+◌, ◌*◌, ◌/◌, ◌%◌, ◌^◌, ◌<◌}
use mathlib.Core.Path.{◌≡◌, refl, ap}
use mathlib.Core.List.{List, [], ◌∷◌}
use native.Mathlib.Omega.{arith}
use ascension_preservation.Common.Tests.{ltb, leb, lt→ltb, ◌==◌, if◌then◌else◌}
use ascension_preservation.Common.Lists.{length, take, drop, All}
use ascension_preservation.Common.Outcome.{Result, ok, err, struct_error}

abbrev pub Bytes : Type 0
Bytes = List ℕ

abbrev pub IsByte : ℕ → Type 0
IsByte b = b < 256

-- `n` bytes of `v`, lowest first.
abbrev pub le : ℕ → ℕ → Bytes
le zero v = []
le (suc n) v = (v % 256) ∷ le n (v / 256)

abbrev pub un_le : Bytes → ℕ
un_le [] = 0
un_le (b ∷ bs) = b + 256 * un_le bs

pub length-le : (n v : ℕ) → length (le n v) ≡ n
length-le zero v = refl
length-le (suc n) v = ap suc (length-le n (v / 256))

pub le-IsByte : (n v : ℕ) → All IsByte (le n v)
le-IsByte zero v = tt
le-IsByte (suc n) v = (omega arith, le-IsByte n (v / 256))

pub un_le-le : (n v : ℕ) → v < 256 ^ n → un_le (le n v) ≡ v
un_le-le zero v h = omega arith
un_le-le (suc n) v h = omega (arith, un_le-le n (v / 256) (omega (arith, pow-suc 256 n)))

pub le-un_le : (n : ℕ) (b : Bytes) → length b ≡ n → All IsByte b → le n (un_le b) ≡ b
le-un_le zero [] e h = refl
le-un_le zero (x ∷ b) e h = absurd (omega arith)
le-un_le (suc n) [] e h = absurd (omega arith)
le-un_le (suc n) (x ∷ b) e (hx, h) =
    let low : (x + 256 * un_le b) % 256 ≡ x = omega arith in
    let high : (x + 256 * un_le b) / 256 ≡ un_le b = omega arith in
    rw (low, high, le-un_le n b (omega arith) h)

-- `struct.pack` raises on a number that the format cannot hold.
unfoldable pub pack : ℕ → ℕ → Result Bytes
pack n v = if ltb v (256 ^ n) then ok (le n v) else err struct_error

pub pack-eq-ok : (n v : ℕ) → v < 256 ^ n → pack n v ≡ ok (le n v)
unfolding pack
pack-eq-ok n v h = rw (lt→ltb v (256 ^ n) h)

-- `struct.unpack_from` raises where fewer than `n` bytes are left.
unfoldable pub unpack : ℕ → Bytes → Result (ℕ × Bytes)
unpack n b = if leb n (length b) then ok (un_le (take n b), drop n b) else err struct_error

-- The code points of a text: its bytes, if it is ASCII.
abbrev pub codes : String → Bytes
codes String.[] = []
codes (String.◌∷◌ c s) = code c ∷ codes s

unfoldable pub eq_bytes : Bytes → Bytes → Bool
eq_bytes [] [] = true
eq_bytes (x ∷ a) (y ∷ b) = x == y && eq_bytes a b
eq_bytes _ _ = false

pub eq_bytes_iff : (a b : Bytes) → (eq_bytes a b ≡ true) ↔ (a ≡ b)
unfolding eq_bytes
eq_bytes_iff (x ∷ a) (y ∷ b) = ground (arith, eq_bytes_iff a b)
eq_bytes_iff _ _ = ground arith
