-- ===== src/Common/Packed.antt =====
-- What `struct.pack` returns, if it returns.
use Prim.Native.Nat.{ℕ, ◌^◌, ◌<◌}
use mathlib.Core.Path.{◌≡◌, refl}
use ascension_preservation.Common.Bytes.{Bytes, le, pack}
use ascension_preservation.Common.Outcome.{ok, err, struct_error}
use ascension_preservation.Common.Returns.{Returns, Returns-if}
use ascension_preservation.Common.Tests.{ltb, ltb→lt}

abbrev pub IsPacked : ℕ → ℕ → Bytes → Type 0
IsPacked n v b = (b ≡ le n v) × (v < 256 ^ n)

pub pack-IsPacked : (n v : ℕ) → Returns (IsPacked n v) (pack n v)
unfolding pack
pack-IsPacked n v =
    Returns-if (IsPacked n v) (ltb v (256 ^ n)) (ok (le n v)) (err struct_error)
      (λ e. (refl, ltb→lt v (256 ^ n) e)) (λ e. tt)
