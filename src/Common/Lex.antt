-- ===== src/Common/Lex.antt =====
-- Orders as Boolean tests, and pairs in the order of tuples.
use mathlib.Core.Path.{◌≡◌}
use mathlib.Core.Bool.{Bool, true, false, not, ◌&&◌, ◌||◌}
use native.Mathlib.Omega.{arith}

-- A test for `<=`.
pub record Order {ℓ} {A : Type ℓ} (leb : A → A → Bool) : Type ℓ where
  pub total : (a b : A) → leb a b ≡ false → leb b a ≡ true
  pub trans : (a b c : A) → leb a b ≡ true → leb b c ≡ true → leb a c ≡ true

module _ {ℓ κ} {A : Type ℓ} {B : Type κ} (leb : A → A → Bool) (leb₂ : B → B → Bool) where
  unfoldable pub lex : A × B → A × B → Bool
  lex (a, b) (c, d) = leb a c && (not (leb c a) || leb₂ b d)

  pub lex-Order : Order leb → Order leb₂ → Order lex
  unfolding lex
  lex-Order o p = record {
    total = λ (a, b) (c, d) h. ground (arith, o.total a c, p.total b d);
    trans = λ (a, b) (c, d) (e, f) h k.
        ground (arith, o.trans a c e, o.trans e a c, o.trans c e a, p.trans b d f);
  }
