-- ===== src/Coa/Tests.antt =====
-- Concrete packets and tables.
use ascension_preservation.Common.{
  ℕ, ◌≡◌, refl, Option, none, some, List, [], ◌∷◌, ◌++◌, length, replicate, if◌then◌else◌,
}
use ascension_preservation.Common.Bytes.{Bytes, eq_bytes}
use ascension_preservation.Common.Dict.{get, put}
use ascension_preservation.Coa.CharEnum.{rewrite_char_enum}
use ascension_preservation.Coa.CharEnum.Same.{rewrite_keeps}
use ascension_preservation.Coa.Essence.{Row, curve, curve_from, on_curve, budget}
use ascension_preservation.Coa.Essence.Budget.{IsEnd, budget_clamps}

-- One character, `A`, of race 1, class 1 and gender 0.
abbrev one_character : Bytes
one_character = 1 ∷ (7 ∷ replicate 7 0 ++ 65 ∷ 0 ∷ 1 ∷ 1 ∷ 0 ∷ replicate 258 0)

abbrev tinker : Bytes → Option ℕ
tinker name = if eq_bytes name (65 ∷ []) then some 28 else none

rewrite_keeps_example :
    (length ((rewrite_char_enum (λ b. b) tinker one_character).body) ≡ length one_character)
    × ((rewrite_char_enum (λ b. b) tinker one_character).changes ≡ []
        → (rewrite_char_enum (λ b. b) tinker one_character).body ≡ one_character)
rewrite_keeps_example = rewrite_keeps (λ b. b) tinker one_character

abbrev sample_rows : List Row
sample_rows =
    record {
      row_id = 1;
      level = 10;
      family = 28;
      combo0 = 0;
      combo1 = 0;
      combo2 = 0;
      combo3 = 0;
      ability = 5;
      talent = 1;
    }
    ∷ record {
      row_id = 2;
      level = 80;
      family = 28;
      combo0 = 0;
      combo1 = 0;
      combo2 = 0;
      combo3 = 0;
      ability = 36;
      talent = 35;
    }
    ∷ []

-- Level 90 is above the curve of family 28.
budget_clamps_example :
    (x : ℕ) × (get x (curve 28 sample_rows) ≡ some (budget 28 90 sample_rows))
    × IsEnd 90 (curve 28 sample_rows) x
unfolding curve curve_from on_curve put get
budget_clamps_example = budget_clamps 28 90 sample_rows 10 (5, 1) ((80, (36, 35)) ∷ []) refl refl
