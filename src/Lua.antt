-- ===== src/Lua.antt =====
-- tools/cache-consolidator/tools/luaser.py: SavedVariables files, read and written. A text is the list
-- of its code points.
pub mod Ends
pub mod Lexer
pub mod Literal
pub mod Parser
pub mod Writer
mod Tests
use ascension_preservation.Common.{
  ℕ, ◌+◌, ◌-◌, ◌*◌, Bool, true, false, ◌&&◌, ◌||◌, not, List, [], ◌∷◌, length, ltb, leb, ◌==◌,
  if◌then◌else◌,
}
use ascension_preservation.Common.Bytes.{Bytes}

abbrev pub Text : Type 0
Text = Bytes

-- A value: `int` has its sign and its magnitude; `float` has the text that Python's `float` reads.
mutual
  pub data Value : Type 0 where
    nil : Value
    bool : Bool → Value
    int : Bool → ℕ → Value
    float : Text → Value
    str : Text → Value
    redacted : Text → Value
    table : Values → Pairs → Value

  pub data Values : Type 0 where
    no_values : Values
    value : Value → Values → Values

  pub data Pairs : Type 0 where
    no_pairs : Pairs
    pair : Value → Value → Pairs → Pairs

pub data TokenKind : Type 0 where
  str_token num_token name_token punct_token : TokenKind

-- The end of the text is the end of the list of tokens.
pub record Token : Type 0 where
  pub kind : TokenKind
  pub text : Text

-- What a run comes to: `failed` is a `LuaError`; `out_of_fuel` has no counterpart in the program.
pub data Parsed {ℓ} (A : Type ℓ) : Type ℓ where
  ok : A → Parsed A
  failed out_of_fuel : Parsed A

infixl 5 ◌>>=◌
abbrev pub ◌>>=◌ {ℓ κ} : {A : Type ℓ} {B : Type κ} → Parsed A → (A → Parsed B) → Parsed B
failed >>= next = failed
out_of_fuel >>= next = out_of_fuel
ok a >>= next = next a

abbrev pub is_digit : ℕ → Bool
is_digit c = leb 48 c && leb c 57

abbrev pub is_hex : ℕ → Bool
is_hex c = is_digit c || (leb 65 c && leb c 70) || (leb 97 c && leb c 102)

abbrev pub digit_value : ℕ → ℕ
digit_value c = if leb 97 c then c - 87 else if leb 65 c then c - 55 else c - 48

-- `int(text, base)` of a text of digits.
unfoldable pub digits_value : ℕ → ℕ → Text → ℕ
digits_value base acc [] = acc
digits_value base acc (c ∷ s) = digits_value base (acc * base + digit_value c) s
