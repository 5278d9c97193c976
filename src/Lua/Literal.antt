-- ===== src/Lua/Literal.antt =====
-- String literals: `_unescape` and `_q`. The UTF-8 codec is a parameter.
pub mod RoundTrip
pub mod Total
use ascension_preservation.Common.{
  ℕ, zero, suc, ◌+◌, ◌*◌, ◌/◌, ◌%◌, Bool, true, false, ◌&&◌, ◌||◌, Option, none, some, List, [],
  ◌∷◌, ◌++◌, length, take, drop, ltb, leb, ◌==◌, if◌then◌else◌,
}
use ascension_preservation.Common.Bytes.{Bytes}
use ascension_preservation.Lua.{
  Text, Parsed, ok, failed, out_of_fuel, ◌>>=◌, is_digit, is_hex, digits_value,
}
use ascension_preservation.Lua.Lexer.{count_while}

-- `encode` is the UTF-8 of a character, `decode` is `none` where it raises.
pub record Codec : Type 0 where
  pub encode : ℕ → Bytes
  pub decode : Bytes → Option Text

-- `_ESCAPES.get(e, e)`; the backslash, the quotes and the line feed stand for themselves.
unfoldable pub escaped : ℕ → ℕ
escaped e =
    if e == 97
    then 7
    else if e == 98
    then 8
    else if e == 102
    then 12
    else if e == 110
    then 10
    else if e == 114
    then 13
    else if e == 116
    then 9
    else if e == 118
    then 11
    else e

-- Up to three digits.
abbrev pub digit_count : Text → ℕ
digit_count s = count_while is_digit (take 3 s)

module _ (utf8 : Codec) where
  -- The bytes of the literal; `more` is the rest of the loop.
  unfoldable pub decimal_escape : Text → (Text → Parsed Bytes) → Parsed Bytes
  decimal_escape s more =
      let n = digit_count s in
      let v = digits_value 10 0 (take n s) in
      let rest = (do b ← more (drop n s); ok (v ∷ b)) in if ltb 255 v then failed else rest

  unfoldable pub hex_escape : Text → (Text → Parsed Bytes) → Parsed Bytes
  hex_escape s more =
      let v = digits_value 16 0 (take 2 s) in
      let rest = (do b ← more (drop 2 s); ok (v ∷ b)) in
      if count_while is_hex (take 2 s) == 2 then rest else failed

  unfoldable pub unescape_loop : ℕ → Text → Parsed Bytes
  unescape_loop fuel [] = ok []
  unescape_loop zero (c ∷ s) = out_of_fuel
  unescape_loop (suc fuel) (c ∷ []) = if c == 92 then ok [] else ok (utf8.encode c)
  unescape_loop (suc fuel) (c ∷ e ∷ s) =
      let plain = (do b ← unescape_loop fuel (e ∷ s); ok (utf8.encode c ++ b)) in
      let simple = (do b ← unescape_loop fuel s; ok (utf8.encode (escaped e) ++ b)) in
      if c == 92
      then (if is_digit e
          then decimal_escape (e ∷ s) (unescape_loop fuel)
          else if e == 120
          then hex_escape s (unescape_loop fuel)
          else simple)
      else plain

  abbrev pub decoded : Option Text → Parsed Text
  decoded none = failed
  decoded (some s) = ok s

  unfoldable pub unescape : Text → Parsed Text
  unescape raw = do b ← unescape_loop (length raw) raw; decoded (utf8.decode b)

-- `\\%03d`
abbrev pub three_digits : ℕ → Text
three_digits c = (48 + c / 100 % 10) ∷ (48 + c / 10 % 10) ∷ (48 + c % 10) ∷ []

unfoldable pub quote_char : ℕ → Text
quote_char c =
    if c == 34
    then 92 ∷ 34 ∷ []
    else if c == 92
    then 92 ∷ 92 ∷ []
    else if c == 10
    then 92 ∷ 110 ∷ []
    else if c == 13
    then 92 ∷ 114 ∷ []
    else if ltb c 32
    then 92 ∷ three_digits c
    else c ∷ []

unfoldable pub quote_body : Text → Text
quote_body [] = []
quote_body (c ∷ s) = quote_char c ++ quote_body s

-- `_q`
unfoldable pub quote : Text → Text
quote s = 34 ∷ (quote_body s ++ 34 ∷ [])
