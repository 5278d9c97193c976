-- ===== src/Lua/Tests.antt =====
-- Concrete texts: the codec keeps each character in one unit, as UTF-8 does below 128.
use ascension_preservation.Common.{
  ℕ, ◌≡◌, ◌≢◌, refl, ap, arith, Bool, true, false, some, [], ◌∷◌, ◌==◌,
}
use ascension_preservation.Lua.{
  Text, Value, nil, bool, int, str, table, Values, no_values, no_pairs, pair, ok, failed,
  out_of_fuel, ◌>>=◌, digits_value,
}
use ascension_preservation.Lua.Lexer.{
  tokens, tokens_loop, emit, match_token, as_token, count_while, rule_comment, starts, rule_str,
  rule_num, hexadecimal, decimal, rule_name, rule_punct, exponent, string_end, line_comment,
}
use ascension_preservation.Lua.Literal.{Codec, unescape, unescape_loop, quote}
use ascension_preservation.Lua.Parser.{
  same_text, number, value_of, loads, loads_loop, is_mark, expect, value_with, table_loop,
  table_step, scalar_of, signed, is_real, append_value, put, assign, peek_is_assign, skip_separator,
  word,
}
use ascension_preservation.Lua.Parser.Scalars.{value_of-quote}
use ascension_preservation.Lua.Parser.Total.{loads_ends}
use ascension_preservation.Lua.Writer.{Python, dumps}
use ascension_preservation.Lua.Writer.Order.{exchange, dumps-Reordered}

abbrev plain_codec : Codec
plain_codec = record { encode = λ c. c ∷ []; decode = some }

abbrev key_equal : Value → Value → Bool
key_equal (str s) (str t) = same_text s t
key_equal (int b n) (int c m) = n == m
key_equal k l = false

-- `x={1,["a"]=2}`
abbrev small_file : Text
small_file = 120 ∷ 61 ∷ 123 ∷ 49 ∷ 44 ∷ 91 ∷ 34 ∷ 97 ∷ 34 ∷ 93 ∷ 61 ∷ 50 ∷ 125 ∷ []

small_file_read :
    loads plain_codec key_equal small_file
    ≡ ok (
        (
          120 ∷ [],
          table
              (Values.value (int false 1) no_values)
              (pair (str (97 ∷ [])) (int false 2) no_pairs),
        )
        ∷ [])
unfolding loads tokens tokens_loop emit match_token as_token count_while rule_comment starts
    rule_str rule_num hexadecimal decimal rule_name rule_punct exponent string_end line_comment
    loads_loop is_mark expect value_of value_with table_loop table_step scalar_of number signed
    digits_value is_real same_text append_value put assign peek_is_assign skip_separator unescape
    unescape_loop word
small_file_read = refl

-- A table that is not closed.
open_table_refused : loads plain_codec key_equal (120 ∷ 61 ∷ 123 ∷ []) ≡ failed
unfolding loads tokens tokens_loop emit match_token as_token count_while rule_comment starts
    rule_str rule_num hexadecimal decimal rule_name rule_punct exponent string_end line_comment
    loads_loop is_mark expect value_of value_with table_loop table_step scalar_of number signed
    digits_value is_real same_text append_value put assign peek_is_assign skip_separator unescape
    unescape_loop word
open_table_refused = refl

-- A quote, a line feed, a control character and a letter.
abbrev sample : Text
sample = 34 ∷ 10 ∷ 7 ∷ 120 ∷ []

value_of-quote_example :
    (do ts ← tokens (quote sample); value_of plain_codec key_equal 1 ts) ≡ ok (str sample, [])
value_of-quote_example = value_of-quote plain_codec key_equal sample (λ c h. refl) refl

loads_ends_example : loads plain_codec key_equal small_file ≢ out_of_fuel
loads_ends_example = loads_ends plain_codec key_equal small_file

abbrev sample_python : Python
sample_python = record { repr = λ v. []; str_of = λ v. []; number_leb = λ k l. true }

abbrev first_of : Text → ℕ
first_of [] = 0
first_of (c ∷ s) = c

different_names : ◌≢◌ {A = Text} (98 ∷ []) (97 ∷ [])
different_names e = let equal : ◌≡◌ {A = ℕ} 98 97 = ap first_of e in omega (arith, equal)

dumps-Reordered_example :
    dumps sample_python ((98 ∷ [], nil) ∷ (97 ∷ [], bool true) ∷ [])
    ≡ dumps sample_python ((97 ∷ [], bool true) ∷ (98 ∷ [], nil) ∷ [])
dumps-Reordered_example =
    dumps-Reordered sample_python ((98 ∷ [], nil) ∷ (97 ∷ [], bool true) ∷ [])
      ((97 ∷ [], bool true) ∷ (98 ∷ [], nil) ∷ []) (exchange different_names)
