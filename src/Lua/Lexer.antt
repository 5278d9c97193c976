-- ===== src/Lua/Lexer.antt =====
-- `_TOKEN` and `_tokens`: the alternatives of the pattern in their order, each as the length that it
-- matches. Digits are the ASCII ones.
pub mod Total
use ascension_preservation.Common.{
  ℕ, zero, suc, ◌+◌, Bool, true, false, ◌&&◌, ◌||◌, not, Option, none, some, map, List, [], ◌∷◌,
  length, take, drop, ltb, leb, ◌==◌, if◌then◌else◌,
}
use ascension_preservation.Lua.{
  Text, TokenKind, str_token, num_token, name_token, punct_token, Token, Parsed, ok, failed,
  out_of_fuel, ◌>>=◌, is_digit, is_hex,
}

abbrev pub is_space : ℕ → Bool
is_space c =
    (leb 9 c && leb c 13)
    || (leb 28 c && leb c 32)
    || c == 0x85
    || c == 0xa0
    || c == 0x1680
    || (leb 0x2000 c && leb c 0x200a)
    || c == 0x2028
    || c == 0x2029
    || c == 0x202f
    || c == 0x205f
    || c == 0x3000

abbrev pub is_name_start : ℕ → Bool
is_name_start c = (leb 65 c && leb c 90) || c == 95 || (leb 97 c && leb c 122)

abbrev pub is_name_part : ℕ → Bool
is_name_part c = is_name_start c || is_digit c

-- `[]{}=,;`
abbrev pub is_punct : ℕ → Bool
is_punct c = c == 91 || c == 93 || c == 123 || c == 125 || c == 61 || c == 44 || c == 59

unfoldable pub count_while : (ℕ → Bool) → Text → ℕ
count_while test [] = 0
count_while test (c ∷ s) = let more = count_while test s in if test c then suc more else 0

abbrev pub if_positive : ℕ → Option ℕ
if_positive zero = none
if_positive (suc n) = some (suc n)

abbrev pub more_by : ℕ → Option ℕ → Option ℕ
more_by k none = none
more_by k (some n) = some (k + n)

abbrev pub or_else : Option ℕ → Option ℕ → Option ℕ
or_else none o = o
or_else (some n) o = some n

unfoldable pub starts : Text → Text → Bool
starts [] s = true
starts (c ∷ p) [] = false
starts (c ∷ p) (d ∷ s) = c == d && starts p s

-- How much precedes and includes the next `]]`.
unfoldable pub long_end : Text → Option ℕ
long_end [] = none
long_end (c ∷ s) =
    let later = more_by 1 (long_end s) in if starts (93 ∷ 93 ∷ []) (c ∷ s) then some 2 else later

unfoldable pub line_comment : Text → ℕ
line_comment s = count_while (λ c. not (c == 10)) s

unfoldable pub rule_comment : Text → Option ℕ
rule_comment s =
    if starts (45 ∷ 45 ∷ 91 ∷ 91 ∷ []) s
    then or_else (more_by 4 (long_end (drop 4 s))) (some (line_comment s))
    else if starts (45 ∷ 45 ∷ []) s
    then some (line_comment s)
    else none

-- A quoted string from behind its opening quote `q` to its end: a backslash takes the next character.
unfoldable pub string_end : ℕ → Text → Option ℕ
string_end q [] = none
string_end q (c ∷ []) = if c == q then some 1 else none
string_end q (c ∷ d ∷ s) =
    let escaped = more_by 2 (string_end q s) in
    let plain = more_by 1 (string_end q (d ∷ s)) in
    if c == 92 then escaped else if c == q then some 1 else plain

unfoldable pub rule_str : Text → Option ℕ
rule_str [] = none
rule_str (c ∷ s) = if c == 34 || c == 39 then more_by 1 (string_end c s) else none

-- `[eE][+-]?\d+`, or nothing.
unfoldable pub exponent : Text → ℕ
exponent [] = 0
exponent (c ∷ s) =
    let sign = if starts (43 ∷ []) s || starts (45 ∷ []) s then 1 else 0 in
    let digits = count_while is_digit (drop sign s) in
    if (c == 101 || c == 69) && ltb 0 digits then 1 + sign + digits else 0

-- `\d+\.?\d*` and `\.\d+`, with the exponent.
unfoldable pub decimal : Text → Option ℕ
decimal s =
    let whole = count_while is_digit s in
    let dot = if starts (46 ∷ []) (drop whole s) then 1 else 0 in
    let part = count_while is_digit (drop (whole + dot) s) in
    let n = whole + dot + part in
    if ltb 0 whole || (dot == 1 && ltb 0 part) then some (n + exponent (drop n s)) else none

-- `0[xX][0-9a-fA-F]+`
unfoldable pub hexadecimal : Text → Option ℕ
hexadecimal s =
    let digits = count_while is_hex (drop 2 s) in
    if (starts (48 ∷ 120 ∷ []) s || starts (48 ∷ 88 ∷ []) s) && ltb 0 digits
    then some (2 + digits)
    else none

unfoldable pub rule_num : Text → Option ℕ
rule_num s =
    let sign = if starts (45 ∷ []) s then 1 else 0 in
    more_by sign (or_else (hexadecimal (drop sign s)) (decimal (drop sign s)))

unfoldable pub rule_name : Text → Option ℕ
rule_name [] = none
rule_name (c ∷ s) = if is_name_start c then some (1 + count_while is_name_part s) else none

unfoldable pub rule_punct : Text → Option ℕ
rule_punct [] = none
rule_punct (c ∷ s) = if is_punct c then some 1 else none

-- The first alternative that matches, and its length: `none` for white space and comments.
unfoldable pub as_token :
    Option TokenKind → Option ℕ → Option (Option TokenKind × ℕ) → Option (Option TokenKind × ℕ)
as_token kind none other = other
as_token kind (some n) other = some (kind, n)

unfoldable pub match_token : Text → Option (Option TokenKind × ℕ)
match_token s = as_token none (if_positive (count_while is_space s)) (
    as_token none (rule_comment s) (
      as_token (some str_token) (rule_str s) (
        as_token (some num_token) (rule_num s) (
          as_token (some name_token) (rule_name s)
            (as_token (some punct_token) (rule_punct s) none)))))

-- The rest of the tokens, `more`, behind one of `n` characters.
unfoldable pub emit :
    Option (Option TokenKind × ℕ) → Text → (Text → Parsed (List Token)) → Parsed (List Token)
emit none s more = failed
emit (some (none, n)) s more = more (drop n s)
emit (some (some kind, n)) s more = do
  ts ← more (drop n s)
  ok (record { kind = kind; text = take n s } ∷ ts)

unfoldable pub tokens_loop : ℕ → Text → Parsed (List Token)
tokens_loop fuel [] = ok []
tokens_loop zero (c ∷ s) = out_of_fuel
tokens_loop (suc fuel) (c ∷ s) = emit (match_token (c ∷ s)) (c ∷ s) (tokens_loop fuel)

-- A token has a character at least.
unfoldable pub tokens : Text → Parsed (List Token)
tokens s = tokens_loop (length s) s
