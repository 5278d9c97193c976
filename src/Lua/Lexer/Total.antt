-- ===== src/Lua/Lexer/Total.antt =====
-- Each token has a character, so the fuel of `tokens` is enough.
use ascension_preservation.Common.{
  ℕ, zero, suc, ◌+◌, ◌≤◌, ◌≡◌, refl, Bool, true, false, ◌&&◌, ◌||◌, take, Option, none, some, List,
  [], ◌∷◌, length, drop, length-drop, ltb, ◌==◌, if◌then◌else◌, arith,
}
use ascension_preservation.Lua.{
  Text, Token, TokenKind, Parsed, ok, is_digit, is_hex, str_token, num_token, name_token,
  punct_token,
}
use ascension_preservation.Lua.Ends.{Ends, Any, Ends-bind}
use ascension_preservation.Lua.Lexer.{
  starts, is_space, is_name_start, is_name_part, is_punct, count_while, if_positive, more_by,
  or_else, line_comment, long_end, rule_comment, string_end, rule_str, exponent, decimal,
  hexadecimal, rule_num, rule_name, rule_punct, as_token, match_token, emit, tokens_loop, tokens,
}

IsPositive : Option ℕ → Type 0
IsPositive none = Unit {0}
IsPositive (some n) = 1 ≤ n

IsPositiveToken : Option (Option TokenKind × ℕ) → Type 0
IsPositiveToken none = Unit {0}
IsPositiveToken (some (kind, n)) = 1 ≤ n

if_positive-IsPositive : (n : ℕ) → IsPositive (if_positive n)
unfolding IsPositive
if_positive-IsPositive zero = tt
if_positive-IsPositive (suc n) = omega arith

more_by-IsPositive : (k : ℕ) (o : Option ℕ) → 1 ≤ k → IsPositive (more_by k o)
unfolding IsPositive
more_by-IsPositive k none h = tt
more_by-IsPositive k (some n) h = omega arith

or_else-IsPositive : (a b : Option ℕ) → IsPositive a → IsPositive b → IsPositive (or_else a b)
or_else-IsPositive none b ha hb = hb
or_else-IsPositive (some n) b ha hb = ha

if-IsPositive :
    (b : Bool) (x y : Option ℕ) → IsPositive x → IsPositive y → IsPositive (if b then x else y)
if-IsPositive true x y hx hy = hx
if-IsPositive false x y hx hy = hy

test-IsPositive : (b : Bool) (n : ℕ) → (b ≡ true → 1 ≤ n) → IsPositive (if b then some n else none)
unfolding IsPositive
test-IsPositive true n h = h refl
test-IsPositive false n h = tt

line_comment_dash : (p s : Text) → starts (45 ∷ p) s ≡ true → 1 ≤ line_comment s
unfolding line_comment count_while starts
line_comment_dash p [] h = absurd (ground (arith, h))
line_comment_dash p (c ∷ s) h = ground arith

when-IsPositive :
    (b : Bool) (x y : Option ℕ)
    → (b ≡ true → IsPositive x)
    → IsPositive y
    → IsPositive (if b then x else y)
when-IsPositive true x y hx hy = hx refl
when-IsPositive false x y hx hy = hy

rule_comment-IsPositive : (s : Text) → IsPositive (rule_comment s)
unfolding rule_comment IsPositive
rule_comment-IsPositive s =
    let long = more_by 4 (long_end (drop 4 s)) in
    let line = if starts (45 ∷ 45 ∷ []) s then some (line_comment s) else none in
    when-IsPositive (starts (45 ∷ 45 ∷ 91 ∷ 91 ∷ []) s) (or_else long (some (line_comment s))) line
      (λ h.
        or_else-IsPositive long (some (line_comment s))
          (more_by-IsPositive 4 (long_end (drop 4 s)) (omega arith))
          (line_comment_dash (45 ∷ 91 ∷ 91 ∷ []) s h))
      (test-IsPositive (starts (45 ∷ 45 ∷ []) s) (line_comment s) (line_comment_dash (45 ∷ []) s))

rule_str-IsPositive : (s : Text) → IsPositive (rule_str s)
unfolding rule_str IsPositive
rule_str-IsPositive [] = tt
rule_str-IsPositive (c ∷ s) =
    if-IsPositive (c == 34 || c == 39) (more_by 1 (string_end c s)) none
      (more_by-IsPositive 1 (string_end c s) (omega arith)) tt

counts : (w d p x : ℕ) → (ltb 0 w || (d == 1 && ltb 0 p)) ≡ true → 1 ≤ w + d + p + x
counts w d p x h = ground arith

decimal-IsPositive : (s : Text) → IsPositive (decimal s)
unfolding decimal
decimal-IsPositive s =
    let w = count_while is_digit s in
    let d : ℕ = if starts (46 ∷ []) (drop w s) then 1 else 0 in
    let p = count_while is_digit (drop (w + d) s) in
    let e = exponent (drop (w + d + p) s) in
    test-IsPositive (ltb 0 w || (d == 1 && ltb 0 p)) (w + d + p + e) (counts w d p e)

hexadecimal-IsPositive : (s : Text) → IsPositive (hexadecimal s)
unfolding hexadecimal
hexadecimal-IsPositive s =
    let digits = count_while is_hex (drop 2 s) in
    test-IsPositive ((starts (48 ∷ 120 ∷ []) s || starts (48 ∷ 88 ∷ []) s) && ltb 0 digits)
      (2 + digits) (λ h. omega arith)

raised-IsPositive : (k : ℕ) (o : Option ℕ) → IsPositive o → IsPositive (more_by k o)
unfolding IsPositive
raised-IsPositive k none h = tt
raised-IsPositive k (some n) h = omega arith

rule_num-IsPositive : (s : Text) → IsPositive (rule_num s)
unfolding rule_num
rule_num-IsPositive s =
    let sign : ℕ = if starts (45 ∷ []) s then 1 else 0 in
    raised-IsPositive sign (or_else (hexadecimal (drop sign s)) (decimal (drop sign s))) (
      or_else-IsPositive (hexadecimal (drop sign s)) (decimal (drop sign s))
        (hexadecimal-IsPositive (drop sign s)) (decimal-IsPositive (drop sign s)))

rule_name-IsPositive : (s : Text) → IsPositive (rule_name s)
unfolding rule_name IsPositive
rule_name-IsPositive [] = tt
rule_name-IsPositive (c ∷ s) =
    test-IsPositive (is_name_start c) (1 + count_while is_name_part s) (λ h. omega arith)

rule_punct-IsPositive : (s : Text) → IsPositive (rule_punct s)
unfolding rule_punct IsPositive
rule_punct-IsPositive [] = tt
rule_punct-IsPositive (c ∷ s) = test-IsPositive (is_punct c) 1 (λ h. omega arith)

as_token-IsPositiveToken :
    (kind : Option TokenKind) (o : Option ℕ) (other : Option (Option TokenKind × ℕ))
    → IsPositive o
    → IsPositiveToken other
    → IsPositiveToken (as_token kind o other)
unfolding as_token IsPositive IsPositiveToken
as_token-IsPositiveToken kind none other h rest = rest
as_token-IsPositiveToken kind (some n) other h rest = h

match_token-IsPositiveToken : (s : Text) → IsPositiveToken (match_token s)
unfolding match_token IsPositiveToken
match_token-IsPositiveToken s =
    let punct = as_token (some punct_token) (rule_punct s) none in
    let name = as_token (some name_token) (rule_name s) punct in
    let num = as_token (some num_token) (rule_num s) name in
    let str = as_token (some str_token) (rule_str s) num in
    let comment = as_token none (rule_comment s) str in
    as_token-IsPositiveToken none (if_positive (count_while is_space s)) comment
      (if_positive-IsPositive (count_while is_space s))
      (as_token-IsPositiveToken none (rule_comment s) str (rule_comment-IsPositive s) (
        as_token-IsPositiveToken (some str_token) (rule_str s) num (rule_str-IsPositive s) (
          as_token-IsPositiveToken (some num_token) (rule_num s) name (rule_num-IsPositive s) (
            as_token-IsPositiveToken (some name_token) (rule_name s) punct (rule_name-IsPositive s)
              (as_token-IsPositiveToken (some punct_token) (rule_punct s) none
                (rule_punct-IsPositive s) tt)))))

emit-Ends :
    (m : Option (Option TokenKind × ℕ)) (s : Text) (more : Text → Parsed (List Token))
    → IsPositiveToken m
    → ((n : ℕ) → 1 ≤ n → Ends Any (more (drop n s)))
    → Ends Any (emit m s more)
unfolding emit IsPositiveToken
emit-Ends none s more h rest = tt
emit-Ends (some (none, n)) s more h rest = rest n h
emit-Ends (some (some kind, n)) s more h rest =
    Ends-bind Any Any (more (drop n s)) (λ ts. ok (record { kind = kind; text = take n s } ∷ ts))
      (rest n h) (λ ts u. tt)

tokens_loop-Ends : (fuel : ℕ) (s : Text) → length s ≤ fuel → Ends Any (tokens_loop fuel s)
unfolding tokens_loop
tokens_loop-Ends fuel [] h = tt
tokens_loop-Ends zero (c ∷ s) h = absurd (omega arith)
tokens_loop-Ends (suc fuel) (c ∷ s) h =
    emit-Ends (match_token (c ∷ s)) (c ∷ s) (tokens_loop fuel) (match_token-IsPositiveToken (c ∷ s))
      (λ n pos. tokens_loop-Ends fuel (drop n (c ∷ s)) (omega (arith, length-drop n (c ∷ s))))

-- The lexer ends on every text.
pub tokens-Ends : (s : Text) → Ends Any (tokens s)
unfolding tokens
tokens-Ends s = tokens_loop-Ends (length s) s (omega arith)
