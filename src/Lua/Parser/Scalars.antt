-- ===== src/Lua/Parser/Scalars.antt =====
-- Strings and numbers as the writer prints them are read back.
use ascension_preservation.Common.{
  ℕ, zero, suc, ◌+◌, ◌-◌, ◌*◌, ◌/◌, ◌%◌, ◌<◌, ◌≡◌, refl, ap, Bool, true, false, Bool-cases, inl,
  inr, some, [], ◌∷◌, ◌++◌, append-nil, length, length-append, take, drop, map, All, ltb, ltb→lt,
  ◌==◌, arith,
}
use mathlib.Core.Path.{subst}
use ascension_preservation.Lua.{
  Text, Value, int, str, TokenKind, str_token, ok, ◌>>=◌, digits_value, digit_value, is_digit,
}
use ascension_preservation.Lua.Lexer.{starts, match_token, emit, tokens_loop, tokens}
use ascension_preservation.Lua.Literal.{Codec, quote, quote_body}
use ascension_preservation.Lua.Literal.RoundTrip.{
  encode_all, match_token-quote, unescape-quote_body,
}
use ascension_preservation.Lua.Parser.{
  lower, is_real, signed, number, is_mark, scalar_of, value_with, value_of,
}
use ascension_preservation.Lua.Writer.{decimal_loop, decimal_text}

take_all : (s : Text) → take (length s) s ≡ s
take_all [] = refl
take_all (c ∷ s) = ap (λ t. c ∷ t) (take_all s)

drop_all : (s : Text) → drop (length s) s ≡ []
drop_all [] = refl
drop_all (c ∷ s) = drop_all s

take_front : (s t : Text) → take (length s) (s ++ t) ≡ s
take_front [] t = refl
take_front (c ∷ s) t = ap (λ r. c ∷ r) (take_front s t)

one_token :
    (c : ℕ) (s : Text) (kind : TokenKind)
    → match_token (c ∷ s) ≡ some (some kind, length (c ∷ s))
    → tokens (c ∷ s) ≡ ok (record { kind = kind; text = c ∷ s } ∷ [])
unfolding tokens tokens_loop emit
one_token c s kind h = rw (h, drop_all s, take_all s) refl

tokens-quote : (s : Text) → tokens (quote s) ≡ ok (record { kind = str_token; text = quote s } ∷ [])
unfolding quote
tokens-quote s = one_token 34 (quote_body s ++ 34 ∷ []) str_token (
    subst (λ t. match_token t ≡ some (some str_token, length (quote s))) (append-nil (quote s))
      (match_token-quote s []))

take_exactly : (s t : Text) (n : ℕ) → n ≡ length s → take n (s ++ t) ≡ s
take_exactly s t n e = rw e (take_front s t)

inside_quotes : (s : Text) → take (length (quote s) - 2) (drop 1 (quote s)) ≡ quote_body s
unfolding quote
inside_quotes s =
    take_exactly (quote_body s) (34 ∷ []) (length (quote s) - 2)
      (unfold quote in omega (arith, length-append (quote_body s) (34 ∷ [])))

-- What `_q` writes is lexed as one token, and the parser reads that token as the same string, for a text
-- whose UTF-8 is read back and a codec that keeps ASCII.
pub value_of-quote :
    (utf8 : Codec) (same_key : Value → Value → Bool) (s : Text)
    → ((c : ℕ) → c < 128 → utf8.encode c ≡ c ∷ [])
    → utf8.decode (encode_all utf8 s) ≡ some s
    → (do ts ← tokens (quote s); value_of utf8 same_key 1 ts) ≡ ok (str s, [])
unfolding value_of value_with is_mark scalar_of
value_of-quote utf8 same_key s ascii law =
    rw (tokens-quote s, inside_quotes s, unescape-quote_body utf8 s ascii law) refl

digits_value-append :
    (acc : ℕ) (s : Text) (d : ℕ)
    → digits_value 10 acc (s ++ d ∷ []) ≡ digits_value 10 acc s * 10 + digit_value d
unfolding digits_value
digits_value-append acc [] d = refl
digits_value-append acc (c ∷ s) d = digits_value-append (acc * 10 + digit_value c) s d

decimal_value : (fuel n : ℕ) → n < fuel → digits_value 10 0 (decimal_loop fuel n) ≡ n
unfolding decimal_loop
decimal_value zero n h = absurd (omega arith)
decimal_value (suc fuel) n h = elim (Bool-cases (ltb n 10)) [
  | inl small ↦ rw small (unfold digits_value in ground (arith, ltb→lt n 10 small))
  | inr big ↦
      rw
        (
          big,
          digits_value-append 0 (decimal_loop fuel (n / 10)) (48 + n % 10),
          decimal_value fuel (n / 10) (ground (arith, big)),
        )
        (ground arith)
]

IsDigits : Text → Type 0
IsDigits s = All (λ c. is_digit c ≡ true) s

snoc-IsDigits : (s : Text) (d : ℕ) → IsDigits s → is_digit d ≡ true → IsDigits (s ++ d ∷ [])
unfolding IsDigits
snoc-IsDigits [] d h k = (k, tt)
snoc-IsDigits (c ∷ s) d h k = (h.0, snoc-IsDigits s d (h.1) k)

decimal-IsDigits : (fuel n : ℕ) → IsDigits (decimal_loop fuel n)
unfolding decimal_loop IsDigits
decimal-IsDigits zero n = tt
decimal-IsDigits (suc fuel) n = elim (Bool-cases (ltb n 10)) [
  | inl small ↦ rw small (ground (arith, ltb→lt n 10 small), tt)
  | inr big ↦ rw big (
      snoc-IsDigits (decimal_loop fuel (n / 10)) (48 + n % 10) (decimal-IsDigits fuel (n / 10))
        (ground arith))
]

real-IsDigits : (s : Text) → IsDigits s → is_real s ≡ false
unfolding is_real IsDigits
real-IsDigits [] h = refl
real-IsDigits (c ∷ s) h =
    let rest = real-IsDigits s (h.1) in let here = h.0 in rw rest (ground arith)

no_sign : (s : Text) → IsDigits s → starts (45 ∷ []) s ≡ false
unfolding starts IsDigits
no_sign [] h = refl
no_sign (c ∷ s) h = let here = h.0 in ground (arith, here)

digit_lower : (c : ℕ) → is_digit c ≡ true → lower c ≡ c
digit_lower c h = ground (arith, h)

no_base : (s : Text) → IsDigits s → starts (48 ∷ 120 ∷ []) (map lower s) ≡ false
unfolding starts IsDigits
no_base [] h = refl
no_base (c ∷ []) h = elim (Bool-cases (48 == lower c)) [ inl e ↦ rw e refl | inr e ↦ rw e refl ]
no_base (c ∷ d ∷ s) h =
    let second : (120 == d) ≡ false = let here = h.1.0 in ground (arith, here) in
    rw (digit_lower d (h.1.0), second)
      (elim (Bool-cases (48 == lower c)) [ inl e ↦ rw e refl | inr e ↦ rw e refl ])

number-IsDigits : (s : Text) → IsDigits s → number s ≡ int false (digits_value 10 0 s)
unfolding number signed
number-IsDigits s h = rw (no_sign s h, no_base s h, real-IsDigits s h) refl

-- `int` of `str` of a natural number is that number.
pub number-decimal_text : (n : ℕ) → number (decimal_text n) ≡ int false n
unfolding decimal_text
number-decimal_text n =
    rw
      (
        number-IsDigits (decimal_loop (suc n) n) (decimal-IsDigits (suc n) n),
        decimal_value (suc n) n (omega arith),
      )
      refl
