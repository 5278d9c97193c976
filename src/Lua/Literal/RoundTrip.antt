-- ===== src/Lua/Literal/RoundTrip.antt =====
-- A string that is written as a literal is read back.
use ascension_preservation.Common.{
  ℕ, zero, suc, ◌+◌, ◌*◌, ◌/◌, ◌%◌, ◌<◌, ◌≤◌, ◌≡◌, refl, ap, true, false, Option, none, some, [],
  ◌∷◌, ◌++◌, length, ltb, ◌==◌, arith, Bool-cases, inl, inr, append-nil, append_assoc,
  length-append, ==_iff, ltb→lt,
}
use ascension_preservation.Common.Bytes.{Bytes}
use ascension_preservation.Lua.{
  Text, Parsed, ok, ◌>>=◌, is_digit, digit_value, digits_value, str_token,
}
use ascension_preservation.Lua.Lexer.{
  starts, rule_comment, as_token, count_while, string_end, more_by, rule_str, match_token,
}
use ascension_preservation.Lua.Literal.{
  Codec, escaped, decimal_escape, unescape_loop, unescape, three_digits, quote_char, quote_body,
  quote,
}

abbrev pub encode_all : Codec → Text → Bytes
encode_all utf8 [] = []
encode_all utf8 (c ∷ s) = utf8.encode c ++ encode_all utf8 s

module _ (utf8 : Codec) (ascii : (c : ℕ) → c < 128 → utf8.encode c ≡ c ∷ []) where
  abbrev and_then : ℕ → Parsed Bytes → Parsed Bytes
  and_then c rest = do b ← rest; ok (utf8.encode c ++ b)

  digit_at : (x : ℕ) → is_digit (48 + x % 10) ≡ true
  digit_at x = ground arith

  value_at : (x : ℕ) → digit_value (48 + x % 10) ≡ x % 10
  value_at x = ground arith

  unescape_control :
      (fuel c : ℕ) (rest : Text)
      → c < 32
      → unescape_loop utf8 (suc fuel) (92 ∷ (three_digits c ++ rest))
        ≡ and_then c (unescape_loop utf8 fuel rest)
  unfolding unescape_loop decimal_escape count_while digits_value
  unescape_control fuel c rest h =
      let small : c < 128 = omega arith in
      let sum : ((0 * 10 + c / 100 % 10) * 10 + c / 10 % 10) * 10 + c % 10 ≡ c = omega arith in
      let byte : ltb 255 c ≡ false = ground arith in
      rw
        (
          digit_at (c / 100),
          digit_at (c / 10),
          digit_at c,
          value_at (c / 100),
          value_at (c / 10),
          value_at c,
          sum,
          byte,
          ascii c small,
        )
        refl

  unescape_plain :
      (fuel c : ℕ) (rest : Text)
      → (c == 92) ≡ false
      → unescape_loop utf8 (suc fuel) (c ∷ rest) ≡ and_then c (unescape_loop utf8 fuel rest)
  unfolding unescape_loop
  unescape_plain fuel c [] h = rw (h, append-nil (utf8.encode c)) refl
  unescape_plain fuel c (d ∷ rest) h = rw h refl

  unescape_quote_char :
      (fuel c : ℕ) (rest : Text)
      → unescape_loop utf8 (suc fuel) (quote_char c ++ rest)
        ≡ and_then c (unescape_loop utf8 fuel rest)
  unfolding quote_char
  unescape_quote_char fuel c rest = elim (Bool-cases (c == 34)) [
    | inl q ↦ rw q (rw ((==_iff c 34).0 q) (unfold unescape_loop escaped in refl))
    | inr not_q ↦ elim (Bool-cases (c == 92)) [
      | inl b ↦ rw (not_q, b) (rw ((==_iff c 92).0 b) (unfold unescape_loop escaped in refl))
      | inr not_b ↦ elim (Bool-cases (c == 10)) [
        | inl n ↦
            rw (not_q, not_b, n) (rw ((==_iff c 10).0 n) (unfold unescape_loop escaped in refl))
        | inr not_n ↦ elim (Bool-cases (c == 13)) [
          | inl r ↦
              rw (not_q, not_b, not_n, r)
                (rw ((==_iff c 13).0 r) (unfold unescape_loop escaped in refl))
          | inr not_r ↦ elim (Bool-cases (ltb c 32)) [
            | inl control ↦
                rw (not_q, not_b, not_n, not_r, control)
                  (unescape_control fuel c rest (ltb→lt c 32 control))
            | inr plain ↦ rw (not_q, not_b, not_n, not_r, plain) (unescape_plain fuel c rest not_b)
          ]
        ]
      ]
    ]
  ]

  unescape_all :
      (fuel : ℕ) (s : Text)
      → length s ≤ fuel
      → unescape_loop utf8 fuel (quote_body s) ≡ ok (encode_all utf8 s)
  unfolding quote_body unescape_loop
  unescape_all fuel [] h = refl
  unescape_all zero (c ∷ s) h = absurd (omega arith)
  unescape_all (suc fuel) (c ∷ s) h =
      rw (unescape_quote_char fuel c (quote_body s), unescape_all fuel s (omega arith)) refl

length-quote_char : (c : ℕ) → 1 ≤ length (quote_char c)
unfolding quote_char
length-quote_char c = ground arith

length-quote_body : (s : Text) → length s ≤ length (quote_body s)
unfolding quote_body
length-quote_body [] = omega arith
length-quote_body (c ∷ s) =
    let here = length-quote_char c in
    let later = length-quote_body s in
    let both = length-append (quote_char c) (quote_body s) in omega arith

-- The body that `_q` writes is read back by `_unescape`, for a text whose UTF-8 is read back and a codec
-- that keeps ASCII.
pub unescape-quote_body :
    (utf8 : Codec) (s : Text)
    → ((c : ℕ) → c < 128 → utf8.encode c ≡ c ∷ [])
    → utf8.decode (encode_all utf8 s) ≡ some s
    → unescape utf8 (quote_body s) ≡ ok s
unfolding unescape
unescape-quote_body utf8 s ascii law =
    rw (unescape_all utf8 ascii (length (quote_body s)) s (length-quote_body s), law) refl

string_end_plain :
    (c : ℕ) (s : Text)
    → (c == 92) ≡ false
    → (c == 34) ≡ false
    → string_end 34 (c ∷ s) ≡ more_by 1 (string_end 34 s)
unfolding string_end
string_end_plain c [] b q = rw q refl
string_end_plain c (d ∷ s) b q = rw (b, q) refl

more_by_more : (k n : ℕ) (o : Option ℕ) → more_by k (more_by n o) ≡ more_by (k + n) o
more_by_more k n none = refl
more_by_more k n (some m) = ap some (omega arith)

is_plain : (x : ℕ) → ((48 + x % 10) == 92) ≡ false
is_plain x = ground arith

no_quote : (x : ℕ) → ((48 + x % 10) == 34) ≡ false
no_quote x = ground arith

string_end_control :
    (c : ℕ) (rest : Text)
    → string_end 34 (92 ∷ (three_digits c ++ rest)) ≡ more_by 4 (string_end 34 rest)
string_end_control c rest =
    let first : string_end 34 (92 ∷ (three_digits c ++ rest))
        ≡ more_by 2 (string_end 34 ((48 + c / 10 % 10) ∷ (48 + c % 10) ∷ rest)) =
      unfold string_end in refl in
    rw
      (
        first,
        string_end_plain (48 + c / 10 % 10) ((48 + c % 10) ∷ rest) (is_plain (c / 10))
            (no_quote (c / 10)),
        string_end_plain (48 + c % 10) rest (is_plain c) (no_quote c),
        more_by_more 1 1 (string_end 34 rest),
        more_by_more 2 2 (string_end 34 rest),
      )
      refl

-- A character that is written escaped is skipped whole by the lexer.
string_end-quote_char :
    (c : ℕ) (rest : Text)
    → string_end 34 (quote_char c ++ rest) ≡ more_by (length (quote_char c)) (string_end 34 rest)
unfolding quote_char
string_end-quote_char c rest = elim (Bool-cases (c == 34)) [
  | inl q ↦ rw q (unfold string_end in refl)
  | inr not_q ↦ elim (Bool-cases (c == 92)) [
    | inl b ↦ rw (not_q, b) (unfold string_end in refl)
    | inr not_b ↦ elim (Bool-cases (c == 10)) [
      | inl n ↦ rw (not_q, not_b, n) (unfold string_end in refl)
      | inr not_n ↦ elim (Bool-cases (c == 13)) [
        | inl r ↦ rw (not_q, not_b, not_n, r) (unfold string_end in refl)
        | inr not_r ↦ elim (Bool-cases (ltb c 32)) [
          | inl control ↦ rw (not_q, not_b, not_n, not_r, control) (string_end_control c rest)
          | inr plain ↦ rw (not_q, not_b, not_n, not_r, plain) (string_end_plain c rest not_b not_q)
        ]
      ]
    ]
  ]
]

string_end-quote_body :
    (s rest : Text) → string_end 34 (quote_body s ++ 34 ∷ rest) ≡ some (length (quote_body s) + 1)
unfolding quote_body
string_end-quote_body [] [] = unfold string_end in refl
string_end-quote_body [] (d ∷ rest) = unfold string_end in refl
string_end-quote_body (c ∷ s) rest =
    let both = length-append (quote_char c) (quote_body s) in
    rw
      (
        append_assoc (quote_char c) (quote_body s) (34 ∷ rest),
        string_end-quote_char c (quote_body s ++ 34 ∷ rest),
        string_end-quote_body s rest,
      )
      (ap some (omega arith))

-- Whatever follows, the lexer reads what `_q` writes as one string token.
pub match_token-quote :
    (s rest : Text) → match_token (quote s ++ rest) ≡ some (some str_token, length (quote s))
unfolding quote match_token count_while rule_comment starts rule_str as_token
match_token-quote s rest =
    let ends = length-append (quote_body s) (34 ∷ []) in
    rw (append_assoc (quote_body s) (34 ∷ []) rest, string_end-quote_body s rest)
      (ap (λ n. some (some str_token, n)) (omega arith))
