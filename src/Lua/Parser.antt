-- ===== src/Lua/Parser.antt =====
-- `_Parser` and `loads`. The state of the parser is the list of the tokens that it has not consumed: its
-- head is `_tok`, the next one `_ahead`. The UTF-8 codec and the equality of Python's keys are parameters.
pub mod Scalars
pub mod Total
use ascension_preservation.Common.{
  ℕ, zero, suc, ◌+◌, ◌-◌, Bool, true, false, ◌&&◌, ◌||◌, not, List, [], ◌∷◌, length, take, drop,
  ltb, leb, ◌==◌, if◌then◌else◌, map,
}
use ascension_preservation.Lua.{
  Text, Value, nil, bool, int, float, str, redacted, table, Values, no_values, Pairs, no_pairs,
  pair, TokenKind, str_token, num_token, name_token, punct_token, Token, Parsed, ok, failed,
  out_of_fuel, ◌>>=◌, digits_value,
}
use ascension_preservation.Lua.Lexer.{starts, tokens}
use ascension_preservation.Lua.Literal.{Codec, unescape}

unfoldable pub same_text : Text → Text → Bool
same_text s t = length s == length t && starts s t

-- `t.array.append(v)`
unfoldable pub append_value : Values → Value → Values
append_value no_values v = Values.value v no_values
append_value (Values.value w vs) v = Values.value w (append_value vs v)

abbrev pub is_name : TokenKind → Bool
is_name name_token = true
is_name k = false

abbrev pub is_punct_token : TokenKind → Bool
is_punct_token punct_token = true
is_punct_token k = false

-- The token is the punctuation mark `c`.
unfoldable pub is_mark : ℕ → Token → Bool
is_mark c t = is_punct_token t.kind && same_text t.text (c ∷ [])

abbrev pub lower : ℕ → ℕ
lower c = if leb 65 c && leb c 90 then c + 32 else c

-- `any(c in text for c in ".eE")`
unfoldable pub is_real : Text → Bool
is_real [] = false
is_real (c ∷ s) = c == 46 || c == 101 || c == 69 || is_real s

unfoldable pub signed : Bool → ℕ → Value
signed minus v = int (minus && ltb 0 v) v

unfoldable pub number : Text → Value
number text =
    let minus = starts (45 ∷ []) text in
    let body = drop (if minus then 1 else 0) text in
    let small = map lower body in
    if starts (48 ∷ 120 ∷ []) small
    then signed minus (digits_value 16 0 (drop 2 body))
    else if is_real text
    then float text
    else signed minus (digits_value 10 0 body)

-- `true`, `false`, `nil`, and the marks of a redaction: `redacted`, `scrubbed`, `removed`.
unfoldable pub word : Text → Parsed Value
word text =
    let small = map lower text in
    if same_text text (116 ∷ 114 ∷ 117 ∷ 101 ∷ [])
    then ok (bool true)
    else if same_text text (102 ∷ 97 ∷ 108 ∷ 115 ∷ 101 ∷ [])
    then ok (bool false)
    else if same_text text (110 ∷ 105 ∷ 108 ∷ [])
    then ok nil
    else if same_text small (114 ∷ 101 ∷ 100 ∷ 97 ∷ 99 ∷ 116 ∷ 101 ∷ 100 ∷ [])
        || same_text small (115 ∷ 99 ∷ 114 ∷ 117 ∷ 98 ∷ 98 ∷ 101 ∷ 100 ∷ [])
        || same_text small (114 ∷ 101 ∷ 109 ∷ 111 ∷ 118 ∷ 101 ∷ 100 ∷ [])
    then ok (redacted small)
    else failed

-- `_expect("punct", c)`
unfoldable pub expect : ℕ → List Token → Parsed (List Token)
expect c [] = failed
expect c (t ∷ ts) = if is_mark c t then ok ts else failed

-- `_peek_is_assign`, on the tokens behind the cursor.
unfoldable pub peek_is_assign : List Token → Bool
peek_is_assign [] = false
peek_is_assign (t ∷ ts) = is_mark 61 t

unfoldable pub skip_separator : List Token → List Token
skip_separator [] = []
skip_separator (t ∷ ts) = if is_mark 44 t || is_mark 59 t then ts else t ∷ ts

module _ (utf8 : Codec) where
  unfoldable pub scalar_of : TokenKind → Text → Parsed Value
  scalar_of str_token text = do s ← unescape utf8 (take (length text - 2) (drop 1 text)); ok (str s)
  scalar_of num_token text = ok (number text)
  scalar_of name_token text = word text
  scalar_of punct_token text = failed

  -- `value`; `inner` is `table` behind its brace.
  unfoldable pub value_with :
      (List Token → Parsed (Value × List Token)) → List Token → Parsed (Value × List Token)
  value_with inner [] = failed
  value_with inner (t ∷ ts) =
      let plain = (do v ← scalar_of t.kind t.text; ok (v, ts)) in
      if is_mark 123 t then inner ts else plain

module _ (utf8 : Codec) (same_key : Value → Value → Bool) where
  -- `t.hash[key] = v`: a key that is there keeps its place and its own form.
  unfoldable pub put : Value → Value → Pairs → Pairs
  put key v no_pairs = pair key v no_pairs
  put key v (pair k w ps) =
      let rest = put key v ps in if same_key k key then pair k v ps else pair k w rest

  -- One turn of the loop of `table`; `again` is the rest of the loop, `inner` a table inside.
  unfoldable pub table_step :
      (List Token → Parsed (Value × List Token))
      → (Values → Pairs → List Token → Parsed (Value × List Token))
      → Values
      → Pairs
      → List Token
      → Parsed (Value × List Token)
  table_step inner again array hash [] = failed
  table_step inner again array hash (t ∷ ts) =
      if is_mark 125 t
      then ok (table array hash, ts)
      else if is_mark 91 t
      then (do
        (key, rest) ← value_with utf8 inner ts
        rest ← expect 93 rest
        rest ← expect 61 rest
        (v, rest) ← value_with utf8 inner rest
        again array (put key v hash) (skip_separator rest))
      else if is_name t.kind && peek_is_assign ts
      then (do
        rest ← expect 61 ts
        (v, rest) ← value_with utf8 inner rest
        again array (put (str t.text) v hash) (skip_separator rest))
      else (do
        (v, rest) ← value_with utf8 inner (t ∷ ts)
        again (append_value array v) hash (skip_separator rest))

  unfoldable pub table_loop : ℕ → Values → Pairs → List Token → Parsed (Value × List Token)
  table_loop zero array hash ts = out_of_fuel
  table_loop (suc fuel) array hash ts =
      table_step (table_loop fuel no_values no_pairs) (table_loop fuel) array hash ts

  unfoldable pub value_of : ℕ → List Token → Parsed (Value × List Token)
  value_of fuel ts = value_with utf8 (table_loop fuel no_values no_pairs) ts

  unfoldable pub assign : Text → Value → List (Text × Value) → List (Text × Value)
  assign name v [] = (name, v) ∷ []
  assign name v ((n, w) ∷ out) =
      let rest = assign name v out in if same_text n name then (n, v) ∷ out else (n, w) ∷ rest

  -- The loop of `loads`: its fuel bounds the turns of each loop inside too.
  unfoldable pub loads_loop : ℕ → List (Text × Value) → List Token → Parsed (List (Text × Value))
  loads_loop fuel out [] = ok out
  loads_loop zero out (t ∷ ts) = out_of_fuel
  loads_loop (suc fuel) out (t ∷ ts) =
      let skipped = loads_loop fuel out ts in
      let assigned = (do
        rest ← expect 61 ts
        (v, rest) ← value_of fuel rest
        loads_loop fuel (assign t.text v out) rest) in
      if is_mark 59 t then skipped else if is_name t.kind then assigned else failed

  unfoldable pub loads : Text → Parsed (List (Text × Value))
  loads src = do ts ← tokens src; loads_loop (length ts) [] ts
