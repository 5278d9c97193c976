-- ===== src/Lua/Parser/Total.antt =====
-- The parser ends on every text: each turn of a loop takes a token.
use ascension_preservation.Common.{
  ℕ, zero, suc, ◌-◌, ◌≤◌, ◌<◌, Bool, true, false, ◌&&◌, ◌||◌, List, [], ◌∷◌, length, take, drop,
  if◌then◌else◌, arith, map, ◌≢◌,
}
use ascension_preservation.Lua.{
  Text, Value, nil, bool, str, redacted, table, Values, no_values, Pairs, no_pairs, TokenKind,
  str_token, num_token, name_token, punct_token, Token, Parsed, ok, failed, out_of_fuel, ◌>>=◌,
}
use ascension_preservation.Lua.Ends.{Ends, Any, Ends-bind, Ends-if, Ends-out}
use ascension_preservation.Lua.Lexer.{tokens}
use ascension_preservation.Lua.Lexer.Total.{tokens-Ends}
use ascension_preservation.Lua.Literal.{Codec, unescape}
use ascension_preservation.Lua.Literal.Total.{unescape-Ends}
use ascension_preservation.Lua.Parser.{
  lower, same_text, append_value, is_name, is_mark, word, expect, peek_is_assign, skip_separator,
  scalar_of, value_with, put, table_step, table_loop, value_of, assign, loads_loop, loads,
}

Shorter : ℕ → List Token → Type 0
Shorter n ts = length ts < n

Leaves : ℕ → (Value × List Token) → Type 0
Leaves n r = length (r.1) < n

expect-Ends : (c : ℕ) (ts : List Token) → Ends (Shorter (length ts)) (expect c ts)
unfolding expect Shorter
expect-Ends c [] = tt
expect-Ends c (t ∷ ts) =
    Ends-if (Shorter (suc (length ts))) (is_mark c t) (ok ts) failed (omega arith) tt

skip_shorter : (ts : List Token) → length (skip_separator ts) ≤ length ts
unfolding skip_separator
skip_shorter [] = omega arith
skip_shorter (t ∷ ts) = ground arith

word-Ends : (s : Text) → Ends Any (word s)
unfolding word
word-Ends s =
    let small = map lower s in
    let marked =
      same_text small (114 ∷ 101 ∷ 100 ∷ 97 ∷ 99 ∷ 116 ∷ 101 ∷ 100 ∷ [])
      || same_text small (115 ∷ 99 ∷ 114 ∷ 117 ∷ 98 ∷ 98 ∷ 101 ∷ 100 ∷ [])
      || same_text small (114 ∷ 101 ∷ 109 ∷ 111 ∷ 118 ∷ 101 ∷ 100 ∷ []) in
    let mark : Parsed Value = if marked then ok (redacted small) else failed in
    let is_nil = same_text s (110 ∷ 105 ∷ 108 ∷ []) in
    let is_false = same_text s (102 ∷ 97 ∷ 108 ∷ 115 ∷ 101 ∷ []) in
    let third : Parsed Value = if is_nil then ok nil else mark in
    let second : Parsed Value = if is_false then ok (bool false) else third in
    Ends-if Any (same_text s (116 ∷ 114 ∷ 117 ∷ 101 ∷ [])) (ok (bool true)) second tt (
      Ends-if Any is_false (ok (bool false)) third tt (
        Ends-if Any is_nil (ok nil) mark tt
          (Ends-if Any marked (ok (redacted small)) failed tt tt)))

-- Tables that `run` reads are read to their end with fewer tokens left.
IsReader : ℕ → (List Token → Parsed (Value × List Token)) → Type 0
IsReader fuel run =
    (m : ℕ) (us : List Token) → length us ≤ m → length us < fuel → Ends (Leaves m) (run us)

module _ (utf8 : Codec) where
  scalar_of-Ends : (k : TokenKind) (s : Text) → Ends Any (scalar_of utf8 k s)
  unfolding scalar_of
  scalar_of-Ends str_token s =
      let body = take (length s - 2) (drop 1 s) in
      Ends-bind Any Any (unescape utf8 body) (λ t. ok (str t)) (unescape-Ends utf8 body) (λ t u. tt)
  scalar_of-Ends num_token s = tt
  scalar_of-Ends name_token s = word-Ends s
  scalar_of-Ends punct_token s = tt

  value_with-Ends :
      (fuel m : ℕ) (inner : List Token → Parsed (Value × List Token)) (ts : List Token)
      → IsReader fuel inner
      → length ts ≤ m
      → length ts ≤ fuel
      → Ends (Leaves m) (value_with utf8 inner ts)
  unfolding value_with Leaves IsReader
  value_with-Ends fuel m inner [] reads h e = tt
  value_with-Ends fuel m inner (t ∷ ts) reads h e =
      Ends-if (Leaves m) (is_mark 123 t) (inner ts)
        (do v ← scalar_of utf8 t.kind t.text; ok (v, ts)) (reads m ts (omega arith) (omega arith))
        (Ends-bind Any (Leaves m) (scalar_of utf8 t.kind t.text) (λ v. ok (v, ts))
          (scalar_of-Ends t.kind t.text) (λ v u. omega arith))

  module _ (same_key : Value → Value → Bool) where
    -- `= value`, then the rest of the loop.
    entry-Ends :
        (fuel m : ℕ) (inner : List Token → Parsed (Value × List Token))
        (again : Value → List Token → Parsed (Value × List Token)) (ts : List Token)
        → IsReader fuel inner
        → ((v : Value) → IsReader fuel (again v))
        → length ts ≤ m
        → length ts ≤ fuel
        → Ends (Leaves m) (do (v, rest) ← value_with utf8 inner ts; again v (skip_separator rest))
    unfolding Leaves IsReader
    entry-Ends fuel m inner again ts reads loops h e =
        Ends-bind (Leaves (length ts)) (Leaves m) (value_with utf8 inner ts)
          (λ r. again (r.0) (skip_separator (r.1)))
          (value_with-Ends fuel (length ts) inner ts reads (omega arith) e)
          (λ r less.
            loops (r.0) m (skip_separator (r.1)) (omega (arith, less, skip_shorter (r.1)))
              (omega (arith, less, skip_shorter (r.1))))

    assigned-Ends :
        (fuel m : ℕ) (inner : List Token → Parsed (Value × List Token))
        (again : Value → List Token → Parsed (Value × List Token)) (ts : List Token)
        → IsReader fuel inner
        → ((v : Value) → IsReader fuel (again v))
        → length ts ≤ m
        → length ts ≤ fuel
        → Ends (Leaves m) (do
          rest ← expect 61 ts
          (v, rest) ← value_with utf8 inner rest
          again v (skip_separator rest))
    unfolding Shorter
    assigned-Ends fuel m inner again ts reads loops h e =
        Ends-bind (Shorter (length ts)) (Leaves m) (expect 61 ts)
          (λ rest. do (v, rest) ← value_with utf8 inner rest; again v (skip_separator rest))
          (expect-Ends 61 ts)
          (λ rest less.
            entry-Ends fuel m inner again rest reads loops (omega (arith, less))
              (omega (arith, less)))

    keyed-Ends :
        (fuel m : ℕ) (inner : List Token → Parsed (Value × List Token))
        (again : Value → Value → List Token → Parsed (Value × List Token)) (ts : List Token)
        → IsReader fuel inner
        → ((key v : Value) → IsReader fuel (again key v))
        → length ts ≤ m
        → length ts ≤ fuel
        → Ends (Leaves m) (do
          (key, rest) ← value_with utf8 inner ts
          rest ← expect 93 rest
          rest ← expect 61 rest
          (v, rest) ← value_with utf8 inner rest
          again key v (skip_separator rest))
    unfolding Shorter Leaves
    keyed-Ends fuel m inner again ts reads loops h e =
        Ends-bind (Leaves (length ts)) (Leaves m) (value_with utf8 inner ts)
          (λ r. do
            rest ← expect 93 (r.1)
            rest ← expect 61 rest
            (v, rest) ← value_with utf8 inner rest
            again (r.0) v (skip_separator rest))
          (value_with-Ends fuel (length ts) inner ts reads (omega arith) e)
          (λ r less.
            Ends-bind (Shorter (length (r.1))) (Leaves m) (expect 93 (r.1))
              (λ rest. do
                rest ← expect 61 rest
                (v, rest) ← value_with utf8 inner rest
                again (r.0) v (skip_separator rest))
              (expect-Ends 93 (r.1))
              (λ rest less2.
                assigned-Ends fuel m inner (again (r.0)) rest reads (loops (r.0))
                  (omega (arith, less, less2)) (omega (arith, less, less2))))

    table_step-Ends :
        (fuel m : ℕ) (inner : List Token → Parsed (Value × List Token))
        (again : Values → Pairs → List Token → Parsed (Value × List Token)) (array : Values)
        (hash : Pairs) (ts : List Token)
        → IsReader fuel inner
        → ((a : Values) (h : Pairs) → IsReader fuel (again a h))
        → length ts ≤ m
        → length ts ≤ fuel
        → Ends (Leaves m) (table_step utf8 same_key inner again array hash ts)
    unfolding table_step Leaves
    table_step-Ends fuel m inner again array hash [] reads loops h e = tt
    table_step-Ends fuel m inner again array hash (t ∷ ts) reads loops h e =
        let by_name = (do
          rest ← expect 61 ts
          (v, rest) ← value_with utf8 inner rest
          again array (put utf8 same_key (str t.text) v hash) (skip_separator rest)) in
        let by_place = (do
          (v, rest) ← value_with utf8 inner (t ∷ ts)
          again (append_value array v) hash (skip_separator rest)) in
        let by_key = (do
          (key, rest) ← value_with utf8 inner ts
          rest ← expect 93 rest
          rest ← expect 61 rest
          (v, rest) ← value_with utf8 inner rest
          again array (put utf8 same_key key v hash) (skip_separator rest)) in
        let bare = if is_name t.kind && peek_is_assign ts then by_name else by_place in
        let open_table = if is_mark 91 t then by_key else bare in
        Ends-if (Leaves m) (is_mark 125 t) (ok (table array hash, ts)) open_table (omega arith) (
          Ends-if (Leaves m) (is_mark 91 t) by_key bare
            (keyed-Ends fuel m inner (λ key v. again array (put utf8 same_key key v hash)) ts reads
              (λ key v. loops array (put utf8 same_key key v hash)) (omega arith) (omega arith))
            (Ends-if (Leaves m) (is_name t.kind && peek_is_assign ts) by_name by_place
              (assigned-Ends fuel m inner (λ v. again array (put utf8 same_key (str t.text) v hash))
                ts reads (λ v. loops array (put utf8 same_key (str t.text) v hash)) (omega arith)
                (omega arith))
              (entry-Ends fuel m inner (λ v. again (append_value array v) hash) (t ∷ ts) reads
                (λ v. loops (append_value array v) hash) h e)))

    table_loop-Ends :
        (fuel : ℕ) (array : Values) (hash : Pairs)
        → IsReader fuel (table_loop utf8 same_key fuel array hash)
    unfolding table_loop IsReader
    table_loop-Ends zero array hash m us h e = absurd (omega arith)
    table_loop-Ends (suc fuel) array hash m us h e =
        table_step-Ends fuel m (table_loop utf8 same_key fuel no_values no_pairs)
          (table_loop utf8 same_key fuel) array hash us
          (λ n vs. table_loop-Ends fuel no_values no_pairs n vs)
          (λ a p n vs. table_loop-Ends fuel a p n vs) h (omega arith)

    loads_loop-Ends :
        (fuel : ℕ) (out : List (Text × Value)) (ts : List Token)
        → length ts ≤ fuel
        → Ends Any (loads_loop utf8 same_key fuel out ts)
    unfolding loads_loop value_of Shorter Leaves
    loads_loop-Ends fuel out [] h = tt
    loads_loop-Ends zero out (t ∷ ts) h = absurd (omega arith)
    loads_loop-Ends (suc fuel) out (t ∷ ts) h =
        let inner = table_loop utf8 same_key fuel no_values no_pairs in
        let assigned : Parsed (List (Text × Value)) = (do
          rest ← expect 61 ts
          (v, rest) ← value_with utf8 inner rest
          loads_loop utf8 same_key fuel (assign utf8 same_key t.text v out) rest) in
        Ends-if Any (is_mark 59 t) (loads_loop utf8 same_key fuel out ts)
          (if is_name t.kind then assigned else failed) (loads_loop-Ends fuel out ts (omega arith))
          (Ends-if Any (is_name t.kind) assigned failed
            (Ends-bind (Shorter (length ts)) Any (expect 61 ts)
              (λ rest. do
                (v, rest) ← value_with utf8 inner rest
                loads_loop utf8 same_key fuel (assign utf8 same_key t.text v out) rest)
              (expect-Ends 61 ts)
              (λ us less.
                Ends-bind (Leaves (length us)) Any (value_with utf8 inner us)
                  (λ r. loads_loop utf8 same_key fuel (assign utf8 same_key t.text (r.0) out) (r.1))
                  (value_with-Ends fuel (length us) inner us
                    (table_loop-Ends fuel no_values no_pairs) (omega arith) (omega (arith, less)))
                  (λ r less2.
                    loads_loop-Ends fuel (assign utf8 same_key t.text (r.0) out) (r.1)
                      (omega (arith, less, less2)))))
            tt)

    -- `loads` ends on every text, whatever the codec and the equality of keys: the fuel that it is given is
    -- enough for the lexer, for each string literal and for each table, however deep.
    pub loads_ends : (src : Text) → loads utf8 same_key src ≢ out_of_fuel
    unfolding loads
    loads_ends src stuck =
        Ends-out Any (loads utf8 same_key src)
          (Ends-bind Any Any (tokens src) (λ ts. loads_loop utf8 same_key (length ts) [] ts)
            (tokens-Ends src) (λ ts u. loads_loop-Ends (length ts) [] ts (omega arith)))
          stuck
