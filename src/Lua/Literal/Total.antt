-- ===== src/Lua/Literal/Total.antt =====
-- The loop of `_unescape` takes a character at least on each turn.
use ascension_preservation.Common.{
  ℕ, zero, suc, ◌≤◌, Option, none, some, [], ◌∷◌, ◌++◌, length, take, drop, length-drop, ltb, ◌==◌,
  if◌then◌else◌, arith,
}
use ascension_preservation.Common.Bytes.{Bytes}
use ascension_preservation.Lua.{Text, Parsed, ok, failed, ◌>>=◌, is_digit, is_hex, digits_value}
use ascension_preservation.Lua.Ends.{Ends, Any, Ends-bind, Ends-if}
use ascension_preservation.Lua.Lexer.{count_while}
use ascension_preservation.Lua.Literal.{
  Codec, escaped, digit_count, decimal_escape, hex_escape, unescape_loop, unescape, decoded,
}

then-Ends :
    (p : Parsed Bytes) (next : Bytes → Parsed Bytes)
    → Ends Any p
    → ((b : Bytes) → Ends Any (next b))
    → Ends Any (p >>= next)
then-Ends p next h rest = Ends-bind Any Any p next h (λ b u. rest b)

decoded-Ends : (utf8 : Codec) (o : Option Text) → Ends Any (decoded utf8 o)
decoded-Ends utf8 none = tt
decoded-Ends utf8 (some s) = tt

module _ (utf8 : Codec) where
  decimal-Ends :
      (s : Text) (more : Text → Parsed Bytes)
      → ((n : ℕ) → Ends Any (more (drop n s)))
      → Ends Any (decimal_escape utf8 s more)
  unfolding decimal_escape
  decimal-Ends s more rest =
      let n = digit_count s in
      let v = digits_value 10 0 (take n s) in
      Ends-if Any (ltb 255 v) failed (do b ← more (drop n s); ok (v ∷ b)) tt
        (then-Ends (more (drop n s)) (λ b. ok (v ∷ b)) (rest n) (λ b. tt))

  hex-Ends :
      (s : Text) (more : Text → Parsed Bytes)
      → ((n : ℕ) → Ends Any (more (drop n s)))
      → Ends Any (hex_escape utf8 s more)
  unfolding hex_escape
  hex-Ends s more rest =
      let v = digits_value 16 0 (take 2 s) in
      Ends-if Any (count_while is_hex (take 2 s) == 2) (do b ← more (drop 2 s); ok (v ∷ b)) failed
        (then-Ends (more (drop 2 s)) (λ b. ok (v ∷ b)) (rest 2) (λ b. tt)) tt

  unescape_loop-Ends :
      (fuel : ℕ) (s : Text) → length s ≤ fuel → Ends Any (unescape_loop utf8 fuel s)
  unfolding unescape_loop
  unescape_loop-Ends fuel [] h = tt
  unescape_loop-Ends zero (c ∷ s) h = absurd (omega arith)
  unescape_loop-Ends (suc fuel) (c ∷ []) h =
      Ends-if Any (c == 92) (ok []) (ok (utf8.encode c)) tt tt
  unescape_loop-Ends (suc fuel) (c ∷ e ∷ s) h =
      let more = unescape_loop utf8 fuel in
      let plain = (do b ← more (e ∷ s); ok (utf8.encode c ++ b)) in
      let simple = (do b ← more s; ok (utf8.encode (escaped e) ++ b)) in
      let other = if e == 120 then hex_escape utf8 s more else simple in
      let special = if is_digit e then decimal_escape utf8 (e ∷ s) more else other in
      Ends-if Any (c == 92) special plain
        (Ends-if Any (is_digit e) (decimal_escape utf8 (e ∷ s) more) other
          (decimal-Ends (e ∷ s) more
            (λ n. unescape_loop-Ends fuel (drop n (e ∷ s)) (omega (arith, length-drop n (e ∷ s)))))
          (Ends-if Any (e == 120) (hex_escape utf8 s more) simple
            (hex-Ends s more
              (λ n. unescape_loop-Ends fuel (drop n s) (omega (arith, length-drop n s))))
            (then-Ends (more s) (λ b. ok (utf8.encode (escaped e) ++ b))
              (unescape_loop-Ends fuel s (omega arith)) (λ b. tt))))
        (then-Ends (more (e ∷ s)) (λ b. ok (utf8.encode c ++ b))
          (unescape_loop-Ends fuel (e ∷ s) (omega arith)) (λ b. tt))

  pub unescape-Ends : (raw : Text) → Ends Any (unescape utf8 raw)
  unfolding unescape
  unescape-Ends raw =
      Ends-bind Any Any (unescape_loop utf8 (length raw) raw) (λ b. decoded utf8 (utf8.decode b))
        (unescape_loop-Ends (length raw) raw (omega arith))
        (λ b u. decoded-Ends utf8 (utf8.decode b))
