-- ===== src/Lua/Writer.antt =====
-- `_num`, `_key_order`, `_write` and `dumps`. How Python prints a float and a key, and how it compares
-- numbers, are parameters. The members of a table are written before they are sorted by their keys.
pub mod Order
use ascension_preservation.Common.{
  ℕ, zero, suc, ◌+◌, ◌*◌, ◌/◌, ◌%◌, Bool, true, false, ◌&&◌, ◌||◌, not, List, [], ◌∷◌, ◌++◌, flat,
  map, replicate, ltb, ◌==◌, if◌then◌else◌,
}
use ascension_preservation.Common.Texts.{text_leb}
use ascension_preservation.Lua.{
  Text, Value, nil, bool, int, float, str, redacted, table, Values, no_values, Pairs, no_pairs,
  pair,
}
use ascension_preservation.Lua.Literal.{quote}

pub record Python : Type 0 where
  pub repr : Value → Text
  pub str_of : Value → Text
  pub number_leb : Value → Value → Bool

-- `sorted`, stable: `e` goes before the first entry that it does not follow.
module _ {ℓ κ} {K : Type ℓ} {V : Type κ} (before : K → K → Bool) where
  unfoldable pub insert_entry : K × V → List (K × V) → List (K × V)
  insert_entry e [] = e ∷ []
  insert_entry e (d ∷ ds) =
      let later = insert_entry e ds in if before (e.0) (d.0) then e ∷ d ∷ ds else d ∷ later

  unfoldable pub sort_entries : List (K × V) → List (K × V)
  sort_entries [] = []
  sort_entries (e ∷ es) = insert_entry e (sort_entries es)

-- `str` of a natural number.
unfoldable pub decimal_loop : ℕ → ℕ → Text
decimal_loop zero n = []
decimal_loop (suc fuel) n =
    let front = decimal_loop fuel (n / 10) in
    if ltb n 10 then (48 + n) ∷ [] else front ++ (48 + n % 10) ∷ []

unfoldable pub decimal_text : ℕ → Text
decimal_text n = decimal_loop (suc n) n

abbrev pub word_true : Text
word_true = 116 ∷ 114 ∷ 117 ∷ 101 ∷ []

abbrev pub word_false : Text
word_false = 102 ∷ 97 ∷ 108 ∷ 115 ∷ 101 ∷ []

abbrev pub word_nil : Text
word_nil = 110 ∷ 105 ∷ 108 ∷ []

unfoldable pub indent : ℕ → Text
indent depth = replicate depth 9

abbrev pub is_number : Value → Bool
is_number (int minus n) = true
is_number (float text) = true
is_number v = false

-- `, -- [i]`
unfoldable pub place_note : ℕ → Text
place_note i = 44 ∷ 32 ∷ 45 ∷ 45 ∷ 32 ∷ 91 ∷ (decimal_text i ++ 93 ∷ 10 ∷ [])

module _ (py : Python) where
  -- `_num`
  unfoldable pub num : Value → Text
  num (bool b) = if b then word_true else word_false
  num (int minus n) = if minus then 45 ∷ decimal_text n else decimal_text n
  num v = py.repr v

  -- `_key_order k <= _key_order l`
  unfoldable pub key_leb : Value → Value → Bool
  key_leb k l =
      if is_number k
      then (if is_number l then py.number_leb k l else true)
      else if is_number l
      then false
      else text_leb (py.str_of k) (py.str_of l)

  unfoldable pub written_key : Value → Text
  written_key (str s) = quote s
  written_key (redacted s) = quote s
  written_key k = num k

  unfoldable pub written_pair : ℕ → Value × Text → Text
  written_pair depth (k, text) =
      indent (suc depth) ++ 91 ∷ (written_key k ++ 93 ∷ 32 ∷ 61 ∷ 32 ∷ (text ++ 44 ∷ 10 ∷ []))

  unfoldable pub written_table : ℕ → Text → List (Value × Text) → Text
  written_table depth items pairs =
      123
      ∷ 10
      ∷ (items
          ++ (flat (map (written_pair depth) (sort_entries key_leb pairs))
              ++ (indent depth ++ 125 ∷ [])))

  -- `_write`; `written_items` numbers the items of the array from `i`.
  unfoldable mutual
    pub write_value : ℕ → Value → Text
    write_value depth (table vs ps) =
        written_table depth (written_items depth 1 vs) (written_pairs (suc depth) ps)
    write_value depth (redacted s) = 123 ∷ (s ++ 125 ∷ [])
    write_value depth (str s) = quote s
    write_value depth nil = word_nil
    write_value depth (bool b) = num (bool b)
    write_value depth (int minus n) = num (int minus n)
    write_value depth (float text) = num (float text)

    pub written_items : ℕ → ℕ → Values → Text
    written_items depth i no_values = []
    written_items depth i (Values.value v vs) =
        indent (suc depth)
        ++ (write_value (suc depth) v ++ (place_note i ++ written_items depth (suc i) vs))

    pub written_pairs : ℕ → Pairs → List (Value × Text)
    written_pairs depth no_pairs = []
    written_pairs depth (pair k v ps) = (k, write_value depth v) ∷ written_pairs depth ps

  unfoldable pub written_global : Text × Value → Text
  written_global (name, v) = name ++ 32 ∷ 61 ∷ 32 ∷ (write_value 0 v ++ 10 ∷ [])

  unfoldable pub dumps : List (Text × Value) → Text
  dumps globals = flat (map written_global (sort_entries text_leb globals))
