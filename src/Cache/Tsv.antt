-- ===== src/Cache/Tsv.antt =====
-- tools/cache-consolidator/tools/merge.py: the tables of the store, written and read. A text is the list of its code
-- points, a row has the texts that `str` makes of its values, and which code points are blank is a parameter.
pub mod Lines
pub mod RoundTrip
mod Tests
use ascension_preservation.Common.{
  ℕ, Bool, true, false, not, ◌&&◌, ◌||◌, Option, none, some, List, [], ◌∷◌, ◌++◌, map, length, ◌==◌,
  if◌then◌else◌, Result, ok, err, ◌>>=◌, value_error,
}
use ascension_preservation.Common.Assoc.{find, store}
use ascension_preservation.Common.Bytes.{eq_bytes}
use ascension_preservation.Common.Dict.{get_default}
use ascension_preservation.Common.Texts.{Text}

abbrev pub tab : ℕ
tab = 9

abbrev pub newline : ℕ
newline = 10

abbrev pub carriage_return : ℕ
carriage_return = 13

abbrev pub TableRow : Type 0
TableRow = List (Text × Text)

unfoldable pub has_char : ℕ → Text → Bool
has_char c [] = false
has_char c (d ∷ t) = d == c || has_char c t

-- `s.split(sep)`
unfoldable pub onto_first : ℕ → List Text → List Text
onto_first c [] = (c ∷ []) ∷ []
onto_first c (w ∷ ws) = (c ∷ w) ∷ ws

unfoldable pub split_on : ℕ → Text → List Text
split_on sep [] = [] ∷ []
split_on sep (c ∷ t) =
    let rest = split_on sep t in if c == sep then [] ∷ rest else onto_first c rest

-- `sep.join(words)`
unfoldable pub join : ℕ → List Text → Text
join sep [] = []
join sep (w ∷ []) = w
join sep (w ∷ v ∷ ws) = w ++ sep ∷ join sep (v ∷ ws)

-- What the text mode of `open` makes of line ends.
unfoldable pub starts_line : Text → Bool
starts_line [] = false
starts_line (c ∷ t) = c == newline

unfoldable pub universal_newlines : Text → Text
universal_newlines [] = []
universal_newlines (c ∷ t) =
    let rest = universal_newlines t in
    if c == carriage_return then (if starts_line t then rest else newline ∷ rest) else c ∷ rest

-- The lines of a file, without their ends: behind the last end there is no line.
unfoldable pub without_last_empty : List Text → List Text
without_last_empty [] = []
without_last_empty ([] ∷ []) = []
without_last_empty ((c ∷ w) ∷ []) = (c ∷ w) ∷ []
without_last_empty (w ∷ v ∷ ws) = w ∷ without_last_empty (v ∷ ws)

unfoldable pub lines : Text → List Text
lines t = without_last_empty (split_on newline (universal_newlines t))

-- `dict(zip(head, vals))`
unfoldable pub zip_into : TableRow → List Text → List Text → TableRow
zip_into d [] vs = d
zip_into d (k ∷ ks) [] = d
zip_into d (k ∷ ks) (v ∷ vs) = zip_into (store eq_bytes k v d) ks vs

unfoldable pub dict_zip : List Text → List Text → TableRow
dict_zip ks vs = zip_into [] ks vs

-- `[r.get(c, "") for c in cols]`
unfoldable pub values_of : List Text → TableRow → List Text
values_of [] r = []
values_of (c ∷ cols) r = get_default (find eq_bytes c r) [] ∷ values_of cols r

-- A field that would break the table.
unfoldable pub is_unsafe : Text → Bool
is_unsafe t = has_char tab t || (has_char carriage_return t || has_char newline t)

unfoldable pub any_unsafe : List Text → Bool
any_unsafe [] = false
any_unsafe (v ∷ vs) = is_unsafe v || any_unsafe vs

unfoldable pub write_rows : List Text → List TableRow → Result Text
write_rows cols [] = ok []
write_rows cols (r ∷ rows) =
    let rest = write_rows cols rows in
    if any_unsafe (values_of cols r)
    then err value_error
    else rest >>= (λ below. ok (join tab (values_of cols r) ++ newline ∷ below))

-- The text of the file; where it raises, the file stays what it was.
unfoldable pub write_tsv : List Text → List TableRow → Result Text
write_tsv cols rows = do rest ← write_rows cols rows; ok (join tab cols ++ newline ∷ rest)

module _ (is_blank : ℕ → Bool) where
  -- `not line.strip()`
  unfoldable pub all_blank : Text → Bool
  all_blank [] = true
  all_blank (c ∷ t) = is_blank c && all_blank t

  unfoldable pub read_rows : List Text → List Text → Result (List TableRow)
  read_rows head [] = ok []
  read_rows head (line ∷ rest_lines) =
      let vals = split_on tab line in
      let rest = read_rows head rest_lines in
      if all_blank line
      then rest
      else if length vals == length head
      then rest >>= (λ rows. ok (dict_zip head vals ∷ rows))
      else err value_error

  unfoldable pub read_lines : List Text → Result (List TableRow)
  read_lines [] = ok []
  read_lines (line ∷ rest_lines) = read_rows (split_on tab line) rest_lines

  -- `none` is a file that is not there.
  unfoldable pub read_tsv : Option Text → Result (List TableRow)
  read_tsv none = ok []
  read_tsv (some text) = read_lines (lines text)
